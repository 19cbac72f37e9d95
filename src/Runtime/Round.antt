-- ===== src/Runtime/Round.antt =====
-- runtime.py: one round of the `while` loop of `execute_runtime_task`.
use agent_learning_loop.Base.{
  ℕ, ◌+◌, String, true, Option, none, some, ◌!=◌, nat_eq, leb, next, leave, modify, gets, when,
  ◌>>=◌, ◌>>◌, pure,
}
use agent_learning_loop.Schemas.{
  ToolName, tool_eq, Observation, WorkspaceSnapshot, VerifierResult, ErrorCategory, ErrorPhase,
  ErrorRecord, RuntimeState,
}
use agent_learning_loop.Runtime.Session.{Host, RunInput, Call, Decision}
use agent_learning_loop.Runtime.Frame.{
  broke, thrown, Statement, transit, set_error, break_with, is_late,
}

module _ (host : Host) (input : RunInput) where
  abbrev Run : Type 0 → Type 0
  Run A = Statement host input A

  abbrev fail : ErrorCategory → ErrorPhase → ℕ → Option ToolName → String → Run (Unit {0})
  fail = break_with host input

  -- the checks before a new decision, and `counters.steps += 1`
  unfoldable pub begin_round : Run (Unit {0})
  unfolding is_late break_with
  begin_round = do
    late ← is_late host input
    when late (
        fail ErrorCategory.timeout ErrorPhase.deciding 0 none
          "Runtime deadline was exhausted before a new decision")
    spent ← gets (λ fr. leb input.config.max_steps fr.session.counters.steps)
    when spent (
        fail ErrorCategory.budget_exhausted ErrorPhase.deciding 0 none
          "step budget was exhausted before a new decision")
    modify (λ fr. record fr {
      session = record fr.session {
        counters = record fr.session.counters { steps = fr.session.counters.steps + 1 };
      };
    })

  abbrev decided : Call Decision → Run Decision
  decided (Call.returned d) = pure d
  decided _ = do
    fail ErrorCategory.internal_error ErrorPhase.deciding 0 none
        "Policy decision failed inside the Runtime boundary"
    pure Decision.no_action

  -- `runtime_policy.decide(...)` and the deadline after it
  unfoldable pub decide : Observation → Run Decision
  unfolding is_late break_with
  decide observation = do
    answer ← (λ fr.
        let (a, w) = host.decide input.fixture.task observation fr.session.world in
        (next a, record fr { session = record fr.session { world = w } }))
    d ← decided answer
    late ← is_late host input
    when late (
        fail ErrorCategory.timeout ErrorPhase.deciding 0 none
          "Runtime deadline was exhausted during policy decision")
    pure d

  abbrev take_snapshot : Run (Call WorkspaceSnapshot)
  take_snapshot fr =
      let (a, w) = host.snapshot fr.session.world in
      (next a, record fr { session = record fr.session { world = w } })

  abbrev ask_verifier : WorkspaceSnapshot → WorkspaceSnapshot → Run (Call VerifierResult)
  ask_verifier initial final fr =
      let (a, w) = host.verify initial final input.fixture.expected fr.session.world in
      (next a, record fr { session = record fr.session { world = w } })

  abbrev verification_error : Run (Unit {0})
  verification_error =
      set_error host input ErrorCategory.environment_error ErrorPhase.verifying 0 none
        "Workspace state could not be verified"

  abbrev keep_verdict : Call VerifierResult → Run (Unit {0})
  keep_verdict (Call.returned r) = modify (λ fr. record fr { verifier_result = r })
  keep_verdict Call.failed = verification_error
  keep_verdict Call.raised = leave thrown

  abbrev verify_final : WorkspaceSnapshot → Call WorkspaceSnapshot → Run (Unit {0})
  verify_final initial (Call.returned final) = do
    modify (λ fr. record fr { verification_attempted = true })
    verdict ← ask_verifier initial final
    keep_verdict verdict
  verify_final initial Call.failed = verification_error
  verify_final initial Call.raised = leave thrown

  -- the `try` around the verification; a missing snapshot fails the assertion
  unfoldable pub verify_run : Option WorkspaceSnapshot → Run (Unit {0})
  unfolding set_error
  verify_run none = leave thrown
  verify_run (some initial) = do final ← take_snapshot; verify_final initial final

  unfoldable pub timeout_unless_failed :
      Option ErrorRecord → ErrorPhase → ℕ → Option ToolName → String → Run (Unit {0})
  unfolding is_late set_error
  timeout_unless_failed (some _) phase attempt tool detail = pure tt
  timeout_unless_failed none phase attempt tool detail = do
    late ← is_late host input
    when late (set_error host input ErrorCategory.timeout phase attempt tool detail)

  -- `if tracker.injection_count != 1: ...`
  unfoldable pub check_injections : ℕ → Run (Unit {0})
  unfolding break_with
  check_injections n = when (n != 1) (
      fail ErrorCategory.internal_error ErrorPhase.internal 0 none
        "fixed failure schedule did not inject exactly once")

  -- `if raw_action is None: ...`
  unfoldable pub finish_round : Run (Unit {0})
  unfolding check_injections transit verify_run timeout_unless_failed
  finish_round = do
    injections ← gets (λ fr. fr.session.tracker.injection_count)
    check_injections injections
    transit host input RuntimeState.verifying
    initial ← gets (λ fr. fr.initial)
    verify_run initial
    error ← gets (λ fr. fr.error)
    timeout_unless_failed error ErrorPhase.verifying 0 none
        "Runtime deadline was exhausted during verification"
    leave broke
