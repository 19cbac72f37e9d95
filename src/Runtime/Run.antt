-- ===== src/Runtime/Run.antt =====
-- runtime.py: `execute_runtime_task`, from the checks of its arguments to its result.
use agent_learning_loop.Base.{
  ℕ, zero, suc, Bool, false, not, Option, none, some, ◌==◌, string_eq, int_eq, option_eq, Flow,
  next, stop, leave, modify, gets, when, ◌>>=◌, ◌>>◌, pure, if◌then◌else◌,
}
use agent_learning_loop.Schemas.{
  Observation, WorkspaceSnapshot, VerifierResult, ErrorCategory, ErrorPhase, ErrorRecord,
  RuntimeState, state_eq, is_terminal,
}
use agent_learning_loop.Runtime.Session.{Host, RunInput, Call}
use agent_learning_loop.Runtime.Frame.{
  Frame, Leave, broke, thrown, Statement, transit, set_error, is_late, terminal_for_error,
  execution_failure_verifier,
}
use agent_learning_loop.Runtime.Act.{round}

module _ (host : Host) (input : RunInput) where
  abbrev Run : Type 0 → Type 0
  Run A = Statement host input A

  abbrev reset_error : Run (Unit {0})
  reset_error =
      set_error host input ErrorCategory.environment_error ErrorPhase.resetting 0 none
        "Workspace reset was rejected"

  abbrev keep_initial : Call WorkspaceSnapshot → Run (Unit {0})
  keep_initial (Call.returned s) = modify (λ fr. record fr { initial = some s })
  keep_initial Call.failed = reset_error
  keep_initial Call.raised = leave thrown

  abbrev take_snapshot : Run (Call WorkspaceSnapshot)
  take_snapshot fr =
      let (a, w) = host.snapshot fr.session.world in
      (next a, record fr { session = record fr.session { world = w } })

  abbrev keep_reset : Call Observation → Run (Unit {0})
  keep_reset (Call.returned o) = do
    modify (λ fr. record fr { observation = some o })
    answer ← take_snapshot
    keep_initial answer
  keep_reset Call.failed = reset_error
  keep_reset Call.raised = leave thrown

  -- the `try` around `environment.reset` and `environment.snapshot`
  unfoldable pub reset_environment : Run (Unit {0})
  unfolding set_error
  reset_environment = do
    answer ← (λ fr.
        let (a, w) =
          host.reset input.fixture.setup_files input.fixture.task.task_id fr.session.world in
        (next a, record fr { session = record fr.session { world = w } }))
    keep_reset answer

  -- `if error is None: transition(RuntimeState.READY)`
  unfoldable pub ready_unless_failed : Option ErrorRecord → Run (Unit {0})
  unfolding transit
  ready_unless_failed none = transit host input RuntimeState.ready
  ready_unless_failed (some _) = pure tt

  -- from `transition(RuntimeState.RESETTING)` to `transition(RuntimeState.READY)`
  unfoldable pub prepare : Run (Unit {0})
  unfolding transit reset_environment ready_unless_failed
  prepare = do
    transit host input RuntimeState.resetting
    reset_environment
    error ← gets (λ fr. fr.error)
    ready_unless_failed error

  -- how a round left the loop body, as an end of the loop
  abbrev pub after_round :
      (Frame host.World → Flow Leave (Unit {0}) × Frame host.World)
      → Flow Leave (Unit {0}) × Frame host.World
      → Flow Leave (Unit {0}) × Frame host.World
  after_round again (next _, fr) = again fr
  after_round again (stop broke, fr) = (next tt, fr)
  after_round again (stop thrown, fr) = (stop thrown, fr)

  abbrev pub while_ready :
      Option ErrorRecord
      → Option Observation
      → (Frame host.World → Flow Leave (Unit {0}) × Frame host.World)
      → Frame host.World
      → Flow Leave (Unit {0}) × Frame host.World
  while_ready none (some o) again fr = after_round again (round host input o fr)
  while_ready _ _ again fr = (next tt, fr)

  -- `while error is None and observation is not None`, on fuel; with no fuel it goes on as `broke`
  unfoldable pub loop : ℕ → Run (Unit {0})
  loop zero fr = (stop broke, fr)
  loop (suc fuel) fr = while_ready fr.error fr.observation (loop fuel) fr

  abbrev keep_late_verdict : Call VerifierResult → Run (Unit {0})
  keep_late_verdict (Call.returned r) = modify (λ fr. record fr { verifier_result = r })
  keep_late_verdict Call.failed =
      modify (λ fr. record fr { verifier_result = execution_failure_verifier })
  keep_late_verdict Call.raised = leave thrown

  abbrev verify_late : WorkspaceSnapshot → Call WorkspaceSnapshot → Run (Unit {0})
  verify_late initial (Call.returned final) fr =
      let (a, w) = host.verify initial final input.fixture.expected fr.session.world in
      keep_late_verdict a (record fr { session = record fr.session { world = w } })
  verify_late initial Call.failed fr = keep_late_verdict Call.failed fr
  verify_late initial Call.raised fr = keep_late_verdict Call.raised fr

  -- `if initial is not None and not verification_attempted: ...`
  unfoldable pub verify_after_error : Option WorkspaceSnapshot → Bool → Run (Unit {0})
  verify_after_error (some initial) false = do final ← take_snapshot; verify_late initial final
  verify_after_error _ _ = pure tt

  -- with no error, in the state VERIFYING
  unfoldable pub conclude_verified : Run (Unit {0})
  unfolding is_late set_error transit
  conclude_verified = do
    late ← is_late host input
    passed ← gets (λ fr. fr.verifier_result.passed)
    if late
        then (do
          set_error host input ErrorCategory.timeout ErrorPhase.verifying 0 none
              "Runtime deadline was exhausted before terminal success"
          transit host input RuntimeState.timed_out)
        else transit host input (if passed then RuntimeState.succeeded else RuntimeState.failed)

  -- the end of the `try` body, which chooses the terminal state
  unfoldable pub conclude : Option ErrorRecord → Run (Unit {0})
  unfolding conclude_verified transit verify_after_error terminal_for_error
  conclude none = do
    verifying ← gets (λ fr. fr.session.machine.state == RuntimeState.verifying)
    when verifying conclude_verified
  conclude (some error) = do
    initial ← gets (λ fr. fr.initial)
    attempted ← gets (λ fr. fr.verification_attempted)
    verify_after_error initial attempted
    transit host input (terminal_for_error error)

  -- the `try` body
  unfoldable pub try_body : ℕ → Run (Unit {0})
  try_body fuel = do prepare; loop fuel; error ← gets (λ fr. fr.error); conclude error

  -- `except Exception`; `stop` is an exception out of the handler
  unfoldable pub handle : Flow Leave (Unit {0}) → Run (Unit {0})
  unfolding set_error transit
  handle (stop thrown) fr =
      when (not (is_terminal fr.session.machine.state))
        (do
          set_error host input ErrorCategory.internal_error ErrorPhase.internal fr.last_attempt none
              "Unexpected Runtime boundary failure"
          transit host input RuntimeState.failed)
        fr
  handle r fr = (r, fr)

  -- `try: ... except Exception: ...`
  unfoldable pub guarded_run : ℕ → Run (Unit {0})
  guarded_run fuel fr = let (r, fr') = try_body fuel fr in handle r fr'
