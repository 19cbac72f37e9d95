-- ===== src/Runtime/Frame.antt =====
-- runtime.py: the local variables of `execute_runtime_task`, its guards and its terminal states.
use agent_learning_loop.Base.{
  ℕ, String, Bool, false, Option, some, [], ◌∷◌, ◌==◌, contains, leb, str, Body, next, stop, leave,
  modify, ◌>>◌, if◌then◌else◌,
}
use agent_learning_loop.Schemas.{
  ToolName, Observation, WorkspaceSnapshot, VerifierResult, ErrorCategory, category_eq, ErrorPhase,
  ErrorRecord, RuntimeState, state_text,
}
use agent_learning_loop.Machine.{TransitionResult, moved, transition}
use agent_learning_loop.Runtime.Session.{
  Host, RunInput, Session, RuntimeEventKind, make_error, emit, elapsed,
}

pub record Frame (W : Type 0) : Type 0 where
  pub session : Session W
  pub error : Option ErrorRecord
  pub verifier_result : VerifierResult
  pub initial : Option WorkspaceSnapshot
  pub observation : Option Observation
  pub verification_attempted : Bool
  pub last_attempt : ℕ

-- How a statement leaves the `try` body: a `break` of the loop, or an exception.
pub data Leave : Type 0 where
  broke thrown : Leave

-- `_terminal_for_error`
unfoldable pub terminal_for_error : ErrorRecord → RuntimeState
terminal_for_error error =
    if error.category == ErrorCategory.timeout
    then RuntimeState.timed_out
    else if error.category == ErrorCategory.budget_exhausted
    then RuntimeState.budget_exhausted
    else if contains (ErrorCategory.policy_rejection ∷ ErrorCategory.idempotency_conflict ∷ [])
        error.category
    then RuntimeState.rejected
    else RuntimeState.failed

-- `_execution_failure_verifier`
abbrev pub execution_failure_verifier : VerifierResult
execution_failure_verifier = record {
  passed = false;
  score = 0;
  checks =
      record {
        name = "execution_completed";
        passed = false;
        detail = "execution ended before state verification";
      }
      ∷ [];
}

module _ (host : Host) (input : RunInput) where
  abbrev pub Statement : Type 0 → Type 0
  Statement A = Body (Frame host.World) Leave A

  abbrev moved_to : TransitionResult → Statement (Unit {0})
  moved_to (moved m source target) fr = (
    next tt,
    record fr {
      session =
          emit input RuntimeEventKind.runtime_state_changed
            (("from", str (state_text source)) ∷ ("to", str (state_text target)) ∷ []) 0
            (record fr.session { machine = m });
    },
  )
  moved_to _ fr = (stop thrown, fr)

  -- `transition(target)`
  unfoldable pub transit : RuntimeState → Statement (Unit {0})
  unfolding transition emit
  transit target fr = moved_to (transition fr.session.machine target) fr

  -- `error = _error(category, phase, False, counters, attempt, tool_name, detail)`
  unfoldable pub set_error :
      ErrorCategory → ErrorPhase → ℕ → Option ToolName → String → Statement (Unit {0})
  unfolding make_error
  set_error category phase attempt tool detail = modify (λ fr. record fr {
    error = some (make_error category phase false fr.session.counters attempt tool detail);
  })

  -- the same, followed by `break`
  unfoldable pub break_with :
      ErrorCategory → ErrorPhase → ℕ → Option ToolName → String → Statement (Unit {0})
  unfolding set_error
  break_with category phase attempt tool detail = do
    set_error category phase attempt tool detail
    leave broke

  -- `elapsed() >= effective_config.timeout_seconds`
  unfoldable pub is_late : Statement Bool
  unfolding elapsed
  is_late fr =
      let (t, s) = elapsed host input fr.session in
      (next (leb input.config.timeout_seconds t), record fr { session = s })
