-- ===== src/Machine.antt =====
-- src/agent_learning_loop/runtime_state.py: the legal-transition table and the state machine.
pub mod Paths
mod Tests
use agent_learning_loop.Base.{List, [], ◌∷◌, contains, if◌then◌else◌}
use agent_learning_loop.Schemas.{RuntimeState, state_eq, is_terminal}

-- `ALLOWED_TRANSITIONS`
abbrev pub allowed_transitions : RuntimeState → List RuntimeState
allowed_transitions RuntimeState.created =
    RuntimeState.resetting ∷ RuntimeState.failed ∷ RuntimeState.rejected ∷ []
allowed_transitions RuntimeState.resetting = RuntimeState.ready ∷ RuntimeState.failed ∷ []
allowed_transitions RuntimeState.ready =
    RuntimeState.deciding ∷ RuntimeState.budget_exhausted ∷ RuntimeState.timed_out ∷ []
allowed_transitions RuntimeState.deciding =
    RuntimeState.validating_action ∷ RuntimeState.verifying ∷ RuntimeState.failed
    ∷ RuntimeState.budget_exhausted ∷ RuntimeState.timed_out ∷ []
allowed_transitions RuntimeState.validating_action =
    RuntimeState.executing_tool ∷ RuntimeState.rejected ∷ RuntimeState.failed ∷ []
allowed_transitions RuntimeState.executing_tool =
    RuntimeState.observing ∷ RuntimeState.failed ∷ RuntimeState.rejected
    ∷ RuntimeState.budget_exhausted ∷ RuntimeState.timed_out ∷ []
allowed_transitions RuntimeState.observing =
    RuntimeState.deciding ∷ RuntimeState.failed ∷ RuntimeState.budget_exhausted
    ∷ RuntimeState.timed_out ∷ []
allowed_transitions RuntimeState.verifying =
    RuntimeState.succeeded ∷ RuntimeState.failed ∷ RuntimeState.timed_out ∷ []
allowed_transitions _ = []

pub record RuntimeStateMachine : Type 0 where
  pub state : RuntimeState

pub data TransitionResult : Type 0 where
  -- the machine after the move, and the pair (source, target) that the method returns
  moved : RuntimeStateMachine → RuntimeState → RuntimeState → TransitionResult
  terminal_state_error : TransitionResult
  invalid_state_transition_error : TransitionResult

-- `RuntimeStateMachine.transition`
unfoldable pub transition : RuntimeStateMachine → RuntimeState → TransitionResult
transition m target =
    if is_terminal m.state
    then terminal_state_error
    else if contains (allowed_transitions m.state) target
    then moved (record m { state = target }) m.state target
    else invalid_state_transition_error
