-- ===== src/Machine/Tests.antt =====
-- The theorem on sequences of transitions (runtime_state.py) at the sequence of a run that succeeds.
use agent_learning_loop.Base.{true, ◌≡◌, refl, List, [], ◌∷◌, contains}
use agent_learning_loop.Schemas.{RuntimeState, state_eq}
use agent_learning_loop.Machine.{transition}
use agent_learning_loop.Machine.Paths.{follow, succeeded_passes_every_stage}

abbrev run_states : List RuntimeState
run_states =
    RuntimeState.resetting ∷ RuntimeState.ready ∷ RuntimeState.deciding ∷ RuntimeState.verifying
    ∷ RuntimeState.succeeded ∷ []

succeeded_passes_every_stage_example :
    (contains run_states RuntimeState.resetting ≡ true)
    × (contains run_states RuntimeState.ready ≡ true)
    × (contains run_states RuntimeState.deciding ≡ true)
    × (contains run_states RuntimeState.verifying ≡ true)
unfolding follow transition
succeeded_passes_every_stage_example =
    succeeded_passes_every_stage run_states (record { state = RuntimeState.succeeded }) refl refl
