-- ===== src/Durable/Trajectory.antt =====
-- event_replay.py: the validation of what a durable run left behind, its journal, checkpoint and result.
use agent_learning_loop.Base.{
  ℕ, suc, ◌+◌, int_eq, String, Bool, false, not, ◌||◌, Option, none, some, List, [], ◌∷◌, find?,
  get_elem?, contains, nat_beq, nat_eq, option_eq, string_eq, bool_eq, ◌==◌, ◌!=◌, if◌then◌else◌,
}
use agent_learning_loop.Schemas.{RuntimeState, state_eq, state_text}
use agent_learning_loop.Machine.{allowed_transitions}
use agent_learning_loop.Durable.Events.{DurableEventKind, event_kind_eq, DurableEvent}
use agent_learning_loop.Durable.Journal.{JournalFile}
use agent_learning_loop.Durable.Contracts.{Checkpoint, DurableResult}

pub data TrajectoryStatus : Type 0 where
  valid_partial valid_completed : TrajectoryStatus

pub record TrajectoryValidationResult : Type 0 where
  pub status : TrajectoryStatus
  pub run_id : String
  pub task_id : String
  pub record_count : ℕ
  pub final_hash : String
  pub segment_count : ℕ
  pub terminal_state : Option RuntimeState
  pub verifier_passed : Option Bool
  pub checkpoint_id : Option String

-- A `TrajectoryValidationError` with its message, or a value.
pub data Trial {ℓ} (A : Type ℓ) : Type ℓ where
  refused : String → Trial A
  passed : A → Trial A

unfoldable pub and_then {ℓ} : {A B : Type ℓ} → Trial A → (A → Trial B) → Trial B
and_then (refused message) f = refused message
and_then (passed a) f = f a

-- `if b: raise TrajectoryValidationError(message)`
unfoldable pub refuse_if {ℓ} : {A : Type ℓ} → Bool → String → Trial A → Trial A
refuse_if b message rest = if b then refused message else rest

-- A file of a run that pydantic reads: absent, not readable or not of the model's fields, or read.
pub data ModelFile (A : Type 0) : Type 0 where
  absent : ModelFile A
  unloaded : ModelFile A
  loaded : A → ModelFile A

-- What stands in a run's directory; `workspace` is the digest of its files, if it can be computed.
pub record RunDirectory : Type 0 where
  pub events : JournalFile
  pub checkpoint : ModelFile Checkpoint
  pub result : ModelFile DurableResult
  pub workspace : Option String

abbrev all_states : List RuntimeState
all_states =
    RuntimeState.created ∷ RuntimeState.resetting ∷ RuntimeState.ready ∷ RuntimeState.deciding
    ∷ RuntimeState.validating_action ∷ RuntimeState.executing_tool ∷ RuntimeState.observing
    ∷ RuntimeState.verifying ∷ RuntimeState.succeeded ∷ RuntimeState.failed ∷ RuntimeState.rejected
    ∷ RuntimeState.budget_exhausted ∷ RuntimeState.timed_out ∷ []

-- `RuntimeState(text or "")`
abbrev pub parse_state : Option String → Option RuntimeState
parse_state none = none
parse_state (some text) = find? (λ s. state_text s == text) all_states

abbrev pub move : RuntimeState → Option RuntimeState → Option RuntimeState → Trial RuntimeState
move state (some source) (some target) =
    if source != state || not (contains (allowed_transitions state) target)
    then refused "state events are not a legal continuous path"
    else passed target
move state _ _ = refused "state event names an unknown state"

abbrev pub next_state : RuntimeState → DurableEvent → Trial RuntimeState
next_state state r =
    if r.event_kind == DurableEventKind.runtime_state_changed
    then move state (parse_state r.payload.from_state) (parse_state r.payload.to_state)
    else passed state

-- the loop over the state events
unfoldable pub walk : RuntimeState → List DurableEvent → Trial RuntimeState
unfolding and_then
walk state [] = passed state
walk state (r ∷ rs) = and_then (next_state state r) (λ state'. walk state' rs)

-- `[index for index, record in enumerate(records) if record.event_kind == kind]`
abbrev pub indexes_from : ℕ → DurableEventKind → List DurableEvent → List ℕ
indexes_from i kind [] = []
indexes_from i kind (r ∷ rs) =
    let rest = indexes_from (suc i) kind rs in if r.event_kind == kind then i ∷ rest else rest

abbrev pub indexes : DurableEventKind → List DurableEvent → List ℕ
indexes kind rs = indexes_from 0 kind rs

-- the list is `[n - k]`
abbrev pub is_only : List ℕ → ℕ → ℕ → Bool
is_only (i ∷ []) k n = nat_beq (i + k) n
is_only _ k n = false

abbrev pub on : Option DurableEvent → (DurableEvent → Bool) → Bool
on none p = false
on (some e) p = p e

-- a test of `records[index]`
abbrev pub at : List DurableEvent → ℕ → (DurableEvent → Bool) → Bool
at rs i p = on (get_elem? rs i) p
