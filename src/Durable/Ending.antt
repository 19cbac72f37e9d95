-- ===== src/Durable/Ending.antt =====
-- event_replay.py: what the end of the validation of a trajectory tells.
use agent_learning_loop.Base.{
  String, Bool, true, false, not, ◌||◌, Option, none, some, List, ◌∷◌, length, ltb, nat_eq, Stdlib,
  if_intro, ◌≡◌, ◌⊎◌, inl, inr, sym, ap, arith,
}
use agent_learning_loop.Schemas.{RuntimeState, state_eq, state_beq_iff, is_terminal}
use agent_learning_loop.Machine.Paths.{follow}
use agent_learning_loop.Durable.Events.{DurableEventKind, event_kind_eq, DurableEvent}
use agent_learning_loop.Durable.Contracts.{Checkpoint, DurableResult, Dump}
use agent_learning_loop.Durable.Chain.{IsChained}
use agent_learning_loop.Durable.Journal.{JournalFile, valid, read_and_validate_journal}
use agent_learning_loop.Durable.Trajectory.{
  valid_partial, valid_completed, TrajectoryValidationResult, Trial, passed, ModelFile, absent,
  unloaded, loaded, indexes, RunDirectory,
}
use agent_learning_loop.Durable.Validation.{summarise}
use agent_learning_loop.Durable.Replay.{
  last_of, validate_file, validate_partial, validate_completed, validate_ended,
}
use agent_learning_loop.Durable.Walk.{targets, and_then-passed, refuse_if-passed}

-- What an accepted trajectory shows of the records that are read from its journal.
pub record IsTrajectory (lib : Stdlib) (loads : String → Option DurableEvent) (file : JournalFile)
    (result : TrajectoryValidationResult) : Type 0 where
  pub started : DurableEvent
  pub rest : List DurableEvent
  pub read : read_and_validate_journal lib loads file ≡ valid (started ∷ rest)
  pub begins : started.event_kind ≡ DurableEventKind.run_started
  pub chained : IsChained lib none 0 (started ∷ rest)
  pub counted : result.record_count ≡ length (started ∷ rest)
  pub hashed : result.final_hash ≡ (last_of started rest).record_hash
  -- the state events are transitions that the Runtime's state machine accepts, from CREATED
  pub state : RuntimeState
  pub path :
      follow (record { state = RuntimeState.created }) (targets (started ∷ rest))
      ≡ some (record { state = state })
  -- a completed one ends in the terminal state that it tells, a partial one in OBSERVING
  pub ended :
      ((result.status ≡ valid_completed)
        × (result.terminal_state ≡ some state)
        × (is_terminal state ≡ true))
      ⊎ ((result.status ≡ valid_partial)
          × (result.terminal_state ≡ none)
          × (state ≡ RuntimeState.observing))

-- What the end of the validation tells.
pub record IsEnding (started : DurableEvent) (rest : List DurableEvent) (state : RuntimeState)
    (result : TrajectoryValidationResult) : Type 0 where
  pub counted : result.record_count ≡ length (started ∷ rest)
  pub hashed : result.final_hash ≡ (last_of started rest).record_hash
  pub ended :
      ((result.status ≡ valid_completed)
        × (result.terminal_state ≡ some state)
        × (is_terminal state ≡ true))
      ⊎ ((result.status ≡ valid_partial)
          × (result.terminal_state ≡ none)
          × (state ≡ RuntimeState.observing))

validate_partial-IsEnding :
    (dir : RunDirectory) (started : DurableEvent) (rest : List DurableEvent) (state : RuntimeState)
    (checkpoint : Option Checkpoint) (result : TrajectoryValidationResult)
    → validate_partial dir started rest state checkpoint ≡ passed result
    → IsEnding started rest state result
unfolding summarise
validate_partial-IsEnding dir started rest state checkpoint result h =
    let (_, h1) = refuse_if-passed _ _ _ _ h in
    let (_, h2) = refuse_if-passed _ _ _ _ h1 in
    let (observing, h3) = refuse_if-passed _ _ _ _ h2 in
    let (_, _, h4) = and_then-passed _ _ _ h3 in
    let (_, _, h5) = and_then-passed _ _ _ h4 in
    let (_, h6) = refuse_if-passed _ _ _ _ h5 in
    let told : summarise valid_partial started (last_of started rest) (length (started ∷ rest))
          checkpoint none none
        ≡ result =
      cc h6 in
    record {
      counted = ap (λ (x : TrajectoryValidationResult). x.record_count) (sym told);
      hashed = ap (λ (x : TrajectoryValidationResult). x.final_hash) (sym told);
      ended = inr (
        ap (λ (x : TrajectoryValidationResult). x.status) (sym told),
        ap (λ (x : TrajectoryValidationResult). x.terminal_state) (sym told),
        ground (arith, observing, state_beq_iff state RuntimeState.observing),
      );
    }

second_negated : (a b : Bool) → (a || not b) ≡ false → b ≡ true
second_negated a b h = ground arith

pub ended_succeeded :
    (result : TrajectoryValidationResult) (state : RuntimeState)
    → ((result.status ≡ valid_completed)
        × (result.terminal_state ≡ some state)
        × (is_terminal state ≡ true))
      ⊎ ((result.status ≡ valid_partial)
          × (result.terminal_state ≡ none)
          × (state ≡ RuntimeState.observing))
    → result.terminal_state ≡ some RuntimeState.succeeded
    → state ≡ RuntimeState.succeeded
ended_succeeded result state (inl c) s = cc (c.1, s)
ended_succeeded result state (inr p) s = cc (p.1, s)

told_completed :
    (lib : Stdlib) (dump : Dump) (dir : RunDirectory) (started : DurableEvent)
    (rest : List DurableEvent) (state : RuntimeState) (checkpoint : Option Checkpoint)
    (file : ModelFile DurableResult) (result : TrajectoryValidationResult)
    → validate_file lib dump dir started rest state checkpoint file ≡ passed result
    → is_terminal state ≡ true
    → IsEnding started rest state result
unfolding summarise
told_completed lib dump dir started rest state checkpoint absent result h t = cc
told_completed lib dump dir started rest state checkpoint unloaded result h t = cc
told_completed lib dump dir started rest state checkpoint (loaded r) result h t =
    let (_, h1) = refuse_if-passed _ _ _ _ h in
    let (_, h2) = refuse_if-passed _ _ _ _ h1 in
    let (_, h3) = refuse_if-passed _ _ _ _ h2 in
    let told : summarise valid_completed started (last_of started rest) (length (started ∷ rest))
          checkpoint (some state) (some r.verifier.passed)
        ≡ result =
      cc h3 in
    record {
      counted = ap (λ (x : TrajectoryValidationResult). x.record_count) (sym told);
      hashed = ap (λ (x : TrajectoryValidationResult). x.final_hash) (sym told);
      ended = inl (
        ap (λ (x : TrajectoryValidationResult). x.status) (sym told),
        ap (λ (x : TrajectoryValidationResult). x.terminal_state) (sym told),
        t,
      );
    }

validate_completed-IsEnding :
    (lib : Stdlib) (dump : Dump) (dir : RunDirectory) (started : DurableEvent)
    (rest : List DurableEvent) (state : RuntimeState) (checkpoint : Option Checkpoint)
    (result : TrajectoryValidationResult)
    → validate_completed lib dump dir started rest state checkpoint ≡ passed result
    → IsEnding started rest state result
validate_completed-IsEnding lib dump dir started rest state checkpoint result h =
    let (ends, h1) = refuse_if-passed _ _ _ _ h in
    let (_, _, h2) = and_then-passed _ _ _ h1 in
    let (_, h3) = refuse_if-passed _ _ _ _ h2 in
    let (_, h4) = refuse_if-passed _ _ _ _ h3 in
    told_completed lib dump dir started rest state checkpoint dir.result result h4
      (second_negated _ (is_terminal state) ends)

pub validate_ended-IsEnding :
    (lib : Stdlib) (dump : Dump) (dir : RunDirectory) (started : DurableEvent)
    (rest : List DurableEvent) (state : RuntimeState) (checkpoint : Option Checkpoint)
    (result : TrajectoryValidationResult)
    → validate_ended lib dump dir started rest state checkpoint ≡ passed result
    → IsEnding started rest state result
validate_ended-IsEnding lib dump dir started rest state checkpoint result =
    if_intro
      (λ (x : Trial TrajectoryValidationResult).
        x ≡ passed result → IsEnding started rest state result)
      (ltb 0 (length (indexes DurableEventKind.run_finished (started ∷ rest)))) _ _
      (λ _. validate_completed-IsEnding lib dump dir started rest state checkpoint result)
      (λ _. validate_partial-IsEnding dir started rest state checkpoint result)
