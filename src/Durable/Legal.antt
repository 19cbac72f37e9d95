-- ===== src/Durable/Legal.antt =====
-- event_replay.py: what an accepted trajectory shows of the run.
use agent_learning_loop.Base.{
  String, true, Option, none, some, List, [], ◌∷◌, contains, nat_eq, Stdlib, ◌≡◌, ◌∙◌, sym, refl,
  arith,
}
use agent_learning_loop.Schemas.{RuntimeState, state_eq}
use agent_learning_loop.Machine.Paths.{succeeded_passes_every_stage}
use agent_learning_loop.Durable.Events.{
  DurableEventKind, event_kind_eq, event_kind_beq_iff, DurableEvent,
}
use agent_learning_loop.Durable.Journal.{Validated, invalid, valid, read_and_validate_journal}
use agent_learning_loop.Durable.Contracts.{Dump}
use agent_learning_loop.Durable.Chain.{IsChained, read_and_validate_journal-IsChained}
use agent_learning_loop.Durable.Trajectory.{TrajectoryValidationResult, passed, RunDirectory}
use agent_learning_loop.Durable.Validation.{validate_checkpoint}
use agent_learning_loop.Durable.Replay.{
  validate_ended, validate_records, of_journal, validate_trajectory,
}
use agent_learning_loop.Durable.Walk.{targets, and_then-passed, refuse_if-passed, walk-follow}
use agent_learning_loop.Durable.Ending.{IsTrajectory, ended_succeeded, validate_ended-IsEnding}

validate_records-IsTrajectory :
    (lib : Stdlib) (loads : String → Option DurableEvent) (dump : Dump) (dir : RunDirectory)
    (records : List DurableEvent) (result : TrajectoryValidationResult)
    → read_and_validate_journal lib loads dir.events ≡ valid records
    → IsChained lib none 0 records
    → validate_records lib dump dir records ≡ passed result
    → IsTrajectory lib loads dir.events result
unfolding validate_records
validate_records-IsTrajectory lib loads dump dir [] result read c h = cc
validate_records-IsTrajectory lib loads dump dir (started ∷ rest) result read c h =
    let (begins, h1) = refuse_if-passed _ _ _ _ h in
    let (_, h2) = refuse_if-passed _ _ _ _ h1 in
    let (state, walked, h3) = and_then-passed _ _ _ h2 in
    let (checkpoint, _, h4) =
      and_then-passed (validate_checkpoint lib dump dir (started ∷ rest))
        (λ c. validate_ended lib dump dir started rest state c) result h3 in
    let ending = validate_ended-IsEnding lib dump dir started rest state checkpoint result h4 in
    record {
      started = started;
      rest = rest;
      read = read;
      begins =
          ground
            (arith, begins, event_kind_beq_iff started.event_kind DurableEventKind.run_started);
      chained = c;
      counted = ending.counted;
      hashed = ending.hashed;
      state = state;
      path = walk-follow RuntimeState.created state (started ∷ rest) walked;
      ended = ending.ended;
    }

validated-IsTrajectory :
    (lib : Stdlib) (loads : String → Option DurableEvent) (dump : Dump) (dir : RunDirectory)
    (v : Validated) (result : TrajectoryValidationResult)
    → read_and_validate_journal lib loads dir.events ≡ v
    → of_journal lib dump dir v ≡ passed result
    → IsTrajectory lib loads dir.events result
validated-IsTrajectory lib loads dump dir (invalid message) result read h = cc
validated-IsTrajectory lib loads dump dir (valid records) result read h =
    validate_records-IsTrajectory lib loads dump dir records result read
      (read_and_validate_journal-IsChained lib loads dir.events records read) h

-- The journal of a trajectory that validates is read as records that are numbered and chained by their
-- hashes, from `run_started` to the record whose hash the verdict tells, as many as it tells. Their
-- state events are transitions that the Runtime's state machine accepts, from CREATED to the terminal
-- state of the verdict where it is completed, and to OBSERVING where it is partial.
pub validate_trajectory-IsTrajectory :
    (lib : Stdlib) (loads : String → Option DurableEvent) (dump : Dump) (dir : RunDirectory)
    (result : TrajectoryValidationResult)
    → validate_trajectory lib loads dump dir ≡ passed result
    → IsTrajectory lib loads dir.events result
unfolding validate_trajectory
validate_trajectory-IsTrajectory lib loads dump dir result h =
    validated-IsTrajectory lib loads dump dir (read_and_validate_journal lib loads dir.events)
      result refl h

same_records : (xs ys : List DurableEvent) → valid xs ≡ valid ys → xs ≡ ys
same_records xs ys h = cc h

-- The records that are read from the journal of a trajectory that validates as succeeded have state
-- events into RESETTING, READY, DECIDING and VERIFYING.
pub validated_passes_every_stage :
    (lib : Stdlib) (loads : String → Option DurableEvent) (dump : Dump) (dir : RunDirectory)
    (result : TrajectoryValidationResult) (records : List DurableEvent)
    → validate_trajectory lib loads dump dir ≡ passed result
    → result.terminal_state ≡ some RuntimeState.succeeded
    → read_and_validate_journal lib loads dir.events ≡ valid records
    → (contains (targets records) RuntimeState.resetting ≡ true)
      × (contains (targets records) RuntimeState.ready ≡ true)
      × (contains (targets records) RuntimeState.deciding ≡ true)
      × (contains (targets records) RuntimeState.verifying ≡ true)
validated_passes_every_stage lib loads dump dir result records h s read =
    let t = validate_trajectory-IsTrajectory lib loads dump dir result h in
    rw (same_records records (t.started ∷ t.rest) (sym read ∙ t.read)) (
      succeeded_passes_every_stage (targets (t.started ∷ t.rest)) (record { state = t.state })
        t.path (ended_succeeded result t.state t.ended s))
