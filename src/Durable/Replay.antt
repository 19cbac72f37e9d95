-- ===== src/Durable/Replay.antt =====
-- event_replay.py: `_validate_records` and `validate_trajectory`.
use agent_learning_loop.Base.{
  ℕ, ◌+◌, ◌-◌, String, Bool, true, false, not, ◌&&◌, ◌||◌, Option, none, some, is_some, List, [],
  ◌∷◌, length, all, count_if, take, drop, get_elem?, nat_eq, ltb, option_eq, string_eq, bool_eq,
  ◌==◌, ◌!=◌, Stdlib, if◌then◌else◌,
}
use agent_learning_loop.Schemas.{RuntimeState, state_eq, state_text, is_terminal}
use agent_learning_loop.Durable.Events.{DurableEventKind, event_kind_eq, DurableEvent}
use agent_learning_loop.Durable.Journal.{Validated, invalid, valid, read_and_validate_journal}
use agent_learning_loop.Durable.Contracts.{
  Checkpoint, DurableResult, accepts_result, summary, Dump, verifier_summary_digest,
  durable_result_summary_digest, same_identity, same_config,
}
use agent_learning_loop.Durable.Trajectory.{
  valid_partial, valid_completed, TrajectoryValidationResult, Trial, refused, passed, and_then,
  refuse_if, ModelFile, absent, loaded, RunDirectory, walk, indexes, is_only, at,
}
use agent_learning_loop.Durable.Validation.{
  is_kind, validate_checkpoint, validate_commit_order, validate_interruption,
  result_identity_matches_start, summarise,
}

-- `records[-1]`
abbrev pub last_of : DurableEvent → List DurableEvent → DurableEvent
last_of r [] = r
last_of r (s ∷ rs) = last_of s rs

abbrev exists_file : {A : Type 0} → ModelFile A → Bool
exists_file absent = false
exists_file _ = true

abbrev in_segment : ℕ → List DurableEvent → Bool
in_segment n rs = all (λ r. r.segment == n) rs

-- a trajectory with no `run_finished`
abbrev pub validate_partial :
    RunDirectory
    → DurableEvent
    → List DurableEvent
    → RuntimeState
    → Option Checkpoint
    → Trial TrajectoryValidationResult
validate_partial dir started rest state checkpoint =
    let records = started ∷ rest in
    let interruptions = indexes DurableEventKind.interruption_injected records in
    refuse_if (exists_file dir.result) "a partial trajectory cannot have a result" (
      refuse_if (not (is_only interruptions 1 (length records)))
        "partial trajectory must end at one interruption"
        (refuse_if
          (ltb 0 (length (indexes DurableEventKind.run_resumed records))
            || state != RuntimeState.observing)
          "partial trajectory cannot claim resume or terminal state"
          (and_then (validate_interruption (last_of started rest) checkpoint started) (λ _.
            and_then
              (validate_commit_order records (length records - 1)
                (indexes DurableEventKind.checkpoint_committed records) checkpoint)
              (λ _.
                refuse_if (not (in_segment 0 records))
                  "partial trajectory must stay in segment zero"
                  (passed (
                    summarise valid_partial started (last_of started rest) (length records)
                      checkpoint none none)))))))

-- the segments of a resumed trajectory, and what its resume event names
abbrev resumed_properly : List DurableEvent → ℕ → ℕ → Checkpoint → Bool
resumed_properly records interruption resume c =
    at records resume (λ r.
      r.segment == 1
      && r.step_index == c.resume_step
      && r.payload.checkpoint_id == some c.checkpoint_id
      && r.payload.checkpoint_step == some c.resume_step
      && r.payload.resume_target == some (state_text c.resume_target))
    && in_segment 0 (take (interruption + 1) records)
    && in_segment 1 (drop resume records)

-- `_validate_interruption` of `records[index]`
abbrev validate_interruption_of :
    Option DurableEvent → Option Checkpoint → DurableEvent → Trial (Unit {0})
validate_interruption_of none checkpoint started = refused "list index out of range"
validate_interruption_of (some r) checkpoint started = validate_interruption r checkpoint started

abbrev validate_checkpointed :
    DurableEvent → List DurableEvent → ℕ → ℕ → Option Checkpoint → Trial (Unit {0})
validate_checkpointed started rest interruption resume none =
    refused "resumed trajectory needs a committed checkpoint"
validate_checkpointed started rest interruption resume (some c) =
    let records = started ∷ rest in
    and_then (validate_interruption_of (get_elem? records interruption) (some c) started) (λ _.
      and_then
        (validate_commit_order records interruption
          (indexes DurableEventKind.checkpoint_committed records) (some c))
        (λ _.
          refuse_if (not (resumed_properly records interruption resume c))
            "resumed trajectory has invalid segment semantics" (passed tt)))

-- whether a completed trajectory was interrupted and resumed, or was not
abbrev pub validate_segments :
    DurableEvent → List DurableEvent → List ℕ → List ℕ → Option Checkpoint → Trial (Unit {0})
validate_segments started rest [] resumes checkpoint =
    refuse_if
      (ltb 0 (length resumes)
        || is_some checkpoint
        || ltb 0 (length (indexes DurableEventKind.checkpoint_committed (started ∷ rest)))
        || started.payload.checkpointing != some "off"
        || is_some started.payload.interruption_schedule_id
        || is_some started.payload.interruption_schedule_fingerprint
        || not (in_segment 0 (started ∷ rest)))
      "uninterrupted trajectory cannot claim interruption state" (passed tt)
validate_segments started rest (i ∷ []) (k ∷ []) checkpoint =
    refuse_if (k != i + 1) "resume must immediately follow interruption"
      (validate_checkpointed started rest i k checkpoint)
validate_segments started rest _ _ checkpoint =
    refused "resumed trajectory needs one interruption and resume"

-- the last three events agree with the state and with each other
abbrev ends_consistently : DurableEvent → DurableEvent → DurableEvent → RuntimeState → Bool
ends_consistently verification transition last state =
    transition.event_kind == DurableEventKind.runtime_state_changed
    && transition.payload.to_state == some (state_text state)
    && last.payload.terminal_state == some (state_text state)
    && verification.payload.verifier_passed == last.payload.verifier_passed
    && is_some verification.payload.verifier_summary_digest
    && verification.payload.verifier_summary_digest == last.payload.verifier_summary_digest
    && is_some last.payload.result_summary_digest

module _ (lib : Stdlib) (dump : Dump) (dir : RunDirectory) (started : DurableEvent)
    (rest : List DurableEvent) (state : RuntimeState) (checkpoint : Option Checkpoint) where
  abbrev pub records : List DurableEvent
  records = started ∷ rest

  abbrev pub last : DurableEvent
  last = last_of started rest

  -- the result agrees with the journal
  abbrev result_matches : DurableResult → DurableEvent → Bool
  result_matches result verification =
      result.run_id == last.run_id
      && result.task_id == last.task_id
      && result.terminal_state == state
      && result.journal_record_count == length records
      && result.journal_final_hash == last.record_hash
      && result.segment_count == last.segment + 1
      && result.resumed == ltb 0 (length (indexes DurableEventKind.run_resumed records))
      && last.payload.verifier_passed == some result.verifier.passed
      && result_identity_matches_start lib dump result started
      && verification.payload.verifier_summary_digest
        == some (verifier_summary_digest lib dump result.verifier)
      && last.payload.result_summary_digest
        == some (durable_result_summary_digest lib dump (summary result))

  abbrev checkpoint_agrees : DurableResult → Option Checkpoint → Bool
  checkpoint_agrees result none = true
  checkpoint_agrees result (some c) =
      result.checkpoint_id == some c.checkpoint_id
      && same_identity result.identity c.identity
      && same_config result.runtime_config c.runtime_config

  abbrev pub validate_result : DurableResult → Trial TrajectoryValidationResult
  validate_result result =
      refuse_if (not (accepts_result result)) "completed trajectory result is invalid" (
        refuse_if (not (at records (length records - 3) (result_matches result)))
          "result does not match the completed journal"
          (refuse_if (not (checkpoint_agrees result checkpoint))
            "result checkpoint identity changed"
            (passed (
              summarise valid_completed started last (length records) checkpoint (some state)
                (some result.verifier.passed)))))

  abbrev pub validate_file : ModelFile DurableResult → Trial TrajectoryValidationResult
  validate_file (loaded result) = validate_result result
  validate_file _ = refused "completed trajectory result is invalid"

  -- a trajectory with a `run_finished`
  abbrev pub validate_completed : Trial TrajectoryValidationResult
  validate_completed =
      refuse_if
        (not (is_only (indexes DurableEventKind.run_finished records) 1 (length records))
          || not (is_terminal state))
        "completed trajectory must end once in a terminal state"
        (and_then
          (validate_segments started rest (indexes DurableEventKind.interruption_injected records)
            (indexes DurableEventKind.run_resumed records) checkpoint)
          (λ _.
            refuse_if
              (not (
                is_only (indexes DurableEventKind.verification_finished records) 3
                  (length records)))
              "completed trajectory needs one terminal verification"
              (refuse_if
                (not (
                  at records (length records - 3) (λ verification.
                    at records (length records - 2)
                      (λ transition. ends_consistently verification transition last state))))
                "terminal events are not internally consistent" (validate_file dir.result))))

  abbrev pub validate_ended : Trial TrajectoryValidationResult
  validate_ended =
      if ltb 0 (length (indexes DurableEventKind.run_finished records))
      then validate_completed
      else validate_partial dir started rest state checkpoint

-- `_validate_records`
unfoldable pub validate_records :
    Stdlib → Dump → RunDirectory → List DurableEvent → Trial TrajectoryValidationResult
unfolding walk validate_checkpoint validate_commit_order validate_interruption summarise
    accepts_result result_identity_matches_start
validate_records lib dump dir [] = refused "trajectory must begin with run_started"
validate_records lib dump dir (started ∷ rest) =
    refuse_if (started.event_kind != DurableEventKind.run_started)
      "trajectory must begin with run_started"
      (refuse_if (count_if (is_kind DurableEventKind.run_started) (started ∷ rest) != 1)
        "trajectory must contain one run_started record"
        (and_then (walk RuntimeState.created (started ∷ rest)) (λ state.
          and_then (validate_checkpoint lib dump dir (started ∷ rest))
            (λ checkpoint. validate_ended lib dump dir started rest state checkpoint))))

abbrev pub of_journal : Stdlib → Dump → RunDirectory → Validated → Trial TrajectoryValidationResult
of_journal lib dump dir (invalid message) = refused "trajectory failed strict M3A validation"
of_journal lib dump dir (valid records) = validate_records lib dump dir records

-- `validate_trajectory`
unfoldable pub validate_trajectory :
    Stdlib → (String → Option DurableEvent) → Dump → RunDirectory → Trial TrajectoryValidationResult
unfolding read_and_validate_journal
validate_trajectory lib loads dump dir =
    of_journal lib dump dir (read_and_validate_journal lib loads dir.events)
