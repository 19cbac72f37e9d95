-- ===== src/Durable/Validation.antt =====
-- event_replay.py: `_validate_records` and its helpers.
use agent_learning_loop.Base.{
  ℕ, ◌+◌, ◌-◌, int_eq, String, Bool, not, ◌&&◌, ◌||◌, Option, none, some, is_some, List, length,
  filterb, nat_eq, ltb, option_eq, string_eq, bool_eq, ◌==◌, ◌!=◌, Stdlib,
}
use agent_learning_loop.Schemas.{RuntimeState, state_eq}
use agent_learning_loop.Durable.Events.{DurableEventKind, event_kind_eq, DurableEvent}
use agent_learning_loop.Durable.Contracts.{
  Checkpoint, checkpointing_text, DurableResult, accepts_checkpoint, Dump, config_digest,
  digest_checkpoint, ExperimentIdentity,
}
use agent_learning_loop.Durable.Trajectory.{
  TrajectoryStatus, TrajectoryValidationResult, Trial, refused, passed, refuse_if, absent, unloaded,
  loaded, RunDirectory, is_only, at,
}

abbrev pub is_kind : DurableEventKind → DurableEvent → Bool
is_kind kind r = r.event_kind == kind

-- the identity of an experiment is the one that the first event tells
abbrev identity_matches : ExperimentIdentity → DurableEvent → Bool
identity_matches x started =
    x.task_id == started.task_id
    && started.payload.fixture_id == some x.fixture_id
    && started.payload.fixture_fingerprint == some x.fixture_fingerprint
    && started.payload.config_fingerprint == some x.config_fingerprint
    && started.payload.failure_schedule_id == some x.failure_schedule_id
    && started.payload.failure_schedule_fingerprint == some x.failure_schedule_fingerprint
    && x.interruption_schedule_id == started.payload.interruption_schedule_id
    && x.interruption_schedule_fingerprint == started.payload.interruption_schedule_fingerprint
    && started.payload.seed == some x.seed
    && started.payload.checkpointing == some (checkpointing_text x.checkpointing)

-- the checkpoint agrees with the first event, the last event of its prefix and its commit
abbrev checkpoint_matches :
    Stdlib → Dump → Checkpoint → DurableEvent → DurableEvent → DurableEvent → Bool
checkpoint_matches lib dump c started prefix event =
    c.run_id == started.run_id
    && identity_matches c.identity started
    && config_digest lib dump c.runtime_config == c.identity.config_fingerprint
    && c.journal_final_hash == prefix.record_hash
    && event.payload.checkpoint_id == some c.checkpoint_id
    && event.payload.checkpoint_record_count == some c.journal_record_count
    && event.payload.checkpoint_final_hash == some c.journal_final_hash
    && event.payload.checkpoint_step == some c.resume_step
    && event.sequence == c.journal_record_count

abbrev check_workspace : Option String → Checkpoint → Trial (Option Checkpoint)
check_workspace none c = refused "Workspace digest could not be computed"
check_workspace (some digest) c =
    refuse_if (digest != c.workspace_digest) "checkpoint does not match journal or Workspace"
      (passed (some c))

-- `read_checkpoint` and the rest of `_validate_checkpoint_if_present`
abbrev check_loaded :
    Stdlib
    → Dump
    → RunDirectory
    → List DurableEvent
    → List DurableEvent
    → Checkpoint
    → Trial (Option Checkpoint)
check_loaded lib dump dir records committed c =
    refuse_if (not (accepts_checkpoint c) || c.checkpoint_id != digest_checkpoint lib dump c)
      "checkpoint failed strict validation"
      (refuse_if (length committed != 1) "checkpoint must have one commit record" (
        refuse_if (ltb (length records) c.journal_record_count)
          "checkpoint journal prefix is out of range"
          (refuse_if
            (not (
              at records 0 (λ started. at records (c.journal_record_count - 1) (λ prefix.
                at committed 0 (λ event. checkpoint_matches lib dump c started prefix event)))))
            "checkpoint does not match journal or Workspace" (check_workspace dir.workspace c))))

-- `_validate_checkpoint_if_present`
unfoldable pub validate_checkpoint :
    Stdlib → Dump → RunDirectory → List DurableEvent → Trial (Option Checkpoint)
unfolding accepts_checkpoint digest_checkpoint config_digest
validate_checkpoint lib dump dir records =
    let committed = filterb (is_kind DurableEventKind.checkpoint_committed) records in
    elim dir.checkpoint [
      | absent ↦
          refuse_if (ltb 0 (length committed)) "journal claims a missing checkpoint" (passed none)
      | unloaded ↦ refused "checkpoint failed strict validation"
      | loaded c ↦ check_loaded lib dump dir records committed c
    ]

-- `_validate_checkpoint_commit_order`
unfoldable pub validate_commit_order :
    List DurableEvent → ℕ → List ℕ → Option Checkpoint → Trial (Unit {0})
validate_commit_order records interruption commits none =
    refuse_if (ltb 0 (length commits)) "checkpoint-off trajectory cannot commit" (passed tt)
validate_commit_order records interruption commits (some c) =
    refuse_if (not (is_only commits 1 interruption))
      "checkpoint commit must immediately precede interruption"
      (refuse_if
        (not (
          at records (interruption - 1) (λ r. r.segment == 0)
          && at records interruption (λ r. r.segment == 0)))
        "checkpoint and interruption belong to segment zero" (passed tt))

abbrev checkpoint_named : DurableEvent → Option Checkpoint → Bool
checkpoint_named r none = not (is_some r.payload.checkpoint_id)
checkpoint_named r (some c) = r.payload.checkpoint_id == some c.checkpoint_id

-- `_validate_interruption`
unfoldable pub validate_interruption :
    DurableEvent → Option Checkpoint → DurableEvent → Trial (Unit {0})
validate_interruption r c started =
    refuse_if (r.step_index != 2 || r.payload.boundary != some "post_observation")
      "interruption is not the fixed safe boundary"
      (refuse_if
        (r.payload.interruption_schedule_id != started.payload.interruption_schedule_id
          || r.payload.interruption_schedule_fingerprint
            != started.payload.interruption_schedule_fingerprint)
        "interruption identity changed"
        (refuse_if
          (r.payload.checkpointing != started.payload.checkpointing
            || (r.payload.checkpointing == some "on") != is_some c
            || not (checkpoint_named r c))
          "interruption checkpoint mode is inconsistent" (passed tt)))

-- `_result_identity_matches_start`
unfoldable pub result_identity_matches_start : Stdlib → Dump → DurableResult → DurableEvent → Bool
unfolding config_digest
result_identity_matches_start lib dump result started =
    identity_matches result.identity started
    && result.identity.config_fingerprint == config_digest lib dump result.runtime_config

abbrev id_of : Option Checkpoint → Option String
id_of none = none
id_of (some c) = some c.checkpoint_id

-- `_summary`
unfoldable pub summarise :
    TrajectoryStatus
    → DurableEvent
    → DurableEvent
    → ℕ
    → Option Checkpoint
    → Option RuntimeState
    → Option Bool
    → TrajectoryValidationResult
summarise status started last count checkpoint terminal verdict = record {
  status = status;
  run_id = started.run_id;
  task_id = started.task_id;
  record_count = count;
  final_hash = last.record_hash;
  segment_count = last.segment + 1;
  terminal_state = terminal;
  verifier_passed = verdict;
  checkpoint_id = id_of checkpoint;
}
