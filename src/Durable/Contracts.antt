-- ===== src/Durable/Contracts.antt =====
-- durable_schemas.py and checkpoint.py: checkpoints, results, and the digests that bind them.
use agent_learning_loop.Base.{
  ℕ, ℤ, String, Bool, true, false, not, ◌&&◌, ◌||◌, Option, some, is_some, List, [], ◌∷◌, all,
  nat_beq, nat_eq, leb, option_eq, string_eq, bool_eq, int_eq, ◌==◌, ◌!=◌, JsonValue, Stdlib,
  canonical_sha256,
}
use agent_learning_loop.Schemas.{
  ToolName, tool_eq, VerifierResult, RuntimeConfig, mode_text, RuntimeState, state_eq,
  accepts_config, accepts_fingerprint,
}
use agent_learning_loop.Durable.Events.{accepts_run_id}

pub record DurableUsage : Type 0 where
  pub steps : ℕ
  pub tool_calls : ℕ
  pub physical_executions : ℕ
  pub physical_write_executions : ℕ
  pub side_effect_executions : ℕ
  pub duplicate_side_effects : ℕ
  pub retries : ℕ
  pub idempotency_hits : ℕ
  pub backoff_seconds : ℕ
  pub elapsed_seconds : ℕ

pub data CheckpointingMode : Type 0 where
  off on : CheckpointingMode

abbrev pub checkpointing_text : CheckpointingMode → String
checkpointing_text off = "off"
checkpointing_text on = "on"

pub record ExperimentIdentity : Type 0 where
  pub task_id : String
  pub fixture_id : String
  pub fixture_fingerprint : String
  pub config_fingerprint : String
  pub failure_schedule_id : String
  pub failure_schedule_fingerprint : String
  pub interruption_schedule_id : Option String
  pub interruption_schedule_fingerprint : Option String
  pub checkpointing : CheckpointingMode
  pub seed : ℤ

-- the fields and `interruption_identity_is_complete`
unfoldable pub accepts_identity : ExperimentIdentity → Bool
accepts_identity x =
    x.task_id != ""
    && x.fixture_id != ""
    && accepts_fingerprint (some x.fixture_fingerprint)
    && accepts_fingerprint (some x.config_fingerprint)
    && x.failure_schedule_id != ""
    && accepts_fingerprint (some x.failure_schedule_fingerprint)
    && accepts_fingerprint x.interruption_schedule_fingerprint
    && is_some x.interruption_schedule_id == is_some x.interruption_schedule_fingerprint

pub record ToolOccurrence : Type 0 where
  pub tool_name : ToolName
  pub count : ℕ

pub record FailureTrackerState : Type 0 where
  pub occurrences : List ToolOccurrence
  pub injection_count : ℕ

abbrev tools_unique : List ToolOccurrence → Bool
tools_unique [] = true
tools_unique (x ∷ xs) = all (λ y. y.tool_name != x.tool_name) xs && tools_unique xs

-- the fields and `occurrence_tools_are_unique`
unfoldable pub accepts_tracker : FailureTrackerState → Bool
accepts_tracker t =
    all (λ (x : ToolOccurrence). leb 1 x.count) t.occurrences && tools_unique t.occurrences

-- `tool_name` is always "write_text"
pub record IdempotencyEntry : Type 0 where
  pub key : String
  pub request_fingerprint : String
  pub result_path : String
  pub bytes_written : ℕ

abbrev accepts_entry : IdempotencyEntry → Bool
accepts_entry x =
    accepts_fingerprint (some x.key)
    && accepts_fingerprint (some x.request_fingerprint)
    && x.result_path != ""

pub record Checkpoint : Type 0 where
  pub checkpoint_id : String
  pub run_id : String
  pub identity : ExperimentIdentity
  pub runtime_config : RuntimeConfig
  pub resume_step : ℕ
  pub runtime_state : RuntimeState
  pub resume_target : RuntimeState
  pub usage : DurableUsage
  pub failure_tracker : FailureTrackerState
  pub idempotency_entries : List IdempotencyEntry
  pub workspace_digest : String
  pub journal_record_count : ℕ
  pub journal_final_hash : String
  pub segment : ℕ

-- the fields and `checkpoint_is_a_supported_safe_boundary`
unfoldable pub accepts_checkpoint : Checkpoint → Bool
unfolding accepts_identity accepts_config accepts_tracker
accepts_checkpoint c =
    accepts_fingerprint (some c.checkpoint_id)
    && accepts_run_id c.run_id
    && accepts_identity c.identity
    && accepts_config c.runtime_config
    && accepts_tracker c.failure_tracker
    && all accepts_entry c.idempotency_entries
    && accepts_fingerprint (some c.workspace_digest)
    && leb 1 c.journal_record_count
    && accepts_fingerprint (some c.journal_final_hash)
    && c.runtime_state == RuntimeState.observing
    && c.resume_target == RuntimeState.deciding
    && c.resume_step == 2

pub record DurableResultSummary : Type 0 where
  pub run_id : String
  pub task_id : String
  pub terminal_state : RuntimeState
  pub identity : ExperimentIdentity
  pub runtime_config : RuntimeConfig
  pub verifier : VerifierResult
  pub usage : DurableUsage
  pub resumed : Bool
  pub segment_count : ℕ
  pub checkpoint_id : Option String
  pub checkpoint_step : Option ℕ

pub record DurableResult : Type 0 where
  pub run_id : String
  pub task_id : String
  pub terminal_state : RuntimeState
  pub identity : ExperimentIdentity
  pub runtime_config : RuntimeConfig
  pub verifier : VerifierResult
  pub usage : DurableUsage
  pub resumed : Bool
  pub segment_count : ℕ
  pub checkpoint_id : Option String
  pub checkpoint_step : Option ℕ
  pub journal_record_count : ℕ
  pub journal_final_hash : String

-- the fields and `result_identity_is_consistent`; the fields of the nested verdict are taken as they
-- come
unfoldable pub accepts_result : DurableResult → Bool
unfolding accepts_identity accepts_config
accepts_result r =
    accepts_run_id r.run_id
    && r.task_id != ""
    && accepts_identity r.identity
    && accepts_config r.runtime_config
    && leb 1 r.segment_count
    && accepts_fingerprint r.checkpoint_id
    && leb 1 r.journal_record_count
    && accepts_fingerprint (some r.journal_final_hash)
    && r.task_id == r.identity.task_id
    && not (r.resumed && (not (is_some r.checkpoint_id) || r.checkpoint_step != some 2))
    && not (not r.resumed && (is_some r.checkpoint_id || is_some r.checkpoint_step))

-- `DurableResult.summary`
unfoldable pub summary : DurableResult → DurableResultSummary
summary r = record {
  run_id = r.run_id;
  task_id = r.task_id;
  terminal_state = r.terminal_state;
  identity = r.identity;
  runtime_config = r.runtime_config;
  verifier = r.verifier;
  usage = r.usage;
  resumed = r.resumed;
  segment_count = r.segment_count;
  checkpoint_id = r.checkpoint_id;
  checkpoint_step = r.checkpoint_step;
}

-- pydantic's `model_dump(mode="json")`; of a checkpoint without its id
pub record Dump : Type 0 where
  pub config : RuntimeConfig → JsonValue
  pub verifier : VerifierResult → JsonValue
  pub summary : DurableResultSummary → JsonValue
  pub checkpoint : Checkpoint → JsonValue

-- `verifier_summary_digest`
unfoldable pub verifier_summary_digest : Stdlib → Dump → VerifierResult → String
unfolding canonical_sha256
verifier_summary_digest lib dump v = canonical_sha256 lib (dump.verifier v)

-- `durable_result_summary_digest`
unfoldable pub durable_result_summary_digest : Stdlib → Dump → DurableResultSummary → String
unfolding canonical_sha256
durable_result_summary_digest lib dump s = canonical_sha256 lib (dump.summary s)

-- the digest of a configuration
unfoldable pub config_digest : Stdlib → Dump → RuntimeConfig → String
unfolding canonical_sha256
config_digest lib dump c = canonical_sha256 lib (dump.config c)

-- `checkpoint_id`
unfoldable pub digest_checkpoint : Stdlib → Dump → Checkpoint → String
unfolding canonical_sha256
digest_checkpoint lib dump c = canonical_sha256 lib (dump.checkpoint c)

-- `==` of two identities
abbrev pub same_identity : ExperimentIdentity → ExperimentIdentity → Bool
same_identity a b =
    a.task_id == b.task_id
    && a.fixture_id == b.fixture_id
    && a.fixture_fingerprint == b.fixture_fingerprint
    && a.config_fingerprint == b.config_fingerprint
    && a.failure_schedule_id == b.failure_schedule_id
    && a.failure_schedule_fingerprint == b.failure_schedule_fingerprint
    && a.interruption_schedule_id == b.interruption_schedule_id
    && a.interruption_schedule_fingerprint == b.interruption_schedule_fingerprint
    && checkpointing_text a.checkpointing == checkpointing_text b.checkpointing
    && a.seed == b.seed

abbrev same_numbers : List ℕ → List ℕ → Bool
same_numbers [] [] = true
same_numbers (m ∷ ms) (n ∷ ns) = nat_beq m n && same_numbers ms ns
same_numbers _ _ = false

-- `==` of two configurations
abbrev pub same_config : RuntimeConfig → RuntimeConfig → Bool
same_config a b =
    mode_text a.mode == mode_text b.mode
    && a.max_steps == b.max_steps
    && a.max_tool_calls == b.max_tool_calls
    && a.timeout_seconds == b.timeout_seconds
    && a.retry_enabled == b.retry_enabled
    && a.max_attempts == b.max_attempts
    && same_numbers a.retry_backoff_seconds b.retry_backoff_seconds
    && a.idempotency_enabled == b.idempotency_enabled
    && a.schedule_id == b.schedule_id
    && a.schedule_fingerprint == b.schedule_fingerprint
    && a.seed == b.seed
