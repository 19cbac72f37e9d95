-- ===== src/Schedules.antt =====
-- src/agent_learning_loop/failure_schedules.py and tool_metadata.py: the one injected failure of a
-- run, its validation, and what the three tools allow to be retried.
use agent_learning_loop.Base.{
  ℕ, ℤ, String, Bool, true, false, ◌&&◌, some, List, [], ◌∷◌, Dict, lookup, ◌==◌, Eq, string_eq,
  option_eq, leb, JsonValue, int, str, bool, obj, fields, ℤ, pos, Stdlib, canonical_sha256, ◌≡◌,
  ◌↔◌, arith,
}
use agent_learning_loop.Schemas.{
  ToolName, ErrorCategory, category_eq, category_text, tool_text, list_files, read_text, write_text,
}

pub data InjectionPhase : Type 0 where
  before_execution after_success : InjectionPhase

abbrev pub phase_beq : InjectionPhase → InjectionPhase → Bool
phase_beq before_execution before_execution = true
phase_beq after_success after_success = true
phase_beq _ _ = false

pub phase_beq_iff : (a b : InjectionPhase) → (phase_beq a b ≡ true) ↔ (a ≡ b)
phase_beq_iff a b = ground arith

instance abbrev pub phase_eq : Eq InjectionPhase
phase_eq = record { same = phase_beq; same_iff = phase_beq_iff }

abbrev pub phase_text : InjectionPhase → String
phase_text before_execution = "before_execution"
phase_text after_success = "after_success"

pub data FailureKind : Type 0 where
  transient logical_timeout result_lost : FailureKind

abbrev pub kind_text : FailureKind → String
kind_text transient = "transient"
kind_text logical_timeout = "logical_timeout"
kind_text result_lost = "result_lost"

pub record FailureRule : Type 0 where
  pub target_tool : ToolName
  pub occurrence : ℕ
  pub injection_phase : InjectionPhase
  pub failure_kind : FailureKind
  pub error_category : ErrorCategory
  pub retryable : Bool

abbrev expected_phase : FailureKind → InjectionPhase
expected_phase result_lost = after_success
expected_phase _ = before_execution

abbrev expected_category : FailureKind → ErrorCategory
expected_category logical_timeout = ErrorCategory.timeout
expected_category _ = ErrorCategory.tool_transient

-- the `Field` bound and `kind_matches_public_error`
unfoldable pub accepts_rule : FailureRule → Bool
accepts_rule r =
    leb 1 r.occurrence
    && r.injection_phase == expected_phase r.failure_kind
    && r.error_category == expected_category r.failure_kind
    && r.retryable

pub record FailureSchedule : Type 0 where
  pub schedule_id : String
  pub task_id : String
  pub seed : ℤ
  pub rule : FailureRule
  pub provenance : String

-- `rule.model_dump(mode="json")`
abbrev rule_json : FailureRule → JsonValue
rule_json r = obj (
    fields (
      ("target_tool", str (tool_text r.target_tool))
      ∷ ("occurrence", int (pos r.occurrence))
      ∷ ("injection_phase", str (phase_text r.injection_phase))
      ∷ ("failure_kind", str (kind_text r.failure_kind))
      ∷ ("error_category", str (category_text r.error_category))
      ∷ ("retryable", bool r.retryable)
      ∷ []))

-- `fingerprint_schedule`
unfoldable pub fingerprint_schedule : Stdlib → FailureSchedule → String
unfolding canonical_sha256
fingerprint_schedule lib s = canonical_sha256 lib (
    obj (
      fields (
        ("schema_version", str "1")
        ∷ ("schedule_id", str s.schedule_id)
        ∷ ("task_id", str s.task_id)
        ∷ ("seed", int s.seed)
        ∷ ("rule", rule_json s.rule)
        ∷ ("provenance", str s.provenance)
        ∷ [])))

-- `CANONICAL_SCHEDULE_FINGERPRINTS`
abbrev pub canonical_schedule_fingerprints : Dict String
canonical_schedule_fingerprints =
    (
      "workspace.logical-timeout.v1",
      "4b2ab244685d642c803d3fdb96e8a19d2a91aef78d7a74859c25c4210cce8d74",
    )
    ∷ (
      "workspace.lost-write-result.v1",
      "6720ea76647c9a8ec587852bd18f78919ae3d5ce0baf0d27c5637bf6d333f5ce",
    )
    ∷ (
      "workspace.transient-read.v1",
      "118f5616a9386885dcfaa3d0e94084866532aacb5177c2e76b008e3af10afc8c",
    )
    ∷ []

-- `validate_schedule_for_task`: `false` where it raises `FailureScheduleMismatchError`
unfoldable pub validate_schedule_for_task : Stdlib → FailureSchedule → String → Bool
unfolding fingerprint_schedule lookup
validate_schedule_for_task lib s task_id =
    lookup s.schedule_id canonical_schedule_fingerprints == some (fingerprint_schedule lib s)
    && s.task_id == task_id

-- `TOOL_METADATA[name]`
pub record ToolMetadata : Type 0 where
  pub name : ToolName
  pub side_effecting : Bool
  pub retryable_categories : List ErrorCategory

abbrev pub tool_metadata : ToolName → ToolMetadata
tool_metadata list_files = record {
  name = list_files;
  side_effecting = false;
  retryable_categories = ErrorCategory.tool_transient ∷ ErrorCategory.timeout ∷ [];
}
tool_metadata read_text = record {
  name = read_text;
  side_effecting = false;
  retryable_categories = ErrorCategory.tool_transient ∷ ErrorCategory.timeout ∷ [];
}
tool_metadata write_text = record {
  name = write_text;
  side_effecting = true;
  retryable_categories = ErrorCategory.tool_transient ∷ [];
}
