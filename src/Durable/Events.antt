-- ===== src/Durable/Events.antt =====
-- durable_schemas.py: the events of a durable run, their validation, and what pydantic prints of them.
use Prim.Native.Char.{code}
use Prim.Native.String.{String}
use agent_learning_loop.Base.{
  ℕ, Bool, true, false, ◌&&◌, ◌||◌, Option, none, some, List, [], ◌∷◌, ℤ, pos, Eq, nat_beq, leb,
  contains, ◌==◌, ◌!=◌, string_eq, JsonValue, null, str, int, float, bool, obj, fields, ◌≡◌, ◌↔◌,
  arith, if◌then◌else◌,
}
use agent_learning_loop.Schemas.{ToolName, tool_text, accepts_fingerprint}

pub data DurableEventKind : Type 0 where
  run_started runtime_state_changed attempt_started attempt_completed failure_injected
        retry_scheduled :
      DurableEventKind
  idempotency_hit checkpoint_committed interruption_injected run_resumed verification_finished
        run_finished :
      DurableEventKind

abbrev kind_tag : DurableEventKind → ℕ
kind_tag DurableEventKind.run_started = 0
kind_tag DurableEventKind.runtime_state_changed = 1
kind_tag DurableEventKind.attempt_started = 2
kind_tag DurableEventKind.attempt_completed = 3
kind_tag DurableEventKind.failure_injected = 4
kind_tag DurableEventKind.retry_scheduled = 5
kind_tag DurableEventKind.idempotency_hit = 6
kind_tag DurableEventKind.checkpoint_committed = 7
kind_tag DurableEventKind.interruption_injected = 8
kind_tag DurableEventKind.run_resumed = 9
kind_tag DurableEventKind.verification_finished = 10
kind_tag DurableEventKind.run_finished = 11

abbrev pub event_kind_beq : DurableEventKind → DurableEventKind → Bool
event_kind_beq a b = nat_beq (kind_tag a) (kind_tag b)

pub event_kind_beq_iff : (a b : DurableEventKind) → (event_kind_beq a b ≡ true) ↔ (a ≡ b)
event_kind_beq_iff a b = ground arith

instance abbrev pub event_kind_eq : Eq DurableEventKind
event_kind_eq = record { same = event_kind_beq; same_iff = event_kind_beq_iff }

abbrev pub event_kind_text : DurableEventKind → String
event_kind_text DurableEventKind.run_started = "run_started"
event_kind_text DurableEventKind.runtime_state_changed = "runtime_state_changed"
event_kind_text DurableEventKind.attempt_started = "attempt_started"
event_kind_text DurableEventKind.attempt_completed = "attempt_completed"
event_kind_text DurableEventKind.failure_injected = "failure_injected"
event_kind_text DurableEventKind.retry_scheduled = "retry_scheduled"
event_kind_text DurableEventKind.idempotency_hit = "idempotency_hit"
event_kind_text DurableEventKind.checkpoint_committed = "checkpoint_committed"
event_kind_text DurableEventKind.interruption_injected = "interruption_injected"
event_kind_text DurableEventKind.run_resumed = "run_resumed"
event_kind_text DurableEventKind.verification_finished = "verification_finished"
event_kind_text DurableEventKind.run_finished = "run_finished"

pub record DurableEventPayload : Type 0 where
  pub mode : Option String
  pub checkpointing : Option String
  pub fixture_id : Option String
  pub fixture_fingerprint : Option String
  pub config_fingerprint : Option String
  pub failure_schedule_id : Option String
  pub failure_schedule_fingerprint : Option String
  pub interruption_schedule_id : Option String
  pub interruption_schedule_fingerprint : Option String
  pub seed : Option ℤ
  pub from_state : Option String
  pub to_state : Option String
  pub tool_name : Option ToolName
  pub occurrence : Option ℕ
  pub status : Option String
  pub failure_kind : Option String
  pub error_category : Option String
  pub retryable : Option Bool
  pub failed_attempt : Option ℕ
  pub next_attempt : Option ℕ
  pub backoff_seconds : Option ℕ
  pub checkpoint_id : Option String
  pub checkpoint_step : Option ℕ
  pub checkpoint_record_count : Option ℕ
  pub checkpoint_final_hash : Option String
  pub boundary : Option String
  pub resume_target : Option String
  pub verifier_passed : Option Bool
  pub verifier_summary_digest : Option String
  pub result_summary_digest : Option String
  pub terminal_state : Option String
  pub reason_code : Option String

pub record DurableEvent : Type 0 where
  pub run_id : String
  pub task_id : String
  pub sequence : ℕ
  pub step_index : ℕ
  pub attempt : ℕ
  pub segment : ℕ
  pub event_kind : DurableEventKind
  pub payload : DurableEventPayload
  pub previous_record_hash : String
  pub record_hash : String

-- a literal type, or None
abbrev accepts_literal : List String → Option String → Bool
accepts_literal texts none = true
accepts_literal texts (some s) = contains texts s

abbrev at_least_one : Option ℕ → Bool
at_least_one none = true
at_least_one (some n) = leb 1 n

abbrev is_digit : ℕ → Bool
is_digit c = leb b'0' c && leb c b'9'

abbrev is_lower : ℕ → Bool
is_lower c = leb b'a' c && leb c b'z'

-- the characters of the pattern `^[a-z0-9_]+$`
abbrev is_code_text : String → Bool
is_code_text String.[] = true
is_code_text (String.◌∷◌ c s) =
    (is_digit (code c) || is_lower (code c) || nat_beq (code c) b'_') && is_code_text s

abbrev accepts_reason : Option String → Bool
accepts_reason none = true
accepts_reason (some s) = s != "" && is_code_text s

-- `DurableEventPayload`, its bounds and patterns
unfoldable pub accepts_payload : DurableEventPayload → Bool
accepts_payload p =
    accepts_literal ("safeguarded" ∷ []) p.mode
    && accepts_literal ("on" ∷ "off" ∷ []) p.checkpointing
    && accepts_fingerprint p.fixture_fingerprint
    && accepts_fingerprint p.config_fingerprint
    && accepts_fingerprint p.failure_schedule_fingerprint
    && accepts_fingerprint p.interruption_schedule_fingerprint
    && at_least_one p.occurrence
    && accepts_literal ("ok" ∷ "error" ∷ []) p.status
    && accepts_literal ("result_lost" ∷ []) p.failure_kind
    && accepts_literal ("tool_transient" ∷ []) p.error_category
    && at_least_one p.failed_attempt
    && at_least_one p.next_attempt
    && accepts_fingerprint p.checkpoint_id
    && at_least_one p.checkpoint_record_count
    && accepts_fingerprint p.checkpoint_final_hash
    && accepts_literal ("post_observation" ∷ []) p.boundary
    && accepts_fingerprint p.verifier_summary_digest
    && accepts_fingerprint p.result_summary_digest
    && accepts_reason p.reason_code

-- `^[a-z0-9]+(?:-[a-z0-9]+)*$`: after a hyphen or at the start a letter or digit is wanted
abbrev is_hyphenated : Bool → String → Bool
is_hyphenated wanted String.[] = if wanted then false else true
is_hyphenated wanted (String.◌∷◌ c s) =
    let hyphen = nat_beq (code c) b'-' in
    let rest = is_hyphenated hyphen s in
    if hyphen
    then (if wanted then false else rest)
    else (is_digit (code c) || is_lower (code c)) && rest

abbrev pub accepts_run_id : String → Bool
accepts_run_id s = is_hyphenated true s

-- the fields of `DurableEvent`
unfoldable pub accepts_event : DurableEvent → Bool
unfolding accepts_payload
accepts_event e =
    accepts_run_id e.run_id
    && e.task_id != ""
    && accepts_payload e.payload
    && (e.previous_record_hash == "" || accepts_fingerprint (some e.previous_record_hash))
    && accepts_fingerprint (some e.record_hash)

abbrev or_null {ℓ} : {A : Type ℓ} → (A → JsonValue) → Option A → JsonValue
or_null f none = null
or_null f (some a) = f a

abbrev pub text_or_null : Option String → JsonValue
text_or_null s = or_null str s

abbrev pub count_or_null : Option ℕ → JsonValue
count_or_null n = or_null (λ k. int (pos k)) n

-- `payload.model_dump(mode="json")`
abbrev pub payload_json : DurableEventPayload → JsonValue
payload_json p = obj (
    fields (
      ("mode", text_or_null p.mode)
      ∷ ("checkpointing", text_or_null p.checkpointing)
      ∷ ("fixture_id", text_or_null p.fixture_id)
      ∷ ("fixture_fingerprint", text_or_null p.fixture_fingerprint)
      ∷ ("config_fingerprint", text_or_null p.config_fingerprint)
      ∷ ("failure_schedule_id", text_or_null p.failure_schedule_id)
      ∷ ("failure_schedule_fingerprint", text_or_null p.failure_schedule_fingerprint)
      ∷ ("interruption_schedule_id", text_or_null p.interruption_schedule_id)
      ∷ ("interruption_schedule_fingerprint", text_or_null p.interruption_schedule_fingerprint)
      ∷ ("seed", or_null int p.seed)
      ∷ ("from_state", text_or_null p.from_state)
      ∷ ("to_state", text_or_null p.to_state)
      ∷ ("tool_name", or_null (λ t. str (tool_text t)) p.tool_name)
      ∷ ("occurrence", count_or_null p.occurrence)
      ∷ ("status", text_or_null p.status)
      ∷ ("failure_kind", text_or_null p.failure_kind)
      ∷ ("error_category", text_or_null p.error_category)
      ∷ ("retryable", or_null bool p.retryable)
      ∷ ("failed_attempt", count_or_null p.failed_attempt)
      ∷ ("next_attempt", count_or_null p.next_attempt)
      ∷ ("backoff_seconds", or_null (λ k. float (pos k)) p.backoff_seconds)
      ∷ ("checkpoint_id", text_or_null p.checkpoint_id)
      ∷ ("checkpoint_step", count_or_null p.checkpoint_step)
      ∷ ("checkpoint_record_count", count_or_null p.checkpoint_record_count)
      ∷ ("checkpoint_final_hash", text_or_null p.checkpoint_final_hash)
      ∷ ("boundary", text_or_null p.boundary)
      ∷ ("resume_target", text_or_null p.resume_target)
      ∷ ("verifier_passed", or_null bool p.verifier_passed)
      ∷ ("verifier_summary_digest", text_or_null p.verifier_summary_digest)
      ∷ ("result_summary_digest", text_or_null p.result_summary_digest)
      ∷ ("terminal_state", text_or_null p.terminal_state)
      ∷ ("reason_code", text_or_null p.reason_code)
      ∷ []))
