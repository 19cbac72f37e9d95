-- ===== src/Schemas/Errors.antt =====
-- runtime_schemas.py: error categories and phases, error records, and the public usage counters.
use agent_learning_loop.Base.{ℕ, String, Bool, true, Eq, ◌≡◌, ◌↔◌, arith, Option, nat_beq}
use agent_learning_loop.Schemas.Tools.{ToolName}

pub data ErrorCategory : Type 0 where
  schema_validation policy_rejection tool_transient tool_permanent environment_error timeout :
      ErrorCategory
  budget_exhausted idempotency_conflict internal_error : ErrorCategory

abbrev category_tag : ErrorCategory → ℕ
category_tag schema_validation = 0
category_tag policy_rejection = 1
category_tag tool_transient = 2
category_tag tool_permanent = 3
category_tag environment_error = 4
category_tag timeout = 5
category_tag budget_exhausted = 6
category_tag idempotency_conflict = 7
category_tag internal_error = 8

abbrev pub category_beq : ErrorCategory → ErrorCategory → Bool
category_beq a b = nat_beq (category_tag a) (category_tag b)

pub category_beq_iff : (a b : ErrorCategory) → (category_beq a b ≡ true) ↔ (a ≡ b)
category_beq_iff a b = ground arith

instance abbrev pub category_eq : Eq ErrorCategory
category_eq = record { same = category_beq; same_iff = category_beq_iff }

-- `ErrorCategory.value`
abbrev pub category_text : ErrorCategory → String
category_text schema_validation = "schema_validation"
category_text policy_rejection = "policy_rejection"
category_text tool_transient = "tool_transient"
category_text tool_permanent = "tool_permanent"
category_text environment_error = "environment_error"
category_text timeout = "timeout"
category_text budget_exhausted = "budget_exhausted"
category_text idempotency_conflict = "idempotency_conflict"
category_text internal_error = "internal_error"

pub data ErrorPhase : Type 0 where
  resetting deciding validating_action executing_tool observing verifying internal : ErrorPhase

pub record ErrorRecord : Type 0 where
  pub category : ErrorCategory
  pub phase : ErrorPhase
  pub retryable : Bool
  pub step_index : ℕ
  pub attempt : ℕ
  pub tool_name : Option ToolName
  pub detail : String

pub record BudgetUsage : Type 0 where
  pub steps : ℕ
  pub tool_calls : ℕ
  pub physical_executions : ℕ
  pub side_effect_executions : ℕ
  pub duplicate_side_effects : ℕ
  pub retries : ℕ
  pub idempotency_hits : ℕ
  pub backoff_seconds : ℕ
  pub elapsed_seconds : ℕ
