-- ===== src/DataOps/Contracts.antt =====
-- dataops_schemas.py: the records of the DataOps contract.
use agent_learning_loop.Base.{ℕ, String, Bool, Option, List, Dict, JsonValue}
use agent_learning_loop.DataOps.Names.{
  DataOpsToolName, TransactionState, ColumnType, DataOpsDecision, TerminalOutcome, DataOpsStatus,
}

abbrev pub Row : Type 0
Row = Dict JsonValue

pub record DataOpsTableScope : Type 0 where
  pub table : String
  pub readable_columns : List String
  pub mutable_columns : List String
  pub predicate_columns : List String
  pub max_mutated_rows : ℕ
  pub allow_insert : Bool

pub record DataOpsTask : Type 0 where
  pub task_id : String
  pub instruction : String
  pub allowed_tools : List DataOpsToolName
  pub fixture_id : String
  pub scope : List DataOpsTableScope
  pub public_constraints : List String

pub record DataOpsColumn : Type 0 where
  pub name : String
  pub column_type : ColumnType
  pub primary_key : Bool
  pub not_null : Bool
  pub unique : Bool
  pub references_table : Option String
  pub references_column : Option String

pub record DataOpsTableFixture : Type 0 where
  pub name : String
  pub columns : List DataOpsColumn
  pub rows : List Row

pub record DataOpsProtectedRows : Type 0 where
  pub table : String
  pub where_row : Row

pub record DataOpsExpectedState : Type 0 where
  -- `terminal_state == "committed"`
  pub commits : Bool
  pub tables : Dict (List Row)
  pub exact_attempted_row_count : ℕ
  pub exact_committed_row_count : ℕ
  pub exact_attempted_by_table : Dict ℕ
  pub exact_committed_by_table : Dict ℕ
  pub exact_attempted_by_operation : Dict ℕ
  pub exact_committed_by_operation : Dict ℕ
  pub protected_rows : List DataOpsProtectedRows

pub record DataOpsPrivateFixture : Type 0 where
  pub tables : List DataOpsTableFixture
  pub expected : DataOpsExpectedState

pub record DataOpsTaskFixture : Type 0 where
  pub task : DataOpsTask
  pub private : DataOpsPrivateFixture

pub record DataOpsAction : Type 0 where
  pub tool_name : DataOpsToolName
  pub arguments : Dict JsonValue

pub record DataOpsToolResult : Type 0 where
  pub status : DataOpsStatus
  pub payload : Dict JsonValue
  pub error_category : Option String
  pub idempotency_hit : Bool

pub record DataOpsSnapshot : Type 0 where
  pub terminal_state : TransactionState
  pub transaction_id : Option String
  pub tables : Dict (List Row)
  pub database_digest : String
  pub attempted_row_count : ℕ
  pub committed_row_count : ℕ

pub record DataOpsAuditRecord : Type 0 where
  pub sequence : ℕ
  pub run_id : String
  pub task_id : String
  pub tool_name : DataOpsToolName
  pub decision : DataOpsDecision
  pub error_category : Option String
  pub transaction_id : Option String
  pub operation_id : Option String
  pub table : Option String
  pub columns : List String
  pub action_fingerprint : String
  pub matched_row_count : ℕ
  pub changed_row_count : ℕ
  pub primary_key_digest : Option String
  pub before_digest : String
  pub after_digest : String
  pub validation_succeeded : Bool
  pub cardinality_checked_before_write : Bool
  pub idempotency_hit : Bool
  pub terminal_outcome : Option TerminalOutcome
