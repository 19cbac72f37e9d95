-- ===== src/DataOps/Names.antt =====
-- dataops_schemas.py: the names of tools and states.
use agent_learning_loop.Base.{ℕ, Bool, true, nat_beq, Eq, String, ◌≡◌, ◌↔◌, arith}

pub data DataOpsToolName : Type 0 where
  describe_table query_rows begin_transaction update_rows : DataOpsToolName
  insert_row validate_constraints commit_transaction rollback_transaction : DataOpsToolName

abbrev tool_tag : DataOpsToolName → ℕ
tool_tag DataOpsToolName.describe_table = 0
tool_tag DataOpsToolName.query_rows = 1
tool_tag DataOpsToolName.begin_transaction = 2
tool_tag DataOpsToolName.update_rows = 3
tool_tag DataOpsToolName.insert_row = 4
tool_tag DataOpsToolName.validate_constraints = 5
tool_tag DataOpsToolName.commit_transaction = 6
tool_tag DataOpsToolName.rollback_transaction = 7

abbrev pub dataops_tool_beq : DataOpsToolName → DataOpsToolName → Bool
dataops_tool_beq a b = nat_beq (tool_tag a) (tool_tag b)

pub dataops_tool_beq_iff : (a b : DataOpsToolName) → (dataops_tool_beq a b ≡ true) ↔ (a ≡ b)
dataops_tool_beq_iff a b = ground arith

instance abbrev pub dataops_tool_eq : Eq DataOpsToolName
dataops_tool_eq = record { same = dataops_tool_beq; same_iff = dataops_tool_beq_iff }

abbrev pub dataops_tool_text : DataOpsToolName → String
dataops_tool_text DataOpsToolName.describe_table = "describe_table"
dataops_tool_text DataOpsToolName.query_rows = "query_rows"
dataops_tool_text DataOpsToolName.begin_transaction = "begin_transaction"
dataops_tool_text DataOpsToolName.update_rows = "update_rows"
dataops_tool_text DataOpsToolName.insert_row = "insert_row"
dataops_tool_text DataOpsToolName.validate_constraints = "validate_constraints"
dataops_tool_text DataOpsToolName.commit_transaction = "commit_transaction"
dataops_tool_text DataOpsToolName.rollback_transaction = "rollback_transaction"

pub data TransactionState : Type 0 where
  idle active validated committed rolled_back : TransactionState

abbrev transaction_tag : TransactionState → ℕ
transaction_tag TransactionState.idle = 0
transaction_tag TransactionState.active = 1
transaction_tag TransactionState.validated = 2
transaction_tag TransactionState.committed = 3
transaction_tag TransactionState.rolled_back = 4

abbrev pub transaction_beq : TransactionState → TransactionState → Bool
transaction_beq a b = nat_beq (transaction_tag a) (transaction_tag b)

pub transaction_beq_iff : (a b : TransactionState) → (transaction_beq a b ≡ true) ↔ (a ≡ b)
transaction_beq_iff a b = ground arith

instance abbrev pub transaction_eq : Eq TransactionState
transaction_eq = record { same = transaction_beq; same_iff = transaction_beq_iff }

pub data ColumnType : Type 0 where
  integer real text : ColumnType

abbrev pub column_type_text : ColumnType → String
column_type_text integer = "integer"
column_type_text real = "real"
column_type_text text = "text"

-- `DataOpsAuditRecord.decision`
pub data DataOpsDecision : Type 0 where
  executed rejected idempotent : DataOpsDecision

-- `DataOpsAuditRecord.terminal_outcome`
pub data TerminalOutcome : Type 0 where
  committed rolled_back : TerminalOutcome

-- `DataOpsToolResult.status`
pub data DataOpsStatus : Type 0 where
  ok rejected error : DataOpsStatus

pub data RollbackReason : Type 0 where
  ambiguous_match constraint_conflict stale_precondition validation_failed : RollbackReason
