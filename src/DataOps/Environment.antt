-- ===== src/DataOps/Environment.antt =====
-- dataops_environment.py: the state of `DataOpsEnvironment` and its audit.
use agent_learning_loop.Base.{
  ℕ, String, Bool, true, false, not, ◌||◌, Option, none, some, List, [], ◌∷◌, ◌++◌, Dict, find?,
  map, length, JsonValue, null, int, str, arr, obj, fields, items, Stdlib, canonical_sha256,
  string_eq, ◌==◌, if◌then◌else◌, option_eq,
}
use agent_learning_loop.DataOps.Names.{
  dataops_tool_text, TransactionState, transaction_eq, ColumnType, integer, real, text,
  DataOpsDecision, executed, TerminalOutcome, DataOpsStatus, ok,
}
use agent_learning_loop.DataOps.Contracts.{
  Row, DataOpsTableScope, DataOpsColumn, DataOpsTableFixture, DataOpsTaskFixture, DataOpsAction,
  DataOpsToolResult, DataOpsSnapshot, DataOpsAuditRecord,
}
use agent_learning_loop.DataOps.Store.{Sql, sort_by}

-- `_operations`: the fingerprint of the action, and its result
pub record Operation : Type 0 where
  pub fingerprint : String
  pub result : DataOpsToolResult

abbrev pub Tables : Type 0
Tables = Dict (List Row)

pub record DataOpsEnvironment (sql : Sql) : Type 0 where
  pub fixture : DataOpsTaskFixture
  pub run_id : String
  pub connection : sql.Db
  pub state : TransactionState
  pub transaction_id : Option String
  pub attempted_row_count : ℕ
  pub committed_row_count : ℕ
  pub audit : List DataOpsAuditRecord
  pub operations : Dict Operation
  pub initial_tables : Tables

abbrev name_or_empty : Option DataOpsColumn → String
name_or_empty none = ""
name_or_empty (some c) = c.name

-- `_primary_key`; the contract of a table requires one primary key
abbrev pub primary_key : DataOpsTableFixture → String
primary_key table = name_or_empty (find? (λ (c : DataOpsColumn). c.primary_key) table.columns)

abbrev pub rows_json : List Row → JsonValue
rows_json rows = arr (items (map (λ (row : Row). obj (fields row)) rows))

-- the tables as a JSON object
abbrev pub tables_json : Tables → JsonValue
tables_json tables = obj (fields (map (λ (t : String × List Row). (t.0, rows_json t.1)) tables))

-- The arguments of `_record` after the action, the result and the digest.
pub record Entry : Type 0 where
  pub decision : DataOpsDecision
  pub transaction_id : Option String
  pub operation_id : Option String
  pub table : Option String
  pub columns : List String
  pub matched : ℕ
  pub changed : ℕ
  pub primary_keys : Option (List JsonValue)
  pub validation_succeeded : Bool
  pub cardinality_checked : Bool
  pub idempotency_hit : Bool
  pub terminal_outcome : Option TerminalOutcome

-- the defaults
abbrev pub plain_entry : Entry
plain_entry = record {
  decision = executed;
  transaction_id = none;
  operation_id = none;
  table = none;
  columns = [];
  matched = 0;
  changed = 0;
  primary_keys = none;
  validation_succeeded = false;
  cardinality_checked = false;
  idempotency_hit = false;
  terminal_outcome = none;
}

abbrev pub success : Dict JsonValue → DataOpsToolResult
success payload = record {
  status = ok;
  payload = payload;
  error_category = none;
  idempotency_hit = false;
}

abbrev pub rejection : String → DataOpsToolResult
rejection category = record {
  status = DataOpsStatus.rejected;
  payload = [];
  error_category = some category;
  idempotency_hit = false;
}

-- the entry of a rejected call that gives no more than a table
abbrev pub rejected_entry : Option String → Entry
rejected_entry table = record plain_entry { decision = DataOpsDecision.rejected; table = table }

-- `isinstance(value, str)`, `isinstance(value, int) and not isinstance(value, bool)`, ...
abbrev has_type : ColumnType → JsonValue → Bool
has_type text (str _) = true
has_type integer (int _) = true
has_type real (int _) = true
has_type real (JsonValue.float _) = true
has_type _ _ = false

abbrev value_matches : DataOpsColumn → JsonValue → Bool
value_matches c null = not (c.not_null || c.primary_key)
value_matches c v = has_type c.column_type v

-- `_mapping_types_match`; `none` is the `KeyError` of a column that the table does not have
abbrev pub mapping_types_match : DataOpsTableFixture → Row → Option Bool
mapping_types_match table [] = some true
mapping_types_match table ((name, v) ∷ d) =
    let rest = mapping_types_match table d in
    elim (find? (λ (c : DataOpsColumn). c.name == name) table.columns) [
      | none ↦ none
      | some c ↦ if value_matches c v then rest else some false
    ]

-- `_fingerprint`
unfoldable pub fingerprint : Stdlib → DataOpsAction → String
unfolding canonical_sha256
fingerprint lib action = canonical_sha256 lib (
    obj (
      fields (
        ("schema_version", str "1")
        ∷ ("tool_name", str (dataops_tool_text action.tool_name))
        ∷ ("arguments", obj (fields action.arguments))
        ∷ [])))

-- `canonical_sha256(primary_keys)`
abbrev digest_of : Stdlib → Option (List JsonValue) → Option String
unfolding canonical_sha256
digest_of lib none = none
digest_of lib (some ks) = some (canonical_sha256 lib (arr (items ks)))

module _ (sql : Sql) (lib : Stdlib) where
  -- A tool's result and the state after it; `none` is an exception.
  abbrev pub Answer : Type 0
  Answer = Option DataOpsToolResult × DataOpsEnvironment sql

  -- `_read_all_tables`
  unfoldable pub read_all_tables : DataOpsTaskFixture → sql.Db → Tables
  read_all_tables fixture db =
      map (λ (t : DataOpsTableFixture). (t.name, sql.select_all t.name (primary_key t) db))
        (sort_by (λ (t : DataOpsTableFixture). t.name) fixture.private.tables)

  -- `snapshot().database_digest` of a connection
  unfoldable pub database_digest : DataOpsTaskFixture → sql.Db → String
  unfolding canonical_sha256 read_all_tables
  database_digest fixture db = canonical_sha256 lib (tables_json (read_all_tables fixture db))

  -- `__init__`; the run's id is not empty, since `DataOpsAuditRecord` refuses an empty one, and then no
  -- action can be recorded
  unfoldable pub start : DataOpsTaskFixture → String → DataOpsEnvironment sql
  unfolding read_all_tables
  start fixture run_id =
      let db = sql.create_database fixture.private.tables in
      record {
        fixture = fixture;
        run_id = run_id;
        connection = db;
        state = TransactionState.idle;
        transaction_id = none;
        attempted_row_count = 0;
        committed_row_count = 0;
        audit = [];
        operations = [];
        initial_tables = read_all_tables fixture db;
      }

  -- `snapshot`
  unfoldable pub snapshot : DataOpsEnvironment sql → DataOpsSnapshot
  unfolding read_all_tables database_digest
  snapshot e = record {
    terminal_state = e.state;
    transaction_id = e.transaction_id;
    tables = read_all_tables e.fixture e.connection;
    database_digest = database_digest e.fixture e.connection;
    attempted_row_count = e.attempted_row_count;
    committed_row_count = e.committed_row_count;
  }

  -- the record that `_record` makes, for a run whose id is not empty
  unfoldable pub audit_record :
      DataOpsAction
      → DataOpsToolResult
      → String
      → Entry
      → DataOpsEnvironment sql
      → DataOpsAuditRecord
  unfolding database_digest fingerprint digest_of
  audit_record action result before entry e = record {
    sequence = length e.audit;
    run_id = e.run_id;
    task_id = e.fixture.task.task_id;
    tool_name = action.tool_name;
    decision = entry.decision;
    error_category = result.error_category;
    transaction_id = entry.transaction_id;
    operation_id = entry.operation_id;
    table = entry.table;
    columns = entry.columns;
    action_fingerprint = fingerprint lib action;
    matched_row_count = entry.matched;
    changed_row_count = entry.changed;
    primary_key_digest = digest_of lib entry.primary_keys;
    before_digest = before;
    after_digest = database_digest e.fixture e.connection;
    validation_succeeded = entry.validation_succeeded;
    cardinality_checked_before_write = entry.cardinality_checked;
    idempotency_hit = entry.idempotency_hit;
    terminal_outcome = entry.terminal_outcome;
  }

  -- `_record`
  abbrev pub add_record :
      DataOpsAction
      → DataOpsToolResult
      → String
      → Entry
      → DataOpsEnvironment sql
      → DataOpsEnvironment sql
  add_record action result before entry e = record e {
    audit = e.audit ++ audit_record action result before entry e ∷ [];
  }

  -- a result that is recorded and given back
  abbrev pub answer :
      DataOpsAction → DataOpsToolResult → String → Entry → DataOpsEnvironment sql → Answer
  answer action result before entry e = (some result, add_record action result before entry e)

  -- `_rejected`
  abbrev pub reject : DataOpsAction → String → String → Entry → DataOpsEnvironment sql → Answer
  reject action category before entry e =
      answer action (rejection category) before
        (record entry { decision = DataOpsDecision.rejected }) e

  -- `_scope`
  abbrev pub scope_of : DataOpsEnvironment sql → String → Option DataOpsTableScope
  scope_of e name = find? (λ (s : DataOpsTableScope). s.table == name) e.fixture.task.scope

  -- `_table`
  abbrev pub table_of : DataOpsEnvironment sql → String → Option DataOpsTableFixture
  table_of e name = find? (λ (t : DataOpsTableFixture). t.name == name) e.fixture.private.tables
