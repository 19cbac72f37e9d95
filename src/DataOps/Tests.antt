-- ===== src/DataOps/Tests.antt =====
-- Tests of the DataOps environment (dataops_environment.py) over a small database in memory, and its
-- theorems at a concrete task.
use agent_learning_loop.Base.{
  String, Bool, true, false, none, some, List, [], ◌∷◌, Dict, lookup, contains, JsonValue, int, str,
  obj, pos, fields, Stdlib, string_eq, ◌==◌, ◌≡◌, inr, refl,
}
use agent_learning_loop.DataOps.Names.{
  DataOpsToolName, TransactionState, ColumnType, integer, text, ok, dataops_tool_eq,
}
use agent_learning_loop.DataOps.Contracts.{
  Row, DataOpsTaskFixture, DataOpsColumn, DataOpsAction, DataOpsToolResult,
}
use agent_learning_loop.DataOps.Arguments.{Arguments, parse}
use agent_learning_loop.DataOps.Environment.{
  DataOpsEnvironment, start, read_all_tables, database_digest,
}
use agent_learning_loop.DataOps.Execute.{execute, execute_all}
use agent_learning_loop.DataOps.Accounted.{IsAccounted, execute_all-IsAccounted}
use agent_learning_loop.DataOps.Restored.{rolled_back_restores}
use agent_learning_loop.DataOps.Retried.{IsRepeat, retried_write-IsRepeat}
use agent_learning_loop.DataOps.Final.{IsFinal, execute_all-IsFinal}
use agent_learning_loop.DataOps.Memory.{memory, same_value, with_rows, memory-RollsBack}

abbrev column : String → ColumnType → Bool → DataOpsColumn
column name type key = record {
  name = name;
  column_type = type;
  primary_key = key;
  not_null = true;
  unique = false;
  references_table = none;
  references_column = none;
}

abbrev first_row : Row
first_row = ("id", int (pos 1)) ∷ ("name", str "a") ∷ []

abbrev fixture : DataOpsTaskFixture
fixture = record {
  task = record {
    task_id = "dataops.rename";
    instruction = "rename the item";
    allowed_tools =
        DataOpsToolName.query_rows ∷ DataOpsToolName.begin_transaction ∷ DataOpsToolName.update_rows
        ∷ DataOpsToolName.validate_constraints ∷ DataOpsToolName.commit_transaction
        ∷ DataOpsToolName.rollback_transaction ∷ [];
    fixture_id = "dataops.rename.v1";
    scope =
        record {
          table = "items";
          readable_columns = "id" ∷ "name" ∷ [];
          mutable_columns = "name" ∷ [];
          predicate_columns = "id" ∷ [];
          max_mutated_rows = 1;
          allow_insert = false;
        }
        ∷ [];
    public_constraints = "one item" ∷ [];
  };
  private = record {
    tables =
        record {
          name = "items";
          columns = column "id" integer true ∷ column "name" text false ∷ [];
          rows = first_row ∷ [];
        }
        ∷ [];
    expected = record {
      commits = true;
      tables = ("items", (("id", int (pos 1)) ∷ ("name", str "b") ∷ []) ∷ []) ∷ [];
      exact_attempted_row_count = 1;
      exact_committed_row_count = 1;
      exact_attempted_by_table = ("items", 1) ∷ [];
      exact_committed_by_table = ("items", 1) ∷ [];
      exact_attempted_by_operation = ("op", 1) ∷ [];
      exact_committed_by_operation = ("op", 1) ∷ [];
      protected_rows = [];
    };
  };
}

abbrev lib : Stdlib
lib = record { dumps = λ _. "text"; sha256_hex = λ _. "digest"; decimal = λ _. "0" }

abbrev unsafe : String → Bool
unsafe s = s == "; drop table items"

abbrev call : DataOpsToolName → Dict JsonValue → DataOpsAction
call tool arguments = record { tool_name = tool; arguments = arguments }

abbrev begin_action : DataOpsAction
begin_action = call DataOpsToolName.begin_transaction (("transaction_id", str "t1") ∷ [])

abbrev rename_to : String → DataOpsAction
rename_to name = call DataOpsToolName.update_rows (
    ("transaction_id", str "t1")
    ∷ ("operation_id", str "op")
    ∷ ("table", str "items")
    ∷ ("where", obj (fields (("id", int (pos 1)) ∷ [])))
    ∷ ("values", obj (fields (("name", str name) ∷ [])))
    ∷ ("expected_match_count", int (pos 1))
    ∷ [])

abbrev validate_action : DataOpsAction
validate_action = call DataOpsToolName.validate_constraints (("transaction_id", str "t1") ∷ [])

abbrev commit_action : DataOpsAction
commit_action = call DataOpsToolName.commit_transaction (("transaction_id", str "t1") ∷ [])

abbrev rollback_action : DataOpsAction
rollback_action =
    call DataOpsToolName.rollback_transaction
      (("transaction_id", str "t1") ∷ ("reason_category", str "ambiguous_match") ∷ [])

abbrev run : List DataOpsAction → DataOpsEnvironment memory
run actions = execute_all memory lib unsafe same_value actions (start memory lib fixture "run-1")

unfoldable committed_run : DataOpsEnvironment memory
committed_run = run (begin_action ∷ rename_to "b" ∷ validate_action ∷ commit_action ∷ [])

unfoldable rolled_run : DataOpsEnvironment memory
rolled_run = run (begin_action ∷ rename_to "b" ∷ rollback_action ∷ [])

committed_test :
    (committed_run.state ≡ TransactionState.committed)
    × (committed_run.committed_row_count ≡ 1)
    × (committed_run.connection.current
        ≡ ("items", (("id", int (pos 1)) ∷ ("name", str "b") ∷ []) ∷ []) ∷ [])
unfolding committed_run execute_all start with_rows
committed_test = (refl, refl, refl)

-- A commit that follows a write without a validation is rejected.
unvalidated_test :
    (run (begin_action ∷ rename_to "b" ∷ commit_action ∷ [])).state ≡ TransactionState.active
unfolding execute_all start
unvalidated_test = refl

-- A text that looks like a statement is refused, and the call raises.
unsafe_test :
    (execute memory lib unsafe same_value (rename_to "; drop table items") rolled_run).0 ≡ none
unfolding execute rolled_run execute_all start
unsafe_test = refl

rolled_run-state : rolled_run.state ≡ TransactionState.rolled_back
unfolding rolled_run execute_all start
rolled_run-state = refl

execute_all-IsAccounted_example :
    IsAccounted memory lib "run-1" fixture
      (database_digest memory lib fixture (memory.create_database fixture.private.tables))
      (run (begin_action ∷ rename_to "b" ∷ validate_action ∷ commit_action ∷ []))
execute_all-IsAccounted_example =
    execute_all-IsAccounted memory lib unsafe same_value
      (begin_action ∷ rename_to "b" ∷ validate_action ∷ commit_action ∷ []) fixture "run-1" refl

rolled_back_restores_example :
    read_all_tables memory lib rolled_run.fixture rolled_run.connection
    ≡ read_all_tables memory lib fixture (memory.create_database fixture.private.tables)
unfolding rolled_run
rolled_back_restores_example =
    rolled_back_restores memory lib unsafe same_value
      (begin_action ∷ rename_to "b" ∷ rollback_action ∷ []) fixture "run-1" memory-RollsBack
      rolled_run-state

execute_all-IsFinal_example :
    IsFinal memory rolled_run
      (execute_all memory lib unsafe same_value (begin_action ∷ rename_to "c" ∷ []) rolled_run)
execute_all-IsFinal_example =
    execute_all-IsFinal memory lib unsafe same_value (begin_action ∷ rename_to "c" ∷ []) rolled_run
      (inr rolled_run-state)

abbrev rename_arguments : Arguments
rename_arguments = Arguments.update (record {
  transaction_id = "t1";
  operation_id = "op";
  table = "items";
  where_row = ("id", int (pos 1)) ∷ [];
  values = ("name", str "b") ∷ [];
  expected_match_count = 1;
})

unfoldable begun_run : DataOpsEnvironment memory
begun_run = run (begin_action ∷ [])

abbrev renamed : DataOpsToolResult
renamed = record {
  status = ok;
  payload = ("matched_row_count", int (pos 1)) ∷ ("changed_row_count", int (pos 1)) ∷ [];
  error_category = none;
  idempotency_hit = false;
}

rename-parse :
    parse unsafe (rename_to "b").tool_name (rename_to "b").arguments ≡ some rename_arguments
unfolding parse
rename-parse = refl

begun_run-operations : lookup "op" begun_run.operations ≡ none
unfolding begun_run execute_all start lookup
begun_run-operations = refl

renames : (execute memory lib unsafe same_value (rename_to "b") begun_run).0 ≡ some renamed
unfolding begun_run execute_all execute start
renames = refl

begun_run-allowed : contains begun_run.fixture.task.allowed_tools (rename_to "b").tool_name ≡ true
unfolding begun_run execute_all start
begun_run-allowed = refl

retried_write-IsRepeat_example :
    IsRepeat memory lib renamed (execute memory lib unsafe same_value (rename_to "b") begun_run).1 (
      execute memory lib unsafe same_value
        (rename_to "b")
        (execute memory lib unsafe same_value (rename_to "b") begun_run).1)
retried_write-IsRepeat_example =
    retried_write-IsRepeat memory lib unsafe same_value (rename_to "b") begun_run rename_arguments
      "op" renamed begun_run-allowed rename-parse refl begun_run-operations renames
