-- ===== src/DataOps/Writes.antt =====
-- dataops_environment.py: the tools that write rows, and the replay of operations.
use agent_learning_loop.Base.{
  ℕ, ◌+◌, String, Bool, true, false, not, ◌&&◌, ◌||◌, Option, none, some, List, [], ◌∷◌, Dict,
  lookup, insert, keys, subset, map, length, ltb, JsonValue, null, int, str, pos, Stdlib, nat_eq,
  string_eq, option_eq, ◌==◌, ◌!=◌, if◌then◌else◌,
}
use agent_learning_loop.DataOps.Names.{TransactionState, transaction_eq, idempotent}
use agent_learning_loop.DataOps.Contracts.{
  Row, DataOpsTableScope, DataOpsColumn, DataOpsTableFixture, DataOpsAction, DataOpsToolResult,
}
use agent_learning_loop.DataOps.Arguments.{UpdateRowsArguments, InsertRowArguments}
use agent_learning_loop.DataOps.Store.{
  Sql, Statement, changed, integrity_error, sqlite_error, sort_by,
}
use agent_learning_loop.DataOps.Environment.{
  Operation, DataOpsEnvironment, primary_key, Entry, plain_entry, success, rejection,
  mapping_types_match, fingerprint, Answer, answer, reject, scope_of, table_of,
}

-- `action.arguments.get(name)`, a text by the contract of the tools that write
abbrev pub argument_text : String → DataOpsAction → Option String
unfolding lookup
argument_text name action = as_text (lookup name action.arguments)
  where
    as_text : Option JsonValue → Option String
    as_text (some (str s)) = some s
    as_text _ = none

abbrev pub replay_entry : DataOpsAction → String → Entry
replay_entry action operation_id = record plain_entry {
  transaction_id = argument_text "transaction_id" action;
  operation_id = some operation_id;
  table = argument_text "table" action;
}

-- what a call that writes tells of itself in its audit
abbrev pub write_entry : String → String → String → Entry
write_entry transaction_id operation_id table = record plain_entry {
  transaction_id = some transaction_id;
  operation_id = some operation_id;
  table = some table;
}

abbrev pub sorted_row : Row → Row
sorted_row d = sort_by (λ (x : String × JsonValue). x.0) d

-- `set(xs) == set(ys)`
abbrev pub same_names : List String → List String → Bool
same_names xs ys = subset xs ys && subset ys xs

abbrev pub column_names : Option DataOpsTableFixture → List String
column_names none = []
column_names (some t) = map (λ (c : DataOpsColumn). c.name) t.columns

-- `a or b` of two tests that may raise
abbrev or_not : Option Bool → Option Bool → Option Bool
or_not (some true) rest = rest
or_not other rest = other

abbrev pub value_or_null : Option JsonValue → JsonValue
value_or_null none = null
value_or_null (some v) = v

module _ (sql : Sql) (lib : Stdlib) where
  -- `_transaction_error`
  abbrev pub transaction_error : String → DataOpsEnvironment sql → Option String
  transaction_error transaction_id e =
      if e.state == TransactionState.idle
      then some "transaction_required"
      else if e.state == TransactionState.committed || e.state == TransactionState.rolled_back
      then some "transaction_terminal"
      else if some transaction_id != e.transaction_id
      then some "transaction_mismatch"
      else none

  -- the operations after `self._operations[operation_id] = (self._fingerprint(action), result)`
  unfoldable pub with_operation :
      DataOpsAction → String → DataOpsToolResult → Dict Operation → Dict Operation
  unfolding insert fingerprint
  with_operation action operation_id result operations =
      insert operation_id (record { fingerprint = fingerprint lib action; result = result })
        operations

  abbrev pub remember :
      DataOpsAction → String → DataOpsToolResult → DataOpsEnvironment sql → DataOpsEnvironment sql
  remember action operation_id result e = record e {
    operations = with_operation action operation_id result e.operations;
  }

  -- `_remember_rejection`, and the rejection of a wrong count of rows
  abbrev pub remember_rejection :
      DataOpsAction → String → String → String → Entry → DataOpsEnvironment sql → Answer sql lib
  remember_rejection action operation_id category before entry e = (
    some (rejection category),
    remember action operation_id (rejection category)
        (reject sql lib action category before entry e).1,
  )

  unfoldable pub replay :
      DataOpsAction → String → String → DataOpsEnvironment sql → Operation → Answer sql lib
  unfolding fingerprint
  replay action operation_id before e previous =
      if previous.fingerprint != fingerprint lib action
      then reject sql lib action "operation_conflict" before (replay_entry action operation_id) e
      else answer sql lib action (record previous.result { idempotency_hit = true }) before
          (record (replay_entry action operation_id) {
            decision = idempotent;
            idempotency_hit = true;
          })
          e

  abbrev pub replay_or :
      DataOpsAction
      → String
      → String
      → DataOpsEnvironment sql
      → Option Operation
      → Answer sql lib
      → Answer sql lib
  replay_or action operation_id before e (some previous) rest =
      replay action operation_id before e previous
  replay_or action operation_id before e none rest = rest

  module _ (action : DataOpsAction) (before : String) (e : DataOpsEnvironment sql) where
    -- after the statement of a write
    abbrev pub wrote : String → DataOpsToolResult → Entry → ℕ → sql.Db → Answer sql lib
    wrote operation_id result entry n db =
        answer sql lib action result before
          (record entry { changed = n; cardinality_checked = true })
          (remember action operation_id result (record e {
            connection = db;
            attempted_row_count = e.attempted_row_count + n;
            state = TransactionState.active;
          }))

    abbrev pub updated : UpdateRowsArguments → List JsonValue → Statement sql.Db → Answer sql lib
    updated a primary_keys (changed n db) =
        wrote a.operation_id
          (success (
            ("matched_row_count", int (pos (length primary_keys)))
            ∷ ("changed_row_count", int (pos n))
            ∷ []))
          (record (write_entry a.transaction_id a.operation_id a.table) {
            columns = keys (sorted_row a.values);
            matched = length primary_keys;
            primary_keys = some primary_keys;
          })
          n db
    updated a primary_keys _ = (none, e)

    abbrev pub update_matched :
        UpdateRowsArguments → DataOpsTableScope → Option (List JsonValue) → Answer sql lib
    update_matched a scope none = (none, e)
    update_matched a scope (some primary_keys) =
        let matched = length primary_keys in
        if matched != a.expected_match_count || ltb scope.max_mutated_rows matched
        then remember_rejection action a.operation_id "cardinality_mismatch" before
            (record (write_entry a.transaction_id a.operation_id a.table) {
              matched = matched;
              cardinality_checked = true;
            })
            e
        else updated a primary_keys
            (sql.update a.table (sorted_row a.values) (sorted_row a.where_row) e.connection)

    abbrev pub update_typed :
        UpdateRowsArguments → DataOpsTableScope → DataOpsTableFixture → Option Bool → Answer sql lib
    update_typed a scope t none = (none, e)
    update_typed a scope t (some false) =
        remember_rejection action a.operation_id "value_type_mismatch" before
          (write_entry a.transaction_id a.operation_id a.table) e
    update_typed a scope t (some true) =
        update_matched a scope
          (sql.select_keys a.table (primary_key t) (sorted_row a.where_row) e.connection)

    abbrev pub update_in :
        UpdateRowsArguments → Option DataOpsTableScope → Option DataOpsTableFixture → Answer sql lib
    update_in a (some scope) (some t) =
        if not (subset (keys a.where_row) scope.predicate_columns)
          || not (subset (keys a.values) scope.mutable_columns)
        then remember_rejection action a.operation_id "scope_violation" before
            (write_entry a.transaction_id a.operation_id a.table) e
        else update_typed a scope t
            (or_not (mapping_types_match t a.where_row) (mapping_types_match t a.values))
    update_in a _ _ =
        remember_rejection action a.operation_id "scope_violation" before
          (write_entry a.transaction_id a.operation_id a.table) e

    abbrev pub update_open : UpdateRowsArguments → Option String → Answer sql lib
    update_open a (some category) =
        remember_rejection action a.operation_id category before
          (write_entry a.transaction_id a.operation_id a.table) e
    update_open a none = update_in a (scope_of sql lib e a.table) (table_of sql lib e a.table)

    -- `_update`
    unfoldable pub update : UpdateRowsArguments → Answer sql lib
    unfolding lookup replay
    update a =
        replay_or action a.operation_id before e (lookup a.operation_id e.operations)
          (update_open a (transaction_error a.transaction_id e))

    abbrev pub inserted :
        InsertRowArguments → DataOpsTableFixture → Statement sql.Db → Answer sql lib
    unfolding lookup
    inserted a t (changed _ db) =
        wrote a.operation_id (success (("changed_row_count", int (pos 1)) ∷ []))
          (record (write_entry a.transaction_id a.operation_id a.table) {
            columns = keys (sorted_row a.row);
            primary_keys = some (value_or_null (lookup (primary_key t) a.row) ∷ []);
          })
          1 db
    inserted a t integrity_error =
        remember_rejection action a.operation_id "constraint_conflict" before
          (write_entry a.transaction_id a.operation_id a.table) e
    inserted a t sqlite_error = (none, e)

    abbrev pub insert_typed :
        InsertRowArguments → DataOpsTableFixture → Option Bool → Answer sql lib
    insert_typed a t none = (none, e)
    insert_typed a t (some false) =
        remember_rejection action a.operation_id "value_type_mismatch" before
          (write_entry a.transaction_id a.operation_id a.table) e
    insert_typed a t (some true) =
        inserted a t (sql.insert_row a.table (sorted_row a.row) e.connection)

    abbrev pub insert_in :
        InsertRowArguments → Option DataOpsTableScope → Option DataOpsTableFixture → Answer sql lib
    insert_in a (some scope) (some t) =
        if not scope.allow_insert || not (same_names (keys a.row) (column_names (some t)))
        then remember_rejection action a.operation_id "scope_violation" before
            (write_entry a.transaction_id a.operation_id a.table) e
        else insert_typed a t (mapping_types_match t a.row)
    insert_in a _ _ =
        remember_rejection action a.operation_id "scope_violation" before
          (write_entry a.transaction_id a.operation_id a.table) e

    abbrev pub insert_open : InsertRowArguments → Option String → Answer sql lib
    insert_open a (some category) =
        remember_rejection action a.operation_id category before
          (write_entry a.transaction_id a.operation_id a.table) e
    insert_open a none = insert_in a (scope_of sql lib e a.table) (table_of sql lib e a.table)

    -- `_insert`
    unfoldable pub insert_one : InsertRowArguments → Answer sql lib
    unfolding lookup replay
    insert_one a =
        replay_or action a.operation_id before e (lookup a.operation_id e.operations)
          (insert_open a (transaction_error a.transaction_id e))
