-- ===== src/DataOps/Reads.antt =====
-- dataops_environment.py: the tools that only read.
use agent_learning_loop.Base.{
  String, Bool, true, false, not, ◌||◌, Option, none, some, List, [], ◌∷◌, keys, subset, contains,
  filterb, map, length, JsonValue, null, bool, int, str, arr, obj, pos, fields, items, Stdlib,
  string_eq, if◌then◌else◌, option_eq,
}
use agent_learning_loop.DataOps.Names.{transaction_eq, column_type_text}
use agent_learning_loop.DataOps.Contracts.{
  Row, DataOpsTableScope, DataOpsColumn, DataOpsTableFixture, DataOpsAction,
}
use agent_learning_loop.DataOps.Arguments.{QueryRowsArguments}
use agent_learning_loop.DataOps.Store.{Sql, sort_by}
use agent_learning_loop.DataOps.Environment.{
  DataOpsEnvironment, primary_key, rows_json, plain_entry, success, mapping_types_match, Answer,
  answer, reject, scope_of, table_of,
}

-- the column as `_describe` tells it
abbrev pub describe_column : DataOpsColumn → JsonValue
describe_column c = obj (
    fields (
      ("name", str c.name)
      ∷ ("type", str (column_type_text c.column_type))
      ∷ ("primary_key", bool c.primary_key)
      ∷ ("not_null", bool c.not_null)
      ∷ ("unique", bool c.unique)
      ∷ ("references_table", or_null c.references_table)
      ∷ ("references_column", or_null c.references_column)
      ∷ []))
  where
    or_null : Option String → JsonValue
    or_null none = null
    or_null (some s) = str s

module _ (sql : Sql) (lib : Stdlib) where
  abbrev pub describe_in :
      DataOpsAction
      → String
      → String
      → DataOpsEnvironment sql
      → Option DataOpsTableScope
      → Option DataOpsTableFixture
      → Answer sql lib
  describe_in action table before e (some scope) (some t) =
      let columns =
        filterb (λ (c : DataOpsColumn). contains scope.readable_columns c.name) t.columns in
      answer sql lib action
        (success (
          ("table", str table)
          ∷ ("columns", arr (items (map describe_column columns)))
          ∷ ("public_constraints", arr (items (map str e.fixture.task.public_constraints)))
          ∷ []))
        before (record plain_entry { table = some table }) e
  describe_in action table before e _ _ =
      reject sql lib action "scope_violation" before (record plain_entry { table = some table }) e

  -- `_describe`
  abbrev pub describe : DataOpsAction → String → String → DataOpsEnvironment sql → Answer sql lib
  describe action table before e =
      describe_in action table before e (scope_of sql lib e table) (table_of sql lib e table)

  abbrev pub give_rows :
      DataOpsAction → String → String → DataOpsEnvironment sql → Option (List Row) → Answer sql lib
  give_rows action table before e none = (none, e)
  give_rows action table before e (some rows) =
      answer sql lib action
        (success (("rows", rows_json rows) ∷ ("count", int (pos (length rows))) ∷ [])) before
        (record plain_entry { table = some table; matched = length rows }) e

  abbrev pub query_typed :
      DataOpsAction
      → QueryRowsArguments
      → String
      → DataOpsEnvironment sql
      → DataOpsTableFixture
      → Option Bool
      → Answer sql lib
  query_typed action a before e t none = (none, e)
  query_typed action a before e t (some false) =
      reject sql lib action "value_type_mismatch" before
        (record plain_entry { table = some a.table }) e
  query_typed action a before e t (some true) = give_rows action a.table before e (
      sql.select a.table a.columns (sort_by (λ (x : String × JsonValue). x.0) a.where_row)
        (primary_key t) a.limit e.connection)

  abbrev pub query_in :
      DataOpsAction
      → QueryRowsArguments
      → String
      → DataOpsEnvironment sql
      → Option DataOpsTableScope
      → Option DataOpsTableFixture
      → Answer sql lib
  query_in action a before e (some scope) (some t) =
      if not (subset a.columns scope.readable_columns)
        || not (subset (keys a.where_row) scope.predicate_columns)
      then reject sql lib action "scope_violation" before
          (record plain_entry { table = some a.table }) e
      else query_typed action a before e t (mapping_types_match t a.where_row)
  query_in action a before e _ _ =
      reject sql lib action "scope_violation" before (record plain_entry { table = some a.table }) e

  -- `_query`
  abbrev pub query :
      DataOpsAction → QueryRowsArguments → String → DataOpsEnvironment sql → Answer sql lib
  query action a before e =
      query_in action a before e (scope_of sql lib e a.table) (table_of sql lib e a.table)
