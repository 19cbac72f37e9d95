-- ===== src/DataOps/Execute.antt =====
-- dataops_environment.py: the tools of a transaction, and the dispatch over all tools.
use agent_learning_loop.Base.{
  String, Bool, true, false, not, ◌||◌, Option, none, some, List, [], ◌∷◌, lookup, filterb, all,
  contains, JsonValue, arr, obj, fields, items, map, bool, int, str, null, pos, Stdlib, string_eq,
  option_eq, ◌==◌, ◌!=◌, if◌then◌else◌,
}
use agent_learning_loop.DataOps.Names.{
  dataops_tool_eq, TransactionState, transaction_eq, TerminalOutcome,
}
use agent_learning_loop.DataOps.Contracts.{Row, DataOpsProtectedRows, DataOpsAction}
use agent_learning_loop.DataOps.Arguments.{
  Arguments, begins, validate, commit, rollback, insertion, parse,
}
use agent_learning_loop.DataOps.Store.{Sql}
use agent_learning_loop.DataOps.Environment.{
  DataOpsEnvironment, Tables, plain_entry, success, Answer, answer, reject, read_all_tables,
  database_digest,
}
use agent_learning_loop.DataOps.Reads.{describe, query}
use agent_learning_loop.DataOps.Writes.{transaction_error, update, insert_one}

-- `row.get(name)`
abbrev get_or_null : String → Row → JsonValue
unfolding lookup
get_or_null name row = or_null (lookup name row)
  where
    or_null : Option JsonValue → JsonValue
    or_null none = null
    or_null (some v) = v

-- `same` is `==` of two JSON values, which compares numbers across their types
module _ (same : JsonValue → JsonValue → Bool) where
  abbrev matches_row : Row → Row → Bool
  matches_row where_row row =
      all (λ (x : String × JsonValue). same (get_or_null x.0 row) x.1) where_row

  abbrev same_rows : List Row → List Row → Bool
  same_rows xs ys =
      same (arr (items (map (λ (row : Row). obj (fields row)) xs)))
        (arr (items (map (λ (row : Row). obj (fields row)) ys)))

  abbrev same_selection : Row → Option (List Row) → Option (List Row) → Option Bool
  same_selection where_row (some before) (some now) =
      some
        (same_rows (filterb (matches_row where_row) now) (filterb (matches_row where_row) before))
  same_selection where_row _ _ = none

  abbrev if_same : Option Bool → Option Bool → Option Bool
  if_same none rest = none
  if_same (some false) rest = some false
  if_same (some true) rest = rest

  -- `_protected_rows_unchanged`; `none` is the `KeyError` of a table that is not there
  unfoldable pub protected_rows_unchanged :
      List DataOpsProtectedRows → Tables → Tables → Option Bool
  unfolding lookup
  protected_rows_unchanged [] initial current = some true
  protected_rows_unchanged (p ∷ ps) initial current =
      let rest = protected_rows_unchanged ps initial current in
      if_same (same_selection p.where_row (lookup p.table initial) (lookup p.table current)) rest

module _ (sql : Sql) (lib : Stdlib) where
  -- `_begin`
  abbrev pub begin_one : DataOpsAction → String → String → DataOpsEnvironment sql → Answer sql lib
  begin_one action transaction_id before e =
      if e.state != TransactionState.idle
      then reject sql lib action "transaction_state" before plain_entry e
      else answer sql lib action (success (("transaction_state", str "active") ∷ [])) before
          (record plain_entry { transaction_id = some transaction_id })
          (record e {
            connection = sql.begins e.connection;
            state = TransactionState.active;
            transaction_id = some transaction_id;
          })

  abbrev pub validate_checked :
      DataOpsAction → String → String → DataOpsEnvironment sql → Option Bool → Answer sql lib
  validate_checked action transaction_id before e none = (none, e)
  validate_checked action transaction_id before e (some false) =
      reject sql lib action "constraint_validation_failed" before plain_entry e
  validate_checked action transaction_id before e (some true) =
      answer sql lib action (success (("constraints_valid", bool true) ∷ [])) before
        (record plain_entry { transaction_id = some transaction_id; validation_succeeded = true })
        (record e { state = TransactionState.validated })

  unfoldable pub validate_open :
      (JsonValue → JsonValue → Bool)
      → DataOpsAction
      → String
      → String
      → DataOpsEnvironment sql
      → Option String
      → Answer sql lib
  unfolding protected_rows_unchanged read_all_tables
  validate_open same action transaction_id before e (some category) =
      reject sql lib action category before plain_entry e
  validate_open same action transaction_id before e none =
      if sql.has_foreign_key_errors e.connection || not (sql.is_intact e.connection)
      then reject sql lib action "constraint_validation_failed" before plain_entry e
      else validate_checked action transaction_id before e (
          protected_rows_unchanged same e.fixture.private.expected.protected_rows e.initial_tables
            (read_all_tables sql lib e.fixture e.connection))

  -- `_validate`
  unfoldable pub validate_one :
      (JsonValue → JsonValue → Bool)
      → DataOpsAction
      → String
      → String
      → DataOpsEnvironment sql
      → Answer sql lib
  unfolding validate_open
  validate_one same action transaction_id before e =
      validate_open same action transaction_id before e (transaction_error sql lib transaction_id e)

  -- `_commit`
  abbrev pub commit_one : DataOpsAction → String → String → DataOpsEnvironment sql → Answer sql lib
  commit_one action transaction_id before e =
      if e.state != TransactionState.validated || some transaction_id != e.transaction_id
      then reject sql lib action
          (if e.state == TransactionState.active
            then "validation_required"
            else "transaction_state")
          before plain_entry e
      else answer sql lib action
          (success (
            ("terminal_state", str "committed")
            ∷ ("committed_row_count", int (pos e.attempted_row_count))
            ∷ []))
          before
          (record plain_entry {
            transaction_id = some transaction_id;
            terminal_outcome = some TerminalOutcome.committed;
          })
          (record e {
            connection = sql.commits e.connection;
            state = TransactionState.committed;
            committed_row_count = e.attempted_row_count;
          })

  abbrev pub rollback_open :
      DataOpsAction → String → String → DataOpsEnvironment sql → Option String → Answer sql lib
  rollback_open action transaction_id before e (some category) =
      reject sql lib action category before plain_entry e
  rollback_open action transaction_id before e none =
      answer sql lib action
        (success
          (("terminal_state", str "rolled_back") ∷ ("committed_row_count", int (pos 0)) ∷ []))
        before
        (record plain_entry {
          transaction_id = some transaction_id;
          terminal_outcome = some TerminalOutcome.rolled_back;
        })
        (record e {
          connection = sql.rolls_back e.connection;
          state = TransactionState.rolled_back;
          committed_row_count = 0;
        })

  -- `_rollback`
  abbrev pub rollback_one :
      DataOpsAction → String → String → DataOpsEnvironment sql → Answer sql lib
  rollback_one action transaction_id before e =
      rollback_open action transaction_id before e (transaction_error sql lib transaction_id e)

  module _ (unsafe : String → Bool) (same : JsonValue → JsonValue → Bool) where
    unfoldable pub dispatch :
        DataOpsAction → String → DataOpsEnvironment sql → Option Arguments → Answer sql lib
    unfolding update insert_one validate_one
    dispatch action before e none = (none, e)
    dispatch action before e (some (Arguments.describe table)) =
        describe sql lib action table before e
    dispatch action before e (some (Arguments.query a)) = query sql lib action a before e
    dispatch action before e (some (begins id)) = begin_one action id before e
    dispatch action before e (some (Arguments.update a)) = update sql lib action before e a
    dispatch action before e (some (insertion a)) = insert_one sql lib action before e a
    dispatch action before e (some (validate id)) = validate_one same action id before e
    dispatch action before e (some (commit id)) = commit_one action id before e
    dispatch action before e (some (rollback id reason)) = rollback_one action id before e

    -- `execute`
    unfoldable pub execute : DataOpsAction → DataOpsEnvironment sql → Answer sql lib
    unfolding parse dispatch
    execute action e =
        let before = database_digest sql lib e.fixture e.connection in
        if contains e.fixture.task.allowed_tools action.tool_name
        then dispatch action before e (parse unsafe action.tool_name action.arguments)
        else reject sql lib action "tool_not_allowed" before plain_entry e

    -- the environment after the actions of a list
    unfoldable pub execute_all :
        List DataOpsAction → DataOpsEnvironment sql → DataOpsEnvironment sql
    unfolding execute
    execute_all [] e = e
    execute_all (action ∷ actions) e = execute_all actions (execute action e).1
