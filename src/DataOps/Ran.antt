-- ===== src/DataOps/Ran.antt =====
-- dataops_environment.py: every call does one of the things that `Did` lists.
use agent_learning_loop.Base.{
  String, Bool, true, false, not, ◌||◌, Option, none, some, [], ◌∷◌, contains, nat_eq, string_eq,
  option_eq, ◌!=◌, JsonValue, pos, Stdlib, ◌≡◌, inl, inr, refl, arith, if_intro, Bool-cases,
}
use agent_learning_loop.DataOps.Names.{
  dataops_tool_eq, TransactionState, transaction_eq, transaction_beq_iff, TerminalOutcome,
}
use agent_learning_loop.DataOps.Contracts.{DataOpsAction}
use agent_learning_loop.DataOps.Arguments.{Arguments, begins, validate, commit, rollback, insertion}
use agent_learning_loop.DataOps.Store.{Sql}
use agent_learning_loop.DataOps.Environment.{
  DataOpsEnvironment, Entry, plain_entry, Answer, audit_record, success, database_digest,
}
use agent_learning_loop.DataOps.Execute.{
  begin_one, validate_checked, validate_open, validate_one, commit_one, rollback_open, dispatch,
  execute,
}
use agent_learning_loop.DataOps.Did.{
  IsOpen, Did, raised, began, entered, says, transaction_error-IsOpen,
}
use agent_learning_loop.DataOps.Noted.{reject-Did, describe-Did, query-Did}
use agent_learning_loop.DataOps.Stepped.{update-Did, insert_one-Did}
use agent_learning_loop.DataOps.Did.{validated, committed, rolled_back}

is_validated :
    (s : TransactionState) (other : Bool)
    → (s != TransactionState.validated || other) ≡ false
    → s ≡ TransactionState.validated
is_validated s other r = ground (arith, transaction_beq_iff s TransactionState.validated, r)

module _ (sql : Sql) (lib : Stdlib) (action : DataOpsAction) (before : String)
    (e : DataOpsEnvironment sql) (h : before ≡ database_digest sql lib e.fixture e.connection) where
  begin-Did : (id : String) → Did sql lib e (begin_one sql lib action id before e).1
  begin-Did id = elim (Bool-cases (e.state != TransactionState.idle)) [
    | inl busy ↦ rw busy (reject-Did sql lib action before e h _ plain_entry refl refl refl)
    | inr free ↦ rw free (
        let entry : Entry = record plain_entry { transaction_id = some id } in
        let result = success (("transaction_state", JsonValue.str "active") ∷ []) in
        let after : DataOpsEnvironment sql = record e {
          connection = sql.begins e.connection;
          state = TransactionState.active;
          transaction_id = some id;
        } in
        began (audit_record sql lib action result before entry after) id
          (ground (arith, free, transaction_beq_iff e.state TransactionState.idle))
          (entered sql lib action result before entry e after h refl refl refl)
          (says sql lib action result before entry after))
  ]

  validate_checked-Did :
      (id : String) (unchanged : Option Bool)
      → IsOpen e.state
      → Did sql lib e (validate_checked sql lib action id before e unchanged).1
  validate_checked-Did id none o = raised
  validate_checked-Did id (some false) o =
      reject-Did sql lib action before e h _ plain_entry refl refl refl
  validate_checked-Did id (some true) o =
      let entry : Entry = record plain_entry {
        transaction_id = some id;
        validation_succeeded = true;
      } in
      let result = success (("constraints_valid", JsonValue.bool true) ∷ []) in
      let after : DataOpsEnvironment sql = record e { state = TransactionState.validated } in
      validated (audit_record sql lib action result before entry after) o
        (entered sql lib action result before entry e after h refl refl refl)
        (says sql lib action result before entry after)

  validate_open-Did :
      (same : JsonValue → JsonValue → Bool) (id : String) (error : Option String)
      → (error ≡ none → IsOpen e.state)
      → Did sql lib e (validate_open sql lib same action id before e error).1
  unfolding validate_open
  validate_open-Did same id (some category) o =
      reject-Did sql lib action before e h _ plain_entry refl refl refl
  validate_open-Did same id none o =
      if_intro (λ (x : Answer sql lib). Did sql lib e x.1)
        (sql.has_foreign_key_errors e.connection || not (sql.is_intact e.connection)) _ _
        (λ _. reject-Did sql lib action before e h _ plain_entry refl refl refl)
        (λ _. validate_checked-Did id _ (o refl))

  commit-Did : (id : String) → Did sql lib e (commit_one sql lib action id before e).1
  commit-Did id =
      elim (Bool-cases (e.state != TransactionState.validated || some id != e.transaction_id)) [
        | inl refused ↦
            rw refused (reject-Did sql lib action before e h _ plain_entry refl refl refl)
        | inr ready ↦ rw ready (
            let entry : Entry = record plain_entry {
              transaction_id = some id;
              terminal_outcome = some TerminalOutcome.committed;
            } in
            let result = success (
              ("terminal_state", JsonValue.str "committed")
              ∷ ("committed_row_count", JsonValue.int (pos e.attempted_row_count))
              ∷ []) in
            let after : DataOpsEnvironment sql = record e {
              connection = sql.commits e.connection;
              state = TransactionState.committed;
              committed_row_count = e.attempted_row_count;
            } in
            committed (audit_record sql lib action result before entry after)
              (is_validated e.state (some id != e.transaction_id) ready)
              (entered sql lib action result before entry e after h refl refl refl)
              (says sql lib action result before entry after))
      ]

  rollback_open-Did :
      (id : String) (error : Option String)
      → (error ≡ none → IsOpen e.state)
      → Did sql lib e (rollback_open sql lib action id before e error).1
  rollback_open-Did id (some category) o =
      reject-Did sql lib action before e h _ plain_entry refl refl refl
  rollback_open-Did id none o =
      let entry : Entry = record plain_entry {
        transaction_id = some id;
        terminal_outcome = some TerminalOutcome.rolled_back;
      } in
      let result = success (
        ("terminal_state", JsonValue.str "rolled_back")
        ∷ ("committed_row_count", JsonValue.int (pos 0))
        ∷ []) in
      let after : DataOpsEnvironment sql = record e {
        connection = sql.rolls_back e.connection;
        state = TransactionState.rolled_back;
        committed_row_count = 0;
      } in
      rolled_back (audit_record sql lib action result before entry after) (o refl)
        (entered sql lib action result before entry e after h refl refl refl)
        (says sql lib action result before entry after)

  dispatch-Did :
      (unsafe : String → Bool) (same : JsonValue → JsonValue → Bool) (parsed : Option Arguments)
      → Did sql lib e (dispatch sql lib unsafe same action before e parsed).1
  unfolding dispatch validate_one
  dispatch-Did unsafe same none = raised
  dispatch-Did unsafe same (some (Arguments.describe table)) =
      describe-Did sql lib action before e h table _ _
  dispatch-Did unsafe same (some (Arguments.query a)) = query-Did sql lib action before e h a _ _
  dispatch-Did unsafe same (some (begins id)) = begin-Did id
  dispatch-Did unsafe same (some (Arguments.update a)) = update-Did sql lib action before e h a
  dispatch-Did unsafe same (some (insertion a)) = insert_one-Did sql lib action before e h a
  dispatch-Did unsafe same (some (validate id)) =
      validate_open-Did same id _ (transaction_error-IsOpen sql lib id e)
  dispatch-Did unsafe same (some (commit id)) = commit-Did id
  dispatch-Did unsafe same (some (rollback id reason)) =
      rollback_open-Did id _ (transaction_error-IsOpen sql lib id e)

pub execute-Did :
    (sql : Sql) (lib : Stdlib) (unsafe : String → Bool) (same : JsonValue → JsonValue → Bool)
    (action : DataOpsAction) (e : DataOpsEnvironment sql)
    → Did sql lib e (execute sql lib unsafe same action e).1
unfolding execute
execute-Did sql lib unsafe same action e =
    if_intro (λ (x : Answer sql lib). Did sql lib e x.1)
      (contains e.fixture.task.allowed_tools action.tool_name) _ _
      (λ _. dispatch-Did sql lib action _ e refl unsafe same _)
      (λ _. reject-Did sql lib action _ e refl _ plain_entry refl refl refl)
