-- ===== src/DataOps/Stepped.antt =====
-- dataops_environment.py: what the calls that write may do.
use agent_learning_loop.Base.{
  ℕ, ◌+◌, String, Bool, true, false, not, ◌||◌, Option, none, some, List, [], ◌∷◌, lookup, length,
  subset, keys, ltb, nat_eq, string_eq, option_eq, ◌!=◌, JsonValue, Stdlib, ◌≡◌, refl, if_intro,
}
use agent_learning_loop.DataOps.Names.{
  dataops_tool_eq, TransactionState, transaction_eq, idempotent, DataOpsDecision,
}
use agent_learning_loop.DataOps.Contracts.{
  DataOpsAction, DataOpsToolResult, DataOpsTableScope, DataOpsTableFixture,
}
use agent_learning_loop.DataOps.Arguments.{UpdateRowsArguments, InsertRowArguments}
use agent_learning_loop.DataOps.Store.{Sql, Statement, changed, integrity_error, sqlite_error}
use agent_learning_loop.DataOps.Environment.{
  DataOpsEnvironment, Operation, Entry, Answer, audit_record, database_digest, fingerprint,
  primary_key,
}
use agent_learning_loop.DataOps.Writes.{
  transaction_error, remember, replay, replay_or, replay_entry, wrote, updated, update_matched,
  update_typed, update_in, update_open, update, inserted, sorted_row, same_names, column_names,
  value_or_null, insert_typed, insert_in, insert_open, insert_one, write_entry,
}
use agent_learning_loop.DataOps.Did.{
  IsOpen, Wrote, by_update, by_insert, Did, raised, wrote as did_wrote, entered, says,
  transaction_error-IsOpen,
}
use agent_learning_loop.DataOps.Noted.{answer-Did, reject-Did, remember_rejection-Did}

module _ (sql : Sql) (lib : Stdlib) (action : DataOpsAction) (before : String)
    (e : DataOpsEnvironment sql) (h : before ≡ database_digest sql lib e.fixture e.connection) where
  -- a rejection that a write remembers
  abbrev told : String → String → String → Entry
  told transaction_id operation_id table = write_entry transaction_id operation_id table

  wrote-Did :
      (operation_id : String) (result : DataOpsToolResult) (entry : Entry) (n : ℕ) (db : sql.Db)
      → IsOpen e.state
      → Wrote sql e.connection db
      → entry.decision ≡ DataOpsDecision.executed
      → entry.validation_succeeded ≡ false
      → entry.terminal_outcome ≡ none
      → Did sql lib e (wrote sql lib action before e operation_id result entry n db).1
  wrote-Did operation_id result entry n db o w x v t =
      let full : Entry = record entry { changed = n; cardinality_checked = true } in
      let after : DataOpsEnvironment sql = remember sql lib action operation_id result (record e {
        connection = db;
        attempted_row_count = e.attempted_row_count + n;
        state = TransactionState.active;
      }) in
      let s = says sql lib action result before full after in
      did_wrote (audit_record sql lib action result before full after) n db after.operations o w
        (entered sql lib action result before full e after h refl refl refl)
        (record {
          changes = s.changes;
          write_is = cc (s.write_is, x);
          validation_is = cc (s.validation_is, v);
          outcome_is = cc (s.outcome_is, t);
        })

  replay-Did :
      (operation_id : String) (previous : Option Operation) (rest : Answer sql lib)
      → Did sql lib e rest.1
      → Did sql lib e (replay_or sql lib action operation_id before e previous rest).1
  unfolding replay
  replay-Did operation_id none rest d = d
  replay-Did operation_id (some previous) rest d =
      if_intro (λ (x : Answer sql lib). Did sql lib e x.1)
        (previous.fingerprint != fingerprint lib action) _ _
        (λ _.
          reject-Did sql lib action before e h _ (replay_entry action operation_id) refl refl refl)
        (λ _.
          answer-Did sql lib action before e h _
            (record (replay_entry action operation_id) {
              decision = idempotent;
              idempotency_hit = true;
            })
            refl refl refl refl)

  updated-Did :
      (a : UpdateRowsArguments) (primary_keys : List JsonValue) (s : Statement sql.Db)
      → IsOpen e.state
      → sql.update a.table (sorted_row a.values) (sorted_row a.where_row) e.connection ≡ s
      → Did sql lib e (updated sql lib action before e a primary_keys s).1
  updated-Did a ks (changed n db) o made =
      wrote-Did a.operation_id _
        (record (write_entry a.transaction_id a.operation_id a.table) {
          columns = keys (sorted_row a.values);
          matched = length ks;
          primary_keys = some ks;
        })
        n db o (by_update made) refl refl refl
  updated-Did a ks integrity_error o made = raised
  updated-Did a ks sqlite_error o made = raised

  update_matched-Did :
      (a : UpdateRowsArguments) (scope : DataOpsTableScope) (ks : Option (List JsonValue))
      → IsOpen e.state
      → Did sql lib e (update_matched sql lib action before e a scope ks).1
  update_matched-Did a scope none o = raised
  update_matched-Did a scope (some ks) o =
      if_intro (λ (x : Answer sql lib). Did sql lib e x.1)
        (length ks != a.expected_match_count || ltb scope.max_mutated_rows (length ks)) _ _
        (λ _.
          remember_rejection-Did sql lib action before e h a.operation_id _
            (record (write_entry a.transaction_id a.operation_id a.table) {
              matched = length ks;
              cardinality_checked = true;
            })
            refl refl refl)
        (λ _. updated-Did a ks _ o refl)

  update_typed-Did :
      (a : UpdateRowsArguments) (scope : DataOpsTableScope) (t : DataOpsTableFixture)
      (typed : Option Bool)
      → IsOpen e.state
      → Did sql lib e (update_typed sql lib action before e a scope t typed).1
  update_typed-Did a scope t none o = raised
  update_typed-Did a scope t (some false) o =
      remember_rejection-Did sql lib action before e h a.operation_id _
        (told a.transaction_id a.operation_id a.table) refl refl refl
  update_typed-Did a scope t (some true) o = update_matched-Did a scope _ o

  update_in-Did :
      (a : UpdateRowsArguments) (scope : Option DataOpsTableScope) (t : Option DataOpsTableFixture)
      → IsOpen e.state
      → Did sql lib e (update_in sql lib action before e a scope t).1
  update_in-Did a none t o =
      remember_rejection-Did sql lib action before e h a.operation_id _
        (told a.transaction_id a.operation_id a.table) refl refl refl
  update_in-Did a (some scope) none o =
      remember_rejection-Did sql lib action before e h a.operation_id _
        (told a.transaction_id a.operation_id a.table) refl refl refl
  update_in-Did a (some scope) (some t) o =
      if_intro (λ (x : Answer sql lib). Did sql lib e x.1)
        (not (subset (keys a.where_row) scope.predicate_columns)
          || not (subset (keys a.values) scope.mutable_columns))
        _ _
        (λ _.
          remember_rejection-Did sql lib action before e h a.operation_id _
            (told a.transaction_id a.operation_id a.table) refl refl refl)
        (λ _. update_typed-Did a scope t _ o)

  update_open-Did :
      (a : UpdateRowsArguments) (error : Option String)
      → (error ≡ none → IsOpen e.state)
      → Did sql lib e (update_open sql lib action before e a error).1
  update_open-Did a (some category) o =
      remember_rejection-Did sql lib action before e h a.operation_id _
        (told a.transaction_id a.operation_id a.table) refl refl refl
  update_open-Did a none o = update_in-Did a _ _ (o refl)

  inserted-Did :
      (a : InsertRowArguments) (t : DataOpsTableFixture) (s : Statement sql.Db)
      → IsOpen e.state
      → sql.insert_row a.table (sorted_row a.row) e.connection ≡ s
      → Did sql lib e (inserted sql lib action before e a t s).1
  unfolding lookup
  inserted-Did a t (changed n db) o made =
      wrote-Did a.operation_id _
        (record (write_entry a.transaction_id a.operation_id a.table) {
          columns = keys (sorted_row a.row);
          primary_keys = some (value_or_null (lookup (primary_key t) a.row) ∷ []);
        })
        1 db o (by_insert made) refl refl refl
  inserted-Did a t integrity_error o made =
      remember_rejection-Did sql lib action before e h a.operation_id _
        (told a.transaction_id a.operation_id a.table) refl refl refl
  inserted-Did a t sqlite_error o made = raised

  insert_typed-Did :
      (a : InsertRowArguments) (t : DataOpsTableFixture) (typed : Option Bool)
      → IsOpen e.state
      → Did sql lib e (insert_typed sql lib action before e a t typed).1
  insert_typed-Did a t none o = raised
  insert_typed-Did a t (some false) o =
      remember_rejection-Did sql lib action before e h a.operation_id _
        (told a.transaction_id a.operation_id a.table) refl refl refl
  insert_typed-Did a t (some true) o = inserted-Did a t _ o refl

  insert_in-Did :
      (a : InsertRowArguments) (scope : Option DataOpsTableScope) (t : Option DataOpsTableFixture)
      → IsOpen e.state
      → Did sql lib e (insert_in sql lib action before e a scope t).1
  insert_in-Did a none t o =
      remember_rejection-Did sql lib action before e h a.operation_id _
        (told a.transaction_id a.operation_id a.table) refl refl refl
  insert_in-Did a (some scope) none o =
      remember_rejection-Did sql lib action before e h a.operation_id _
        (told a.transaction_id a.operation_id a.table) refl refl refl
  insert_in-Did a (some scope) (some t) o =
      if_intro (λ (x : Answer sql lib). Did sql lib e x.1)
        (not scope.allow_insert || not (same_names (keys a.row) (column_names (some t)))) _ _
        (λ _.
          remember_rejection-Did sql lib action before e h a.operation_id _
            (told a.transaction_id a.operation_id a.table) refl refl refl)
        (λ _. insert_typed-Did a t _ o)

  insert_open-Did :
      (a : InsertRowArguments) (error : Option String)
      → (error ≡ none → IsOpen e.state)
      → Did sql lib e (insert_open sql lib action before e a error).1
  insert_open-Did a (some category) o =
      remember_rejection-Did sql lib action before e h a.operation_id _
        (told a.transaction_id a.operation_id a.table) refl refl refl
  insert_open-Did a none o = insert_in-Did a _ _ (o refl)

  pub update-Did : (a : UpdateRowsArguments) → Did sql lib e (update sql lib action before e a).1
  unfolding update
  update-Did a = replay-Did a.operation_id _ _ (
      update_open-Did a (transaction_error sql lib a.transaction_id e)
        (transaction_error-IsOpen sql lib a.transaction_id e))

  pub insert_one-Did :
      (a : InsertRowArguments) → Did sql lib e (insert_one sql lib action before e a).1
  unfolding insert_one
  insert_one-Did a = replay-Did a.operation_id _ _ (
      insert_open-Did a (transaction_error sql lib a.transaction_id e)
        (transaction_error-IsOpen sql lib a.transaction_id e))
