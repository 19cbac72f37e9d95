-- ===== src/DataOps/Remembered.antt =====
-- dataops_environment.py: what a write leaves of itself, by the ways that it ends.
use agent_learning_loop.Base.{
  ℕ, String, Bool, true, false, not, ◌||◌, Option, none, some, List, [], ◌∷◌, lookup, keys, subset,
  length, ltb, nat_eq, ◌!=◌, string_eq, beq_refl, JsonValue, Stdlib, if_intro, lookup-insert, ◌≡◌,
  refl, ◌∙◌,
}
use agent_learning_loop.DataOps.Contracts.{
  DataOpsAction, DataOpsToolResult, DataOpsTableScope, DataOpsTableFixture,
}
use agent_learning_loop.DataOps.Arguments.{UpdateRowsArguments, InsertRowArguments}
use agent_learning_loop.DataOps.Store.{Sql, Statement, changed, integrity_error, sqlite_error}
use agent_learning_loop.DataOps.Environment.{
  DataOpsEnvironment, Entry, Answer, rejection, fingerprint, primary_key,
}
use agent_learning_loop.DataOps.Writes.{
  remember_rejection, with_operation, wrote, updated, update_matched, update_typed, update_in,
  update_open, inserted, insert_typed, insert_in, insert_open, write_entry, sorted_row,
  value_or_null, same_names, column_names,
}

module _ (sql : Sql) (lib : Stdlib) (action : DataOpsAction) (before : String)
    (e : DataOpsEnvironment sql) where
  -- A property of the answers that a write may end with.
  pub record Ends (operation_id : String) (P : Answer sql lib → Type 0) : Type 0 where
    pub raised : P (none, e)
    pub rejected :
        (category : String) (entry : Entry)
        → P (remember_rejection sql lib action operation_id category before entry e)
    pub wrote_rows :
        (result : DataOpsToolResult) (entry : Entry) (n : ℕ) (db : sql.Db)
        → P (wrote sql lib action before e operation_id result entry n db)

  module _ (P : Answer sql lib → Type 0) (a : UpdateRowsArguments) (h : Ends a.operation_id P) where
    updated-ends :
        (ks : List JsonValue) (s : Statement sql.Db) → P (updated sql lib action before e a ks s)
    updated-ends ks (changed n db) =
        h.wrote_rows _
          (record (write_entry a.transaction_id a.operation_id a.table) {
            columns = keys (sorted_row a.values);
            matched = length ks;
            primary_keys = some ks;
          })
          n db
    updated-ends ks integrity_error = h.raised
    updated-ends ks sqlite_error = h.raised

    matched-ends :
        (scope : DataOpsTableScope) (ks : Option (List JsonValue))
        → P (update_matched sql lib action before e a scope ks)
    matched-ends scope none = h.raised
    matched-ends scope (some ks) =
        if_intro P (length ks != a.expected_match_count || ltb scope.max_mutated_rows (length ks)) _
          _
          (λ _. h.rejected _ (record (write_entry a.transaction_id a.operation_id a.table) {
            matched = length ks;
            cardinality_checked = true;
          }))
          (λ _. updated-ends ks _)

    typed-ends :
        (scope : DataOpsTableScope) (t : DataOpsTableFixture) (typed : Option Bool)
        → P (update_typed sql lib action before e a scope t typed)
    typed-ends scope t none = h.raised
    typed-ends scope t (some false) =
        h.rejected _ (write_entry a.transaction_id a.operation_id a.table)
    typed-ends scope t (some true) = matched-ends scope _

    in-ends :
        (scope : Option DataOpsTableScope) (t : Option DataOpsTableFixture)
        → P (update_in sql lib action before e a scope t)
    in-ends none t = h.rejected _ (write_entry a.transaction_id a.operation_id a.table)
    in-ends (some scope) none = h.rejected _ (write_entry a.transaction_id a.operation_id a.table)
    in-ends (some scope) (some t) =
        if_intro P
          (not (subset (keys a.where_row) scope.predicate_columns)
            || not (subset (keys a.values) scope.mutable_columns))
          _ _ (λ _. h.rejected _ (write_entry a.transaction_id a.operation_id a.table))
          (λ _. typed-ends scope t _)

    pub update_open-ends : (error : Option String) → P (update_open sql lib action before e a error)
    update_open-ends (some category) =
        h.rejected _ (write_entry a.transaction_id a.operation_id a.table)
    update_open-ends none = in-ends _ _

  module _ (P : Answer sql lib → Type 0) (a : InsertRowArguments) (h : Ends a.operation_id P) where
    inserted-ends :
        (t : DataOpsTableFixture) (s : Statement sql.Db)
        → P (inserted sql lib action before e a t s)
    unfolding lookup
    inserted-ends t (changed n db) =
        h.wrote_rows _
          (record (write_entry a.transaction_id a.operation_id a.table) {
            columns = keys (sorted_row a.row);
            primary_keys = some (value_or_null (lookup (primary_key t) a.row) ∷ []);
          })
          1 db
    inserted-ends t integrity_error =
        h.rejected _ (write_entry a.transaction_id a.operation_id a.table)
    inserted-ends t sqlite_error = h.raised

    typed_row-ends :
        (t : DataOpsTableFixture) (typed : Option Bool)
        → P (insert_typed sql lib action before e a t typed)
    typed_row-ends t none = h.raised
    typed_row-ends t (some false) =
        h.rejected _ (write_entry a.transaction_id a.operation_id a.table)
    typed_row-ends t (some true) = inserted-ends t _

    in_table-ends :
        (scope : Option DataOpsTableScope) (t : Option DataOpsTableFixture)
        → P (insert_in sql lib action before e a scope t)
    in_table-ends none t = h.rejected _ (write_entry a.transaction_id a.operation_id a.table)
    in_table-ends (some scope) none =
        h.rejected _ (write_entry a.transaction_id a.operation_id a.table)
    in_table-ends (some scope) (some t) =
        if_intro P (not scope.allow_insert || not (same_names (keys a.row) (column_names (some t))))
          _ _ (λ _. h.rejected _ (write_entry a.transaction_id a.operation_id a.table))
          (λ _. typed_row-ends t _)

    pub insert_open-ends : (error : Option String) → P (insert_open sql lib action before e a error)
    insert_open-ends (some category) =
        h.rejected _ (write_entry a.transaction_id a.operation_id a.table)
    insert_open-ends none = in_table-ends _ _

  -- A result that is given is remembered, with the fingerprint of the action.
  pub record Remembers (operation_id : String) (x : Answer sql lib) : Type 0 where
    pub same_fixture : x.1.fixture ≡ e.fixture
    pub found :
        (r : DataOpsToolResult)
        → x.0 ≡ some r
        → lookup operation_id x.1.operations
          ≡ some (record { fingerprint = fingerprint lib action; result = r })

  lookup-with_operation :
      (operation_id : String) (result r : DataOpsToolResult)
      → ◌≡◌ {A = Option DataOpsToolResult} (some result) (some r)
      → lookup operation_id (with_operation sql lib action operation_id result e.operations)
        ≡ some (record { fingerprint = fingerprint lib action; result = r })
  unfolding with_operation
  lookup-with_operation operation_id result r h =
      lookup-insert operation_id operation_id
        (record { fingerprint = fingerprint lib action; result = result }) e.operations
      ∙ rw (beq_refl operation_id) (cc h)

  pub Remembers-ends : (operation_id : String) → Ends operation_id (Remembers operation_id)
  Remembers-ends operation_id = record {
    raised = record { same_fixture = refl; found = λ r h. absurd (cc h) };
    rejected = λ category entry. record {
      same_fixture = refl;
      found = lookup-with_operation operation_id (rejection category);
    };
    wrote_rows = λ result entry n db. record {
      same_fixture = refl;
      found = lookup-with_operation operation_id result;
    };
  }
