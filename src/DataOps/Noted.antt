-- ===== src/DataOps/Noted.antt =====
-- dataops_environment.py: the calls that only add to the audit.
use agent_learning_loop.Base.{
  String, Bool, true, false, not, ◌&&◌, ◌||◌, Option, none, some, List, subset, keys, nat_eq,
  string_eq, option_eq, Stdlib, ◌≡◌, refl, if_intro,
}
use agent_learning_loop.DataOps.Names.{dataops_tool_eq, transaction_eq, DataOpsDecision}
use agent_learning_loop.DataOps.Contracts.{
  DataOpsAction, DataOpsToolResult, Row, DataOpsTableScope, DataOpsTableFixture,
}
use agent_learning_loop.DataOps.Arguments.{QueryRowsArguments}
use agent_learning_loop.DataOps.Store.{Sql}
use agent_learning_loop.DataOps.Environment.{
  DataOpsEnvironment, Entry, plain_entry, Answer, audit_record, answer, reject, rejection,
  database_digest, mapping_types_match,
}
use agent_learning_loop.DataOps.Reads.{describe_in, query_in, query_typed, give_rows}
use agent_learning_loop.DataOps.Writes.{remember_rejection, remember}
use agent_learning_loop.DataOps.Did.{Did, is_executed, raised, noted, entered, says}

module _ (sql : Sql) (lib : Stdlib) (action : DataOpsAction) (before : String)
    (e : DataOpsEnvironment sql) (h : before ≡ database_digest sql lib e.fixture e.connection) where
  -- a result that is recorded with an entry that tells of no effect
  pub answer-Did :
      (result : DataOpsToolResult) (entry : Entry)
      → entry.changed ≡ 0
      → is_executed entry.decision && entry.cardinality_checked ≡ false
      → entry.validation_succeeded ≡ false
      → entry.terminal_outcome ≡ none
      → Did sql lib e (answer sql lib action result before entry e).1
  answer-Did result entry c w v t =
      let s = says sql lib action result before entry e in
      noted (audit_record sql lib action result before entry e) e.operations
        (entered sql lib action result before entry e e h refl refl refl)
        (record {
          changes = cc (s.changes, c);
          write_is = cc (s.write_is, w);
          validation_is = cc (s.validation_is, v);
          outcome_is = cc (s.outcome_is, t);
        })

  pub reject-Did :
      (category : String) (entry : Entry)
      → entry.changed ≡ 0
      → entry.validation_succeeded ≡ false
      → entry.terminal_outcome ≡ none
      → Did sql lib e (reject sql lib action category before entry e).1
  reject-Did category entry c v t =
      answer-Did (rejection category) (record entry { decision = DataOpsDecision.rejected }) c refl
        v t

  pub remember_rejection-Did :
      (operation_id category : String) (entry : Entry)
      → entry.changed ≡ 0
      → entry.validation_succeeded ≡ false
      → entry.terminal_outcome ≡ none
      → Did sql lib e (remember_rejection sql lib action operation_id category before entry e).1
  remember_rejection-Did operation_id category entry c v t =
      let rejected_entry = record entry { decision = DataOpsDecision.rejected } in
      let s = says sql lib action (rejection category) before rejected_entry e in
      noted (audit_record sql lib action (rejection category) before rejected_entry e)
        (remember sql lib action operation_id (rejection category) e).operations
        (entered sql lib action (rejection category) before rejected_entry e e h refl refl refl)
        (record {
          changes = cc (s.changes, c);
          write_is = s.write_is;
          validation_is = cc (s.validation_is, v);
          outcome_is = cc (s.outcome_is, t);
        })

  pub describe-Did :
      (table : String) (scope : Option DataOpsTableScope) (t : Option DataOpsTableFixture)
      → Did sql lib e (describe_in sql lib action table before e scope t).1
  describe-Did table none t =
      reject-Did _ (record plain_entry { table = some table }) refl refl refl
  describe-Did table (some scope) none =
      reject-Did _ (record plain_entry { table = some table }) refl refl refl
  describe-Did table (some scope) (some t) = answer-Did _ _ refl refl refl refl

  give_rows-Did :
      (table : String) (rows : Option (List Row))
      → Did sql lib e (give_rows sql lib action table before e rows).1
  give_rows-Did table none = raised
  give_rows-Did table (some rows) = answer-Did _ _ refl refl refl refl

  query_typed-Did :
      (a : QueryRowsArguments) (t : DataOpsTableFixture) (typed : Option Bool)
      → Did sql lib e (query_typed sql lib action a before e t typed).1
  query_typed-Did a t none = raised
  query_typed-Did a t (some false) =
      reject-Did _ (record plain_entry { table = some a.table }) refl refl refl
  query_typed-Did a t (some true) = give_rows-Did _ _

  pub query-Did :
      (a : QueryRowsArguments) (scope : Option DataOpsTableScope) (t : Option DataOpsTableFixture)
      → Did sql lib e (query_in sql lib action a before e scope t).1
  query-Did a none t = reject-Did _ (record plain_entry { table = some a.table }) refl refl refl
  query-Did a (some scope) none =
      reject-Did _ (record plain_entry { table = some a.table }) refl refl refl
  query-Did a (some scope) (some t) =
      if_intro (λ (x : Answer sql lib). Did sql lib e x.1)
        (not (subset a.columns scope.readable_columns)
          || not (subset (keys a.where_row) scope.predicate_columns))
        _ _ (λ _. reject-Did _ (record plain_entry { table = some a.table }) refl refl refl)
        (λ _. query_typed-Did a t (mapping_types_match t a.where_row))
