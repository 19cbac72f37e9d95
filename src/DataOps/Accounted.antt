-- ===== src/DataOps/Accounted.antt =====
-- dataops_environment.py: the audit of any sequence of calls accounts for what happened.
use agent_learning_loop.Base.{
  ℕ, ◌+◌, String, Bool, true, false, not, ◌||◌, Option, none, some, is_some, List, [], ◌∷◌, ◌++◌,
  JsonValue, Stdlib, if◌then◌else◌, string_eq, ◌==◌, ◌≡◌, inl, inr, refl, ap, ◌∙◌, arith,
}
use agent_learning_loop.DataOps.Names.{TransactionState, transaction_eq, TerminalOutcome}
use agent_learning_loop.DataOps.Contracts.{DataOpsAction, DataOpsAuditRecord, DataOpsTaskFixture}
use agent_learning_loop.DataOps.Store.{Sql}
use agent_learning_loop.DataOps.Environment.{DataOpsEnvironment, database_digest, start}
use agent_learning_loop.DataOps.Execute.{execute, execute_all}
use agent_learning_loop.DataOps.Did.{
  IsOpen, Entered, Says, Did, raised, noted, began, wrote, validated, committed, rolled_back,
}
use agent_learning_loop.DataOps.Ran.{execute-Did}
use agent_learning_loop.DataOps.Trails.{
  Trail, nothing, leads, changed_rows, says_committed, ready_after, commits_validated,
  changed_rows-append, ready_after-append, commits_validated-append,
}

module _ (sql : Sql) (lib : Stdlib) where
  pub record IsAccounted (run_id : String) (fixture : DataOpsTaskFixture) (first : String)
      (e : DataOpsEnvironment sql) : Type 0 where
    pub same_fixture : e.fixture ≡ fixture
    pub same_run : e.run_id ≡ run_id
    -- the records lead from the first digest to that of the database as it is
    pub trail :
        Trail run_id fixture.task.task_id first e.audit
          (database_digest sql lib fixture e.connection)
    -- the counters are what the records and the state say
    pub attempted : e.attempted_row_count ≡ changed_rows e.audit
    pub kept :
        e.committed_row_count
        ≡ (if e.state == TransactionState.committed then e.attempted_row_count else 0)
    -- only what is validated is committed
    pub ready : ready_after false e.audit ≡ (e.state == TransactionState.validated)
    pub in_order : commits_validated false e.audit ≡ true

  module _ (run_id : String) (fixture : DataOpsTaskFixture) (first : String)
      (e : DataOpsEnvironment sql) (a : IsAccounted run_id fixture first e) where
    -- the trail with the record of a call
    Entered-Trail :
        (r : DataOpsAuditRecord) (db : sql.Db)
        → Entered sql lib e db r
        → Trail run_id fixture.task.task_id first
            (e.audit ++ r ∷ [])
            (database_digest sql lib fixture db)
    Entered-Trail r db n =
        leads r a.trail n.numbered (n.of_run ∙ a.same_run)
          (n.of_task ∙ ap (λ (f : DataOpsTaskFixture). f.task.task_id) a.same_fixture)
          (n.from_digest
            ∙ ap (λ (f : DataOpsTaskFixture). database_digest sql lib f e.connection)
                a.same_fixture)
          (n.to_digest
            ∙ ap (λ (f : DataOpsTaskFixture). database_digest sql lib f db) a.same_fixture)

    grown :
        (r : DataOpsAuditRecord) (n : ℕ) (w v : Bool) (o : Option TerminalOutcome)
        → Says sql lib r n w v o
        → changed_rows (e.audit ++ r ∷ []) ≡ e.attempted_row_count + n
    grown r n w v o s = omega (arith, changed_rows-append e.audit r, s.changes, a.attempted)

    ready_now :
        (r : DataOpsAuditRecord) (n : ℕ) (w v : Bool) (o : Option TerminalOutcome)
        → Says sql lib r n w v o
        → ready_after false (e.audit ++ r ∷ []) ≡ (
            if v
            then true
            else if w || is_some o
            then false
            else e.state == TransactionState.validated)
    ready_now r n w v o s =
        ready_after-append false e.audit r
        ∙ rw (s.write_is, s.validation_is, s.outcome_is, a.ready) refl

    order_now :
        (r : DataOpsAuditRecord) (n : ℕ) (w v : Bool) (o : Option TerminalOutcome)
        → Says sql lib r n w v o
        → ((e.state == TransactionState.validated) || not (says_committed o)) ≡ true
        → commits_validated false (e.audit ++ r ∷ []) ≡ true
    order_now r n w v o s h =
        commits_validated-append false e.audit r a.in_order (rw (s.outcome_is, a.ready) h)

    -- an open transaction has committed nothing
    open_keeps : IsOpen e.state → e.committed_row_count ≡ 0
    open_keeps (inl active) = a.kept ∙ rw active refl
    open_keeps (inr ready) = a.kept ∙ rw ready refl

    Did-IsAccounted :
        (e' : DataOpsEnvironment sql) → Did sql lib e e' → IsAccounted run_id fixture first e'
    Did-IsAccounted e' raised = a
    Did-IsAccounted e' (noted r ops n s) = record {
      same_fixture = a.same_fixture;
      same_run = a.same_run;
      trail = Entered-Trail r e.connection n;
      attempted = omega (arith, grown r 0 false false none s);
      kept = a.kept;
      ready = ready_now r 0 false false none s;
      in_order = order_now r 0 false false none s (ground arith);
    }
    Did-IsAccounted e' (began r id idle n s) = record {
      same_fixture = a.same_fixture;
      same_run = a.same_run;
      trail = Entered-Trail r (sql.begins e.connection) n;
      attempted = omega (arith, grown r 0 false false none s);
      kept = a.kept ∙ rw idle refl;
      ready = ready_now r 0 false false none s ∙ rw idle refl;
      in_order = order_now r 0 false false none s (ground arith);
    }
    Did-IsAccounted e' (wrote r n db ops o w en s) = record {
      same_fixture = a.same_fixture;
      same_run = a.same_run;
      trail = Entered-Trail r db en;
      attempted = omega (arith, grown r n true false none s);
      kept = open_keeps o;
      ready = ready_now r n true false none s;
      in_order = order_now r n true false none s (ground arith);
    }
    Did-IsAccounted e' (validated r o n s) = record {
      same_fixture = a.same_fixture;
      same_run = a.same_run;
      trail = Entered-Trail r e.connection n;
      attempted = omega (arith, grown r 0 false true none s);
      kept = open_keeps o;
      ready = ready_now r 0 false true none s;
      in_order = order_now r 0 false true none s (ground arith);
    }
    Did-IsAccounted e' (committed r v n s) = record {
      same_fixture = a.same_fixture;
      same_run = a.same_run;
      trail = Entered-Trail r (sql.commits e.connection) n;
      attempted = omega (arith, grown r 0 false false (some TerminalOutcome.committed) s);
      kept = refl;
      ready = ready_now r 0 false false (some TerminalOutcome.committed) s;
      in_order = order_now r 0 false false (some TerminalOutcome.committed) s (rw v refl);
    }
    Did-IsAccounted e' (rolled_back r o n s) = record {
      same_fixture = a.same_fixture;
      same_run = a.same_run;
      trail = Entered-Trail r (sql.rolls_back e.connection) n;
      attempted = omega (arith, grown r 0 false false (some TerminalOutcome.rolled_back) s);
      kept = refl;
      ready = ready_now r 0 false false (some TerminalOutcome.rolled_back) s;
      in_order = order_now r 0 false false (some TerminalOutcome.rolled_back) s (ground arith);
    }

  start-IsAccounted :
      (run_id : String) (fixture : DataOpsTaskFixture)
      → IsAccounted run_id fixture
          (database_digest sql lib fixture (sql.create_database fixture.private.tables))
          (start sql lib fixture run_id)
  unfolding start
  start-IsAccounted run_id fixture = record {
    same_fixture = refl;
    same_run = refl;
    trail = nothing;
    attempted = refl;
    kept = refl;
    ready = refl;
    in_order = refl;
  }

  runs-IsAccounted :
      (unsafe : String → Bool) (same : JsonValue → JsonValue → Bool) (run_id first : String)
      (fixture : DataOpsTaskFixture) (actions : List DataOpsAction) (e : DataOpsEnvironment sql)
      → IsAccounted run_id fixture first e
      → IsAccounted run_id fixture first (execute_all sql lib unsafe same actions e)
  unfolding execute_all
  runs-IsAccounted unsafe same run_id first fixture [] e a = a
  runs-IsAccounted unsafe same run_id first fixture (action ∷ actions) e a =
      runs-IsAccounted unsafe same run_id first fixture actions
        (execute sql lib unsafe same action e).1
        (Did-IsAccounted run_id fixture first e a (execute sql lib unsafe same action e).1
          (execute-Did sql lib unsafe same action e))

-- After any sequence of actions from the start of a run whose id is not empty, whether they are
-- executed, rejected or raise: the audit is numbered from 0, all of one run and task, and leads from the digest of the initial tables
-- to that of the tables as they are, each record from where the one before it ended; the attempted
-- count is the sum of the rows that the records say were changed, and the committed count is that in
-- a committed transaction and 0 in any other; each commit follows a validation with no write since.
pub execute_all-IsAccounted :
    (sql : Sql) (lib : Stdlib) (unsafe : String → Bool) (same : JsonValue → JsonValue → Bool)
    (actions : List DataOpsAction) (fixture : DataOpsTaskFixture) (run_id : String)
    → (run_id == "") ≡ false
    → IsAccounted sql lib run_id fixture
        (database_digest sql lib fixture (sql.create_database fixture.private.tables))
        (execute_all sql lib unsafe same actions (start sql lib fixture run_id))
execute_all-IsAccounted sql lib unsafe same actions fixture run_id named =
    runs-IsAccounted sql lib unsafe same run_id _ fixture actions (start sql lib fixture run_id)
      (start-IsAccounted sql lib run_id fixture)
