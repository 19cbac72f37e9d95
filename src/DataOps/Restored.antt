-- ===== src/DataOps/Restored.antt =====
-- dataops_environment.py: what a rolled back transaction leaves.
use agent_learning_loop.Base.{
  String, Bool, List, [], ◌∷◌, map, JsonValue, Stdlib, ◌≡◌, inl, inr, refl, ap, ◌∙◌,
}
use agent_learning_loop.DataOps.Names.{TransactionState}
use agent_learning_loop.DataOps.Contracts.{
  Row, DataOpsAction, DataOpsTableFixture, DataOpsTaskFixture,
}
use agent_learning_loop.DataOps.Store.{
  Sql, InTransaction, begun, updated, inserted, RollsBack, sort_by,
}
use agent_learning_loop.DataOps.Environment.{
  DataOpsEnvironment, Tables, primary_key, read_all_tables, start,
}
use agent_learning_loop.DataOps.Execute.{execute, execute_all}
use agent_learning_loop.DataOps.Did.{
  IsOpen, Wrote, by_update, by_insert, Did, raised, noted, began, wrote, validated, committed,
  rolled_back,
}
use agent_learning_loop.DataOps.Ran.{execute-Did}

map_same : {A B : Type 0} (f g : A → B) (xs : List A) → ((x : A) → f x ≡ g x) → map f xs ≡ map g xs
map_same f g [] h = refl
map_same f g (x ∷ xs) h = cc (h x, map_same f g xs h)

module _ (sql : Sql) (lib : Stdlib) where
  -- A database in which every table of a fixture reads as in another.
  read-same :
      (fixture : DataOpsTaskFixture) (d d' : sql.Db)
      → ((table key : String) → sql.select_all table key d ≡ sql.select_all table key d')
      → read_all_tables sql lib fixture d ≡ read_all_tables sql lib fixture d'
  unfolding read_all_tables
  read-same fixture d d' h =
      map_same (λ (t : DataOpsTableFixture). (t.name, sql.select_all t.name (primary_key t) d))
        (λ (t : DataOpsTableFixture). (t.name, sql.select_all t.name (primary_key t) d'))
        (sort_by (λ (t : DataOpsTableFixture). t.name) fixture.private.tables)
        (λ (t : DataOpsTableFixture).
          ap (λ (rows : List Row). (t.name, rows)) (h t.name (primary_key t)))

  -- the database that an open transaction began from
  record Base (tables : Tables) (e : DataOpsEnvironment sql) : Type 0 where
    origin : sql.Db
    within : InTransaction sql origin e.connection
    read : read_all_tables sql lib e.fixture origin ≡ tables

  -- what the database reads, by the state
  record Reads (tables : Tables) (e : DataOpsEnvironment sql) : Type 0 where
    idle : e.state ≡ TransactionState.idle → read_all_tables sql lib e.fixture e.connection ≡ tables
    undone :
        e.state ≡ TransactionState.rolled_back
        → read_all_tables sql lib e.fixture e.connection ≡ tables
    pending : IsOpen e.state → Base tables e

  wrote-InTransaction :
      (d0 d d' : sql.Db) → InTransaction sql d0 d → Wrote sql d d' → InTransaction sql d0 d'
  wrote-InTransaction d0 d d' i (by_update made) = updated i made
  wrote-InTransaction d0 d d' i (by_insert made) = inserted i made

  closed : {A : Type 0} (s : TransactionState) → s ≡ TransactionState.committed → IsOpen s → A
  closed s c (inl o) = absurd (cc (c, o))
  closed s c (inr o) = absurd (cc (c, o))

  idle_closed : {A : Type 0} (s : TransactionState) → s ≡ TransactionState.idle → IsOpen s → A
  idle_closed s c (inl o) = absurd (cc (c, o))
  idle_closed s c (inr o) = absurd (cc (c, o))

  undone_closed :
      {A : Type 0} (s : TransactionState) → s ≡ TransactionState.rolled_back → IsOpen s → A
  undone_closed s c (inl o) = absurd (cc (c, o))
  undone_closed s c (inr o) = absurd (cc (c, o))

  Did-Reads :
      (tables : Tables) (e e' : DataOpsEnvironment sql)
      → RollsBack sql
      → Reads tables e
      → Did sql lib e e'
      → Reads tables e'
  unfolding read_all_tables
  Did-Reads tables e e' law h raised = h
  Did-Reads tables e e' law h (noted r ops n s) = record {
    idle = h.idle;
    undone = h.undone;
    pending = λ o.
        let base = h.pending o in
        record { origin = base.origin; within = base.within; read = base.read };
  }
  Did-Reads tables e e' law h (began r id idle n s) = record {
    idle = λ i. absurd (cc i);
    undone = λ i. absurd (cc i);
    pending = λ _. record { origin = e.connection; within = begun; read = h.idle idle };
  }
  Did-Reads tables e e' law h (wrote r n db ops o w en s) =
      let base = h.pending o in
      record {
        idle = λ i. absurd (cc i);
        undone = λ i. absurd (cc i);
        pending = λ _. record {
          origin = base.origin;
          within = wrote-InTransaction base.origin e.connection db base.within w;
          read = base.read;
        };
      }
  Did-Reads tables e e' law h (validated r o n s) =
      let base = h.pending o in
      record {
        idle = λ i. absurd (cc i);
        undone = λ i. absurd (cc i);
        pending = λ _. record { origin = base.origin; within = base.within; read = base.read };
      }
  Did-Reads tables e e' law h (committed r v n s) = record {
    idle = λ i. absurd (cc i);
    undone = λ i. absurd (cc i);
    pending = closed TransactionState.committed refl;
  }
  Did-Reads tables e e' law h (rolled_back r o n s) =
      let base = h.pending o in
      record {
        idle = λ i. absurd (cc i);
        undone = λ _.
            read-same e.fixture (sql.rolls_back e.connection) base.origin
              (λ (table key : String). law base.origin e.connection table key base.within)
            ∙ base.read;
        pending = undone_closed TransactionState.rolled_back refl;
      }

  runs-Reads :
      (unsafe : String → Bool) (same : JsonValue → JsonValue → Bool) (tables : Tables)
      (actions : List DataOpsAction) (e : DataOpsEnvironment sql)
      → RollsBack sql
      → Reads tables e
      → Reads tables (execute_all sql lib unsafe same actions e)
  unfolding execute_all
  runs-Reads unsafe same tables [] e law h = h
  runs-Reads unsafe same tables (action ∷ actions) e law h =
      runs-Reads unsafe same tables actions (execute sql lib unsafe same action e).1 law (
        Did-Reads tables e (execute sql lib unsafe same action e).1 law h
          (execute-Did sql lib unsafe same action e))

  start-Reads :
      (fixture : DataOpsTaskFixture) (run_id : String)
      → Reads
          (read_all_tables sql lib fixture (sql.create_database fixture.private.tables))
          (start sql lib fixture run_id)
  unfolding start
  start-Reads fixture run_id = record {
    idle = λ _. refl;
    undone = λ i. absurd (cc i);
    pending = idle_closed TransactionState.idle refl;
  }

-- Where ROLLBACK undoes what was written since BEGIN: after any sequence of actions from the start
-- that leaves the transaction rolled back, every table of the fixture reads as it did at the start.
pub rolled_back_restores :
    (sql : Sql) (lib : Stdlib) (unsafe : String → Bool) (same : JsonValue → JsonValue → Bool)
    (actions : List DataOpsAction) (fixture : DataOpsTaskFixture) (run_id : String)
    → RollsBack sql
    → (execute_all sql lib unsafe same actions (start sql lib fixture run_id)).state
      ≡ TransactionState.rolled_back
    → read_all_tables sql lib
        (execute_all sql lib unsafe same actions (start sql lib fixture run_id)).fixture
        (execute_all sql lib unsafe same actions (start sql lib fixture run_id)).connection
      ≡ read_all_tables sql lib fixture (sql.create_database fixture.private.tables)
rolled_back_restores sql lib unsafe same actions fixture run_id law h =
    (runs-Reads sql lib unsafe same _ actions (start sql lib fixture run_id) law
        (start-Reads sql lib fixture run_id)).undone
      h
