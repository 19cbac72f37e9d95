-- ===== src/DataOps/Did.antt =====
-- dataops_environment.py: what one call may do to the environment.
use agent_learning_loop.Base.{
  ℕ, ◌+◌, String, Bool, true, false, ◌&&◌, Option, none, some, [], ◌∷◌, ◌++◌, Dict, length, Stdlib,
  if◌then◌else◌, ◌||◌, ◌==◌, ◌!=◌, string_eq, option_eq, ◌≡◌, ◌⊎◌, inl, inr, refl,
}
use agent_learning_loop.DataOps.Names.{
  TransactionState, transaction_eq, TerminalOutcome, DataOpsDecision,
}
use agent_learning_loop.DataOps.Contracts.{
  DataOpsAction, DataOpsToolResult, DataOpsAuditRecord, Row,
}
use agent_learning_loop.DataOps.Store.{Sql, changed}
use agent_learning_loop.DataOps.Environment.{
  DataOpsEnvironment, Operation, Entry, audit_record, database_digest,
}
use agent_learning_loop.DataOps.Writes.{transaction_error}

abbrev pub IsOpen : TransactionState → Type 0
IsOpen s = (s ≡ TransactionState.active) ⊎ (s ≡ TransactionState.validated)

-- A statement that writes took the database to another.
pub data Wrote (sql : Sql) (d d' : sql.Db) : Type 0 where
  by_update :
      {table : String} {values where_row : Row} {n : ℕ}
      → sql.update table values where_row d ≡ changed n d'
      → Wrote sql d d'
  by_insert :
      {table : String} {row : Row} {n : ℕ}
      → sql.insert_row table row d ≡ changed n d'
      → Wrote sql d d'

abbrev pub is_executed : DataOpsDecision → Bool
is_executed DataOpsDecision.executed = true
is_executed _ = false

-- the record of a call that wrote: only a write is executed after its rows were counted
abbrev pub is_write : DataOpsAuditRecord → Bool
is_write r = is_executed r.decision && r.cardinality_checked_before_write

IsOpen-states :
    (s : TransactionState) (mismatch : Bool)
    → ◌≡◌ {A = Option String}
        (if s == TransactionState.idle
          then some "transaction_required"
          else if s == TransactionState.committed || s == TransactionState.rolled_back
          then some "transaction_terminal"
          else if mismatch
          then some "transaction_mismatch"
          else none)
        none
    → IsOpen s
IsOpen-states TransactionState.idle m h = cc
IsOpen-states TransactionState.active m h = inl refl
IsOpen-states TransactionState.validated m h = inr refl
IsOpen-states TransactionState.committed m h = cc
IsOpen-states TransactionState.rolled_back m h = cc

module _ (sql : Sql) (lib : Stdlib) where
  -- The record of a call: its number, and the digests of the database before and after the call.
  pub record Entered (e : DataOpsEnvironment sql) (after : sql.Db) (r : DataOpsAuditRecord)
      : Type 0 where
    pub numbered : r.sequence ≡ length e.audit
    pub of_run : r.run_id ≡ e.run_id
    pub of_task : r.task_id ≡ e.fixture.task.task_id
    pub from_digest : r.before_digest ≡ database_digest sql lib e.fixture e.connection
    pub to_digest : r.after_digest ≡ database_digest sql lib e.fixture after

  -- what the record says of the effect
  pub record Says (r : DataOpsAuditRecord) (n : ℕ) (write validation : Bool)
      (outcome : Option TerminalOutcome) : Type 0 where
    pub changes : r.changed_row_count ≡ n
    pub write_is : is_write r ≡ write
    pub validation_is : r.validation_succeeded ≡ validation
    pub outcome_is : r.terminal_outcome ≡ outcome

  -- What a call may do.
  pub data Did (e : DataOpsEnvironment sql) : DataOpsEnvironment sql → Type 0 where
    raised : Did e e
    noted :
        (r : DataOpsAuditRecord) (operations : Dict Operation)
        → Entered e e.connection r
        → Says r 0 false false none
        → Did e (record e { audit = e.audit ++ r ∷ []; operations = operations })
    began :
        (r : DataOpsAuditRecord) (id : String)
        → e.state ≡ TransactionState.idle
        → Entered e (sql.begins e.connection) r
        → Says r 0 false false none
        → Did e (record e {
          connection = sql.begins e.connection;
          state = TransactionState.active;
          transaction_id = some id;
          audit = e.audit ++ r ∷ [];
        })
    wrote :
        (r : DataOpsAuditRecord) (n : ℕ) (db : sql.Db) (operations : Dict Operation)
        → IsOpen e.state
        → Wrote sql e.connection db
        → Entered e db r
        → Says r n true false none
        → Did e (record e {
          connection = db;
          state = TransactionState.active;
          attempted_row_count = e.attempted_row_count + n;
          audit = e.audit ++ r ∷ [];
          operations = operations;
        })
    validated :
        (r : DataOpsAuditRecord)
        → IsOpen e.state
        → Entered e e.connection r
        → Says r 0 false true none
        → Did e (record e { state = TransactionState.validated; audit = e.audit ++ r ∷ [] })
    committed :
        (r : DataOpsAuditRecord)
        → e.state ≡ TransactionState.validated
        → Entered e (sql.commits e.connection) r
        → Says r 0 false false (some TerminalOutcome.committed)
        → Did e (record e {
          connection = sql.commits e.connection;
          state = TransactionState.committed;
          committed_row_count = e.attempted_row_count;
          audit = e.audit ++ r ∷ [];
        })
    rolled_back :
        (r : DataOpsAuditRecord)
        → IsOpen e.state
        → Entered e (sql.rolls_back e.connection) r
        → Says r 0 false false (some TerminalOutcome.rolled_back)
        → Did e (record e {
          connection = sql.rolls_back e.connection;
          state = TransactionState.rolled_back;
          committed_row_count = 0;
          audit = e.audit ++ r ∷ [];
        })

  -- the record that `_record` adds after the call's effect
  pub entered :
      (action : DataOpsAction) (result : DataOpsToolResult) (before : String) (entry : Entry)
      (e e' : DataOpsEnvironment sql)
      → before ≡ database_digest sql lib e.fixture e.connection
      → e'.audit ≡ e.audit
      → e'.run_id ≡ e.run_id
      → e'.fixture ≡ e.fixture
      → Entered e e'.connection (audit_record sql lib action result before entry e')
  unfolding audit_record
  entered action result before entry e e' h audit run fixture = record {
    numbered = cc audit;
    of_run = run;
    of_task = cc fixture;
    from_digest = h;
    to_digest = cc fixture;
  }

  pub says :
      (action : DataOpsAction) (result : DataOpsToolResult) (before : String) (entry : Entry)
      (e : DataOpsEnvironment sql)
      → Says
          (audit_record sql lib action result before entry e)
          entry.changed
          (is_executed entry.decision && entry.cardinality_checked)
          entry.validation_succeeded
          entry.terminal_outcome
  unfolding audit_record
  says action result before entry e = record {
    changes = refl;
    write_is = refl;
    validation_is = refl;
    outcome_is = refl;
  }

  pub transaction_error-IsOpen :
      (id : String) (e : DataOpsEnvironment sql)
      → transaction_error sql lib id e ≡ none
      → IsOpen e.state
  transaction_error-IsOpen id e h = IsOpen-states e.state (some id != e.transaction_id) h
