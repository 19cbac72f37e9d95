-- ===== src/DataOps/Retried.antt =====
-- dataops_environment.py: a write that is called again is replayed.
use mathlib.Core.Path.{subst}
use agent_learning_loop.Base.{
  String, Bool, true, Option, none, some, lookup, contains, JsonValue, Stdlib, string_eq, beq_refl,
  ◌≡◌, refl, ap, ◌∙◌,
}
use agent_learning_loop.DataOps.Names.{dataops_tool_eq}
use agent_learning_loop.DataOps.Contracts.{DataOpsAction, DataOpsToolResult, DataOpsTaskFixture}
use agent_learning_loop.DataOps.Arguments.{
  Arguments, insertion, UpdateRowsArguments, InsertRowArguments, parse,
}
use agent_learning_loop.DataOps.Store.{Sql}
use agent_learning_loop.DataOps.Environment.{
  DataOpsEnvironment, Operation, Answer, database_digest, fingerprint,
}
use agent_learning_loop.DataOps.Writes.{
  replay, replay_or, update, update_open, insert_one, insert_open, transaction_error,
}
use agent_learning_loop.DataOps.Execute.{dispatch, execute}
use agent_learning_loop.DataOps.Remembered.{
  Remembers, Remembers-ends, update_open-ends, insert_open-ends,
}

-- A call that only notes that its operation was done, and gives its result again.
pub record IsRepeat (sql : Sql) (lib : Stdlib) (r : DataOpsToolResult) (e : DataOpsEnvironment sql)
    (x : Answer sql lib) : Type 0 where
  pub answered : x.0 ≡ some (record r { idempotency_hit = true })
  pub connection : x.1.connection ≡ e.connection
  pub state : x.1.state ≡ e.state
  pub attempted : x.1.attempted_row_count ≡ e.attempted_row_count
  pub committed : x.1.committed_row_count ≡ e.committed_row_count
  pub operations : x.1.operations ≡ e.operations

-- the operation of a write
abbrev pub operation_of : Arguments → Option String
operation_of (Arguments.update a) = some a.operation_id
operation_of (insertion a) = some a.operation_id
operation_of _ = none

module _ (sql : Sql) (lib : Stdlib) (action : DataOpsAction) (before : String)
    (e : DataOpsEnvironment sql) where
  replay-IsRepeat :
      (operation_id : String) (r : DataOpsToolResult) (previous : Option Operation)
      (rest : Answer sql lib)
      → previous ≡ some (record { fingerprint = fingerprint lib action; result = r })
      → IsRepeat sql lib r e (replay_or sql lib action operation_id before e previous rest)
  unfolding replay
  replay-IsRepeat operation_id r previous rest h =
      rw (h, beq_refl (fingerprint lib action))
        (record {
          answered = refl;
          connection = refl;
          state = refl;
          attempted = refl;
          committed = refl;
          operations = refl;
        })

  update-Remembers :
      (a : UpdateRowsArguments)
      → lookup a.operation_id e.operations ≡ none
      → Remembers sql lib action before e a.operation_id (update sql lib action before e a)
  unfolding update
  update-Remembers a new = rw new (
      update_open-ends sql lib action before e (Remembers sql lib action before e a.operation_id) a
        (Remembers-ends sql lib action before e a.operation_id)
        (transaction_error sql lib a.transaction_id e))

  insert_one-Remembers :
      (a : InsertRowArguments)
      → lookup a.operation_id e.operations ≡ none
      → Remembers sql lib action before e a.operation_id (insert_one sql lib action before e a)
  unfolding insert_one
  insert_one-Remembers a new = rw new (
      insert_open-ends sql lib action before e (Remembers sql lib action before e a.operation_id) a
        (Remembers-ends sql lib action before e a.operation_id)
        (transaction_error sql lib a.transaction_id e))

  same_id : (i j : String) → ◌≡◌ {A = Option String} (some i) (some j) → i ≡ j
  same_id i j h = cc h

  dispatch-Remembers :
      (unsafe : String → Bool) (same : JsonValue → JsonValue → Bool) (arguments : Arguments)
      (operation_id : String)
      → operation_of arguments ≡ some operation_id
      → lookup operation_id e.operations ≡ none
      → Remembers sql lib action before e operation_id
          (dispatch sql lib unsafe same action before e (some arguments))
  unfolding dispatch
  dispatch-Remembers unsafe same (Arguments.update a) operation_id o new =
      let same_name = same_id a.operation_id operation_id o in
      subst (λ (i : String). Remembers sql lib action before e i (update sql lib action before e a))
        same_name (update-Remembers a (ap (λ (i : String). lookup i e.operations) same_name ∙ new))
  dispatch-Remembers unsafe same (insertion a) operation_id o new =
      let same_name = same_id a.operation_id operation_id o in
      subst
        (λ (i : String). Remembers sql lib action before e i (insert_one sql lib action before e a))
        same_name
        (insert_one-Remembers a (ap (λ (i : String). lookup i e.operations) same_name ∙ new))
  dispatch-Remembers unsafe same _ operation_id o new = cc o

  dispatch-IsRepeat :
      (unsafe : String → Bool) (same : JsonValue → JsonValue → Bool) (arguments : Arguments)
      (operation_id : String) (r : DataOpsToolResult)
      → operation_of arguments ≡ some operation_id
      → lookup operation_id e.operations
        ≡ some (record { fingerprint = fingerprint lib action; result = r })
      → IsRepeat sql lib r e (dispatch sql lib unsafe same action before e (some arguments))
  unfolding dispatch update insert_one
  dispatch-IsRepeat unsafe same (Arguments.update a) operation_id r o h =
      replay-IsRepeat a.operation_id r (lookup a.operation_id e.operations)
        (update_open sql lib action before e a (transaction_error sql lib a.transaction_id e))
        (ap (λ (i : String). lookup i e.operations) (same_id a.operation_id operation_id o) ∙ h)
  dispatch-IsRepeat unsafe same (insertion a) operation_id r o h =
      replay-IsRepeat a.operation_id r (lookup a.operation_id e.operations)
        (insert_open sql lib action before e a (transaction_error sql lib a.transaction_id e))
        (ap (λ (i : String). lookup i e.operations) (same_id a.operation_id operation_id o) ∙ h)
  dispatch-IsRepeat unsafe same _ operation_id r o h = cc o

executed :
    (sql : Sql) (lib : Stdlib) (unsafe : String → Bool) (same : JsonValue → JsonValue → Bool)
    (action : DataOpsAction) (e : DataOpsEnvironment sql) (arguments : Arguments)
    → contains e.fixture.task.allowed_tools action.tool_name ≡ true
    → parse unsafe action.tool_name action.arguments ≡ some arguments
    → execute sql lib unsafe same action e
      ≡ dispatch sql lib unsafe same action
          (database_digest sql lib e.fixture e.connection)
          e
          (some arguments)
unfolding execute
executed sql lib unsafe same action e arguments allowed parsed = rw (allowed, parsed) refl

-- An allowed write whose arguments parse, under an operation id that is not yet used, and that gives a
-- result, be it a rejection: the same action on the environment after it gives the same result marked
-- as a replay, and changes neither the database, the state, the counts nor the operations.
pub retried_write-IsRepeat :
    (sql : Sql) (lib : Stdlib) (unsafe : String → Bool) (same : JsonValue → JsonValue → Bool)
    (action : DataOpsAction) (e : DataOpsEnvironment sql) (arguments : Arguments)
    (operation_id : String) (r : DataOpsToolResult)
    → contains e.fixture.task.allowed_tools action.tool_name ≡ true
    → parse unsafe action.tool_name action.arguments ≡ some arguments
    → operation_of arguments ≡ some operation_id
    → lookup operation_id e.operations ≡ none
    → (execute sql lib unsafe same action e).0 ≡ some r
    → IsRepeat sql lib r
        (execute sql lib unsafe same action e).1
        (execute sql lib unsafe same action (execute sql lib unsafe same action e).1)
retried_write-IsRepeat sql lib unsafe same action e arguments operation_id r allowed parsed o new
      given =
    let first = executed sql lib unsafe same action e arguments allowed parsed in
    let e1 = (execute sql lib unsafe same action e).1 in
    let kept : Remembers sql lib action (database_digest sql lib e.fixture e.connection) e
        operation_id (execute sql lib unsafe same action e) =
      rw first (
        dispatch-Remembers sql lib action (database_digest sql lib e.fixture e.connection) e unsafe
          same arguments operation_id o new) in
    rw
      (executed sql lib unsafe same action e1 arguments
        (ap (λ (f : DataOpsTaskFixture). contains f.task.allowed_tools action.tool_name)
            kept.same_fixture
          ∙ allowed)
        parsed)
      (dispatch-IsRepeat sql lib action (database_digest sql lib e1.fixture e1.connection) e1 unsafe
        same arguments operation_id r o (kept.found r given))
