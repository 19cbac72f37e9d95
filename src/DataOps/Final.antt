-- ===== src/DataOps/Final.antt =====
-- dataops_environment.py: an ended transaction is final.
use mathlib.Core.Path.{subst}
use agent_learning_loop.Base.{
  String, Bool, List, [], ◌∷◌, JsonValue, Stdlib, ◌≡◌, ◌⊎◌, inl, inr, refl, sym, ◌∙◌,
}
use agent_learning_loop.DataOps.Names.{TransactionState}
use agent_learning_loop.DataOps.Contracts.{DataOpsAction}
use agent_learning_loop.DataOps.Store.{Sql}
use agent_learning_loop.DataOps.Environment.{DataOpsEnvironment}
use agent_learning_loop.DataOps.Execute.{execute, execute_all}
use agent_learning_loop.DataOps.Did.{
  IsOpen, Did, raised, noted, began, wrote, validated, committed, rolled_back,
}
use agent_learning_loop.DataOps.Ran.{execute-Did}

-- What an ended transaction keeps.
pub record IsFinal (sql : Sql) (e e' : DataOpsEnvironment sql) : Type 0 where
  pub connection : e'.connection ≡ e.connection
  pub state : e'.state ≡ e.state
  pub attempted : e'.attempted_row_count ≡ e.attempted_row_count
  pub committed : e'.committed_row_count ≡ e.committed_row_count

abbrev pub IsEnded : TransactionState → Type 0
IsEnded s = (s ≡ TransactionState.committed) ⊎ (s ≡ TransactionState.rolled_back)

not_open : {A : Type 0} (s : TransactionState) → IsEnded s → IsOpen s → A
not_open s (inl c) (inl o) = absurd (cc (c, o))
not_open s (inl c) (inr o) = absurd (cc (c, o))
not_open s (inr c) (inl o) = absurd (cc (c, o))
not_open s (inr c) (inr o) = absurd (cc (c, o))

not_idle : {A : Type 0} (s : TransactionState) → IsEnded s → s ≡ TransactionState.idle → A
not_idle s (inl c) i = absurd (cc (c, i))
not_idle s (inr c) i = absurd (cc (c, i))

Did-IsFinal :
    (sql : Sql) (lib : Stdlib) (e e' : DataOpsEnvironment sql)
    → IsEnded e.state
    → Did sql lib e e'
    → IsFinal sql e e'
Did-IsFinal sql lib e e' h raised = record {
  connection = refl;
  state = refl;
  attempted = refl;
  committed = refl;
}
Did-IsFinal sql lib e e' h (noted r ops n s) = record {
  connection = refl;
  state = refl;
  attempted = refl;
  committed = refl;
}
Did-IsFinal sql lib e e' h (began r id idle n s) = not_idle e.state h idle
Did-IsFinal sql lib e e' h (wrote r n db ops o w en s) = not_open e.state h o
Did-IsFinal sql lib e e' h (validated r o n s) = not_open e.state h o
Did-IsFinal sql lib e e' h (committed r v n s) = not_open e.state h (inr v)
Did-IsFinal sql lib e e' h (rolled_back r o n s) = not_open e.state h o

-- From a transaction that is committed or rolled back, no sequence of actions changes the database,
-- the state or a count.
pub execute_all-IsFinal :
    (sql : Sql) (lib : Stdlib) (unsafe : String → Bool) (same : JsonValue → JsonValue → Bool)
    (actions : List DataOpsAction) (e : DataOpsEnvironment sql)
    → IsEnded e.state
    → IsFinal sql e (execute_all sql lib unsafe same actions e)
unfolding execute_all
execute_all-IsFinal sql lib unsafe same [] e h = record {
  connection = refl;
  state = refl;
  attempted = refl;
  committed = refl;
}
execute_all-IsFinal sql lib unsafe same (action ∷ actions) e h =
    let first =
      Did-IsFinal sql lib e (execute sql lib unsafe same action e).1 h
        (execute-Did sql lib unsafe same action e) in
    let rest =
      execute_all-IsFinal sql lib unsafe same actions (execute sql lib unsafe same action e).1
        (subst IsEnded (sym first.state) h) in
    record {
      connection = rest.connection ∙ first.connection;
      state = rest.state ∙ first.state;
      attempted = rest.attempted ∙ first.attempted;
      committed = rest.committed ∙ first.committed;
    }
