-- ===== src/DataOps/Trails.antt =====
-- dataops_environment.py: audits that lead from one digest to another, and what they count.
use agent_learning_loop.Base.{
  ℕ, ◌+◌, String, Bool, true, false, not, ◌&&◌, ◌||◌, Option, some, is_some, List, [], ◌∷◌, ◌++◌,
  length, if◌then◌else◌, ◌≡◌, refl, arith,
}
use agent_learning_loop.DataOps.Names.{transaction_eq, TerminalOutcome}
use agent_learning_loop.DataOps.Contracts.{DataOpsAuditRecord}
use agent_learning_loop.DataOps.Did.{is_write}

-- An audit of one run and task that is numbered from 0 and whose records lead, each from the digest
-- that the one before it left, from the digest `first` to the digest that is the last argument.
pub data Trail (run_id task_id first : String) : List DataOpsAuditRecord → String → Type 0 where
  nothing : Trail run_id task_id first [] first
  leads :
      {audit : List DataOpsAuditRecord} {digest digest' : String} (r : DataOpsAuditRecord)
      → Trail run_id task_id first audit digest
      → r.sequence ≡ length audit
      → r.run_id ≡ run_id
      → r.task_id ≡ task_id
      → r.before_digest ≡ digest
      → r.after_digest ≡ digest'
      → Trail run_id task_id first (audit ++ r ∷ []) digest'

-- the rows that the records say were changed
abbrev pub changed_rows : List DataOpsAuditRecord → ℕ
changed_rows [] = 0
changed_rows (r ∷ rs) = r.changed_row_count + changed_rows rs

abbrev pub says_committed : Option TerminalOutcome → Bool
says_committed (some TerminalOutcome.committed) = true
says_committed _ = false

-- whether the transaction is validated after a record
abbrev pub next_ready : Bool → DataOpsAuditRecord → Bool
next_ready ready r =
    if r.validation_succeeded
    then true
    else if is_write r || is_some r.terminal_outcome
    then false
    else ready

-- whether it is validated after the records
abbrev pub ready_after : Bool → List DataOpsAuditRecord → Bool
ready_after ready [] = ready
ready_after ready (r ∷ rs) = ready_after (next_ready ready r) rs

-- Each commit in the records follows a validation, with no write and no end of the transaction since.
abbrev pub commits_validated : Bool → List DataOpsAuditRecord → Bool
commits_validated ready [] = true
commits_validated ready (r ∷ rs) =
    (ready || not (says_committed r.terminal_outcome)) && commits_validated (next_ready ready r) rs

pub changed_rows-append :
    (rs : List DataOpsAuditRecord) (r : DataOpsAuditRecord)
    → changed_rows (rs ++ r ∷ []) ≡ changed_rows rs + r.changed_row_count
changed_rows-append [] r = omega arith
changed_rows-append (x ∷ rs) r = omega (arith, changed_rows-append rs r)

pub ready_after-append :
    (ready : Bool) (rs : List DataOpsAuditRecord) (r : DataOpsAuditRecord)
    → ready_after ready (rs ++ r ∷ []) ≡ next_ready (ready_after ready rs) r
ready_after-append ready [] r = refl
ready_after-append ready (x ∷ rs) r = ready_after-append (next_ready ready x) rs r

pub commits_validated-append :
    (ready : Bool) (rs : List DataOpsAuditRecord) (r : DataOpsAuditRecord)
    → commits_validated ready rs ≡ true
    → (ready_after ready rs || not (says_committed r.terminal_outcome)) ≡ true
    → commits_validated ready (rs ++ r ∷ []) ≡ true
commits_validated-append ready [] r h s = ground (arith, s)
commits_validated-append ready (x ∷ rs) r h s =
    ground (arith, h, commits_validated-append (next_ready ready x) rs r (ground (arith, h)) s)
