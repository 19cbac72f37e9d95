-- ===== src/Incident/Audit.antt =====
-- The audit of the Incident environment (incident_environment.py): what it must show, and what one
-- more record does to it.
use agent_learning_loop.Base.{
  ℕ, suc, ◌+◌, String, Bool, true, not, ◌&&◌, ◌||◌, some, List, [], ◌∷◌, ◌++◌, length, all, any,
  ltb, any-append, all_mono, all-append, any_mono, any-all, string_eq, option_eq, ◌==◌, ◌≡◌, refl,
  arith,
}
use agent_learning_loop.Incident.Names.{
  IncidentToolName, incident_tool_eq, AuditCategory, audit_category_eq, AuditDecision, decision_eq,
}
use agent_learning_loop.Incident.Contracts.{IncidentAuditRecord}
use agent_learning_loop.Incident.Environment.{Grant}

-- The records carry the numbers from `n` on.
unfoldable pub IsSequential : ℕ → List IncidentAuditRecord → Type 0
IsSequential n [] = Unit
IsSequential n (r ∷ rs) = (r.sequence ≡ n) × IsSequential (suc n) rs

pub IsSequential-nil : IsSequential 0 []
unfolding IsSequential
IsSequential-nil = tt

append_from :
    (n : ℕ) (rs : List IncidentAuditRecord) (r : IncidentAuditRecord)
    → IsSequential n rs
    → r.sequence ≡ n + length rs
    → IsSequential n (rs ++ r ∷ [])
unfolding IsSequential
append_from n [] r h e = (omega arith, tt)
append_from n (x ∷ rs) r h e = (h.0, append_from (suc n) rs r h.1 (omega arith))

pub IsSequential-append :
    (rs : List IncidentAuditRecord) (r : IncidentAuditRecord)
    → IsSequential 0 rs
    → r.sequence ≡ length rs
    → IsSequential 0 (rs ++ r ∷ [])
IsSequential-append rs r h e = append_from 0 rs r h (omega arith)

below_from :
    (n k : ℕ) (rs : List IncidentAuditRecord)
    → IsSequential n rs
    → n + length rs ≡ k
    → all (λ r. ltb r.sequence k) rs ≡ true
unfolding IsSequential
below_from n k [] h e = refl
below_from n k (r ∷ rs) h e = ground (arith, below_from (suc n) k rs h.1 (omega arith))

-- Every record of a numbered audit comes before the next.
pub sequence-lt-length :
    (rs : List IncidentAuditRecord)
    → IsSequential 0 rs
    → all (λ r. ltb r.sequence (length rs)) rs ≡ true
sequence-lt-length rs h = below_from 0 (length rs) rs h (omega arith)

-- A physical mutation of an operation.
abbrev pub is_mutation_of : String → IncidentAuditRecord → Bool
is_mutation_of operation r = r.physical_mutation && r.operation_id == some operation

-- A physical mutation by a tool at a target.
abbrev pub is_effect_of : IncidentToolName → String → IncidentAuditRecord → Bool
is_effect_of tool target r = r.physical_mutation && r.tool_name == some tool && r.target == target

-- The approval from which a grant was made.
abbrev pub is_approval_of : String → Grant → IncidentAuditRecord → Bool
is_approval_of id g r =
    r.category == AuditCategory.approval
    && r.decision == AuditDecision.approved
    && r.approval_id == some id
    && r.tool_name == some g.rule.tool_name
    && r.target == g.rule.target
    && r.action_fingerprint == some g.fingerprint

-- An approval that comes before a record and is for the same tool, target and action fingerprint.
abbrev pub approves : IncidentAuditRecord → IncidentAuditRecord → Bool
approves r a =
    a.category == AuditCategory.approval
    && a.decision == AuditDecision.approved
    && a.approval_id == r.approval_id
    && a.tool_name == r.tool_name
    && a.target == r.target
    && a.action_fingerprint == r.action_fingerprint
    && ltb a.sequence r.sequence

abbrev pub is_justified : List IncidentAuditRecord → IncidentAuditRecord → Bool
is_justified audit r = not r.physical_mutation || any (approves r) audit

abbrev pub IsJustified : List IncidentAuditRecord → Type 0
IsJustified audit = all (is_justified audit) audit ≡ true

still_justified :
    (rs : List IncidentAuditRecord) (r x : IncidentAuditRecord)
    → is_justified rs x ≡ true
    → is_justified (rs ++ r ∷ []) x ≡ true
still_justified rs r x h = ground (arith, any-append (approves x) rs r)

-- One more record keeps the audit justified if it is no physical mutation, or is approved before.
pub IsJustified-append :
    (rs : List IncidentAuditRecord) (r : IncidentAuditRecord)
    → IsJustified rs
    → is_justified rs r ≡ true
    → IsJustified (rs ++ r ∷ [])
IsJustified-append rs r h j = ground (
  arith,
  all-append (is_justified (rs ++ r ∷ [])) rs (r ∷ []),
  all_mono (is_justified rs) (is_justified (rs ++ r ∷ [])) rs (still_justified rs r) h,
  still_justified rs r r j,
)

-- A grant's approval approves a record that agrees with the grant and comes after the audit.
pub approved_by_grant :
    (rs : List IncidentAuditRecord) (r : IncidentAuditRecord) (id : String) (g : Grant)
    → IsSequential 0 rs
    → any (is_approval_of id g) rs ≡ true
    → r.sequence ≡ length rs
    → r.approval_id ≡ some id
    → r.tool_name ≡ some g.rule.tool_name
    → r.target ≡ g.rule.target
    → r.action_fingerprint ≡ some g.fingerprint
    → any (approves r) rs ≡ true
approved_by_grant rs r id g s h n a t l f =
    any_mono (λ x. is_approval_of id g x && ltb x.sequence (length rs)) (approves r) rs
      (λ x p. rw (n, a, t, l, f) (ground arith))
      (any-all (is_approval_of id g) (λ x. ltb x.sequence (length rs)) rs h
        (sequence-lt-length rs s))
