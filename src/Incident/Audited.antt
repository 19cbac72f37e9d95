-- ===== src/Incident/Audited.antt =====
-- incident_verifier.py: what an audit shows that passes the checks.
use agent_learning_loop.Base.{
  ℕ, suc, ◌≤◌, String, Bool, true, not, ◌&&◌, ◌||◌, Option, none, some, List, [], ◌∷◌, Dict, lookup,
  lookup-insert, lookup-nil, all, any, all-get_elem?, any_mono, all_mono, filterb, count_if,
  string_eq, option_eq, ◌==◌, ◌≡◌, ◌⊎◌, inl, inr, refl, arith,
}
use agent_learning_loop.Schemas.{VerifierCheck}
use agent_learning_loop.Incident.Names.{
  incident_tool_eq, audit_category_eq, AuditDecision, decision_eq,
}
use agent_learning_loop.Incident.Contracts.{IncidentAuditRecord}
use agent_learning_loop.Incident.Audit.{IsSequential, approves}
use agent_learning_loop.Incident.Verifier.{
  is_sequential, is_approval, add_approval, approvals_into, is_high_impact, has_references,
  grant_precedes, grant_of, audit_checks, verify_audit,
}
use agent_learning_loop.Incident.Groups.{once_each}

IsSequential-is_sequential :
    (n : ℕ) (rs : List IncidentAuditRecord) → is_sequential n rs ≡ true → IsSequential n rs
unfolding IsSequential
IsSequential-is_sequential n [] h = tt
IsSequential-is_sequential n (r ∷ rs) h =
    (ground arith, IsSequential-is_sequential (suc n) rs (ground arith))

-- What holds of all that pass a test.
filtered {ℓ} :
    {A : Type ℓ} (q p : A → Bool) (xs : List A)
    → all p (filterb q xs) ≡ true
    → all (λ x. not (q x) || p x) xs ≡ true
filtered q p [] h = refl
filtered q p (x ∷ xs) h = ground (arith, filtered q p xs)

add_approval-found :
    (o : Option String) (r : IncidentAuditRecord) (d : Dict IncidentAuditRecord) (id : String)
    (g : IncidentAuditRecord)
    → lookup id (add_approval o r d) ≡ some g
    → ((is_approval AuditDecision.approved r ≡ true) × (r ≡ g)) ⊎ (lookup id d ≡ some g)
add_approval-found none r d id g h = inr h
add_approval-found (some k) r d id g h = ground (arith, lookup-insert k id r d)

-- An approval that is looked up is in the audit, or was there before.
approvals_into-found :
    (p : IncidentAuditRecord → Bool) (rs : List IncidentAuditRecord) (d : Dict IncidentAuditRecord)
    (id : String) (g : IncidentAuditRecord)
    → p g ≡ true
    → lookup id (approvals_into d rs) ≡ some g
    → (any (λ a. is_approval AuditDecision.approved a && p a) rs ≡ true) ⊎ (lookup id d ≡ some g)
approvals_into-found p [] d id g h found = inr found
approvals_into-found p (r ∷ rs) d id g h found =
    elim (approvals_into-found p rs (add_approval r.approval_id r d) id g h found) [
      | inl later ↦ inl (ground (arith, later))
      | inr here ↦ elim (add_approval-found r.approval_id r d id g here) [
        | inl (a, same) ↦ inl (ground (arith, a, same, h))
        | inr before ↦ inr before
      ]
    ]

precedes-approves :
    (r a : IncidentAuditRecord)
    → (is_approval AuditDecision.approved a && grant_precedes r (some a)) ≡ true
    → approves r a ≡ true
precedes-approves r a h = ground arith

granted_before :
    (audit : List IncidentAuditRecord) (r : IncidentAuditRecord)
    → grant_precedes r (grant_of (approvals_into [] audit) r.approval_id) ≡ true
    → any (approves r) audit ≡ true
granted_before audit r h = found_before r.approval_id (grant_of _ r.approval_id) h refl
  where
    from_found :
        (id : String) (g : IncidentAuditRecord)
        → grant_precedes r (some g) ≡ true
        → (any (λ a. is_approval AuditDecision.approved a && grant_precedes r (some a)) audit
            ≡ true)
          ⊎ (lookup id [] ≡ some g)
        → any (approves r) audit ≡ true
    from_found id g p (inl in_audit) =
        any_mono (λ a. is_approval AuditDecision.approved a && grant_precedes r (some a))
          (approves r) audit (precedes-approves r) in_audit
    from_found id g p (inr before) = cc (before, lookup-nil {V = IncidentAuditRecord} id)

    found_before :
        (o : Option String) (g : Option IncidentAuditRecord)
        → grant_precedes r g ≡ true
        → grant_of (approvals_into [] audit) o ≡ g
        → any (approves r) audit ≡ true
    found_before none g p e = cc
    found_before (some id) none p e = cc
    found_before (some id) (some g) p e =
        from_found id g p (approvals_into-found (λ a. grant_precedes r (some a)) audit [] id g p e)

abbrev passes : VerifierCheck → Bool
passes c = c.passed

-- What a passed verdict says of an audit.
pub record IsAudited (run_id task_id : String) (audit : List IncidentAuditRecord) : Type 0 where
  pub numbered : IsSequential 0 audit
  pub context : all (λ r. r.run_id == run_id && r.task_id == task_id) audit ≡ true
  -- each high-impact execution has an approval before it
  pub approved : all (λ r. not (is_high_impact r) || any (approves r) audit) audit ≡ true
  -- no operation mutates twice
  pub once :
      (operation : String)
      → count_if
          (λ r. is_high_impact r && r.operation_id == some operation && r.physical_mutation)
          audit
        ≤ 1

second_part : (a b : Bool) → (a && b) ≡ true → b ≡ true
second_part a b h = ground arith

approved_executions :
    (audit : List IncidentAuditRecord)
    → all
        (λ r. grant_precedes r (grant_of (approvals_into [] audit) r.approval_id))
        (filterb is_high_impact audit)
      ≡ true
    → all (λ r. not (is_high_impact r) || any (approves r) audit) audit ≡ true
approved_executions audit h =
    all_mono
      (λ r.
        not (is_high_impact r)
        || grant_precedes r (grant_of (approvals_into [] audit) r.approval_id))
      (λ r. not (is_high_impact r) || any (approves r) audit) audit
      (λ r ok. ground (arith, granted_before audit r)) (filtered is_high_impact _ audit h)

-- An audit that passes the verification is numbered from 0 and of one run and task, each high-impact
-- execution in it has an approval of the same approval id, tool, target and action fingerprint before
-- it, and no operation id has two physical mutations among the high-impact executions.
pub verify_audit-IsAudited :
    (audit : List IncidentAuditRecord) (run_id task_id : String)
    → (verify_audit audit run_id task_id).passed ≡ true
    → IsAudited run_id task_id audit
unfolding verify_audit audit_checks
verify_audit-IsAudited audit run_id task_id h =
    let checks = audit_checks audit run_id task_id in
    record {
      numbered = IsSequential-is_sequential 0 audit (all-get_elem? passes checks 0 _ h refl);
      context = all-get_elem? passes checks 1 _ h refl;
      approved = approved_executions audit (
          second_part (all has_references (filterb is_high_impact audit)) _
            (all-get_elem? passes checks 4 _ h refl));
      once = λ operation. once_each operation audit (all-get_elem? passes checks 6 _ h refl);
    }
