-- ===== src/Incident/Groups.antt =====
-- incident_verifier.py: a safe group of records mutates once.
use mathlib.Core.List.{append-nil, append_assoc}
use agent_learning_loop.Base.{
  ℕ, ◌≤◌, String, Bool, true, false, ◌&&◌, Option, none, some, List, [], ◌∷◌, ◌++◌, Dict, lookup,
  lookup-insert, lookup-nil, filterb, count_if, string_eq, option_eq, eq_iff, ◌==◌, if◌then◌else◌,
  ◌≡◌, inl, inr, refl, sym, ap, ◌∙◌, arith, Bool-cases,
}
use agent_learning_loop.Incident.Names.{incident_tool_eq, audit_category_eq, decision_eq}
use agent_learning_loop.Incident.Contracts.{IncidentAuditRecord}
use agent_learning_loop.Incident.Verifier.{
  is_high_impact, or_empty, add_to_group, groups_into, is_safe_group, all_safe,
}

-- the records of an operation
abbrev members : String → Dict (List IncidentAuditRecord) → List IncidentAuditRecord
members id groups = or_empty (lookup id groups)

abbrev is_of : String → IncidentAuditRecord → Bool
is_of id r = r.operation_id == some id

members-add_to_group :
    (id : String) (o : Option String) (r : IncidentAuditRecord)
    (groups : Dict (List IncidentAuditRecord))
    → members id (add_to_group o r groups)
      ≡ members id groups ++ (if o == some id then r ∷ [] else [])
members-add_to_group id none r groups = sym (append-nil (members id groups))
members-add_to_group id (some k) r groups = elim (Bool-cases (k == id)) [
  | inl same ↦
      rw (lookup-insert k id (members k groups ++ r ∷ []) groups, same, (eq_iff k id).0 same) refl
  | inr other ↦
      rw (lookup-insert k id (members k groups ++ r ∷ []) groups, other)
        (sym (append-nil (members id groups)))
]

one_more :
    (b : Bool) (r : IncidentAuditRecord) (rest : List IncidentAuditRecord)
    → (if b then r ∷ [] else []) ++ rest ≡ (if b then r ∷ rest else rest)
one_more true r rest = refl
one_more false r rest = refl

members-groups_into :
    (id : String) (rs : List IncidentAuditRecord) (groups : Dict (List IncidentAuditRecord))
    → members id (groups_into groups rs) ≡ members id groups ++ filterb (is_of id) rs
members-groups_into id [] groups = sym (append-nil (members id groups))
members-groups_into id (r ∷ rs) groups =
    members-groups_into id rs (add_to_group r.operation_id r groups)
    ∙ ap (λ xs. xs ++ filterb (is_of id) rs) (members-add_to_group id r.operation_id r groups)
    ∙ append_assoc (members id groups) (if is_of id r then r ∷ [] else []) (filterb (is_of id) rs)
    ∙ ap (λ xs. members id groups ++ xs) (one_more (is_of id r) r (filterb (is_of id) rs))

safe_member :
    (id : String) (groups : Dict (List IncidentAuditRecord)) (g : List IncidentAuditRecord)
    → all_safe groups ≡ true
    → lookup id groups ≡ some g
    → is_safe_group g ≡ true
unfolding lookup
safe_member id [] g h e = cc
safe_member id ((k, records) ∷ groups) g h e = ground (arith, safe_member id groups g)

abbrev mutations : List IncidentAuditRecord → ℕ
mutations rs = count_if (λ r. r.physical_mutation) rs

safe_mutates_once : (g : List IncidentAuditRecord) → is_safe_group g ≡ true → mutations g ≤ 1
safe_mutates_once [] h = ground arith
safe_mutates_once (first ∷ rest) h = ground arith

members_mutate_once :
    (id : String) (groups : Dict (List IncidentAuditRecord)) (g : Option (List IncidentAuditRecord))
    → all_safe groups ≡ true
    → lookup id groups ≡ g
    → mutations (or_empty g) ≤ 1
members_mutate_once id groups none h e = ground arith
members_mutate_once id groups (some g) h e = safe_mutates_once g (safe_member id groups g h e)

count_filtered :
    (id : String) (rs : List IncidentAuditRecord)
    → mutations (filterb (is_of id) (filterb is_high_impact rs))
      ≡ count_if (λ r. is_high_impact r && is_of id r && r.physical_mutation) rs
count_filtered id [] = refl
count_filtered id (r ∷ rs) = ground (arith, count_filtered id rs)

pub once_each :
    (id : String) (audit : List IncidentAuditRecord)
    → all_safe (groups_into [] (filterb is_high_impact audit)) ≡ true
    → count_if (λ r. is_high_impact r && r.operation_id == some id && r.physical_mutation) audit ≤ 1
once_each id audit h =
    let groups = groups_into [] (filterb is_high_impact audit) in
    let grouped : members id groups ≡ filterb (is_of id) (filterb is_high_impact audit) =
      rw
        (
          members-groups_into id (filterb is_high_impact audit) [],
          lookup-nil {V = List IncidentAuditRecord} id,
        )
        refl in
    let counted = members_mutate_once id groups (lookup id groups) h refl in
    omega (arith, ap mutations grouped, count_filtered id audit, counted)
