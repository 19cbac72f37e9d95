-- ===== src/Incident/Committed.antt =====
-- The commit of a mutation (`_high_impact` of incident_environment.py) keeps the invariant.
use agent_learning_loop.Base.{
  ℕ, ◌+◌, String, Bool, true, none, some, List, [], ◌∷◌, ◌++◌, Dict, lookup, insert, has_key,
  count_if, count_if-append, lookup-insert, string_eq, option_eq, eq_iff, Stdlib, ◌≡◌, ◌≢◌, refl,
  arith, if◌then◌else◌, any,
}
use agent_learning_loop.Incident.Names.{
  IncidentToolName, incident_tool_eq, incident_tool_beq_iff, ServiceState, IncidentStatus,
}
use agent_learning_loop.Incident.Contracts.{IncidentAuditRecord, IncidentToolResult}
use agent_learning_loop.Incident.Environment.{
  IncidentEnvironment, Grant, Operation, audit_record, add_record,
}
use agent_learning_loop.Incident.HighImpact.{
  Request, executed_entry, approval_fingerprint, commit, permits,
}
use agent_learning_loop.Incident.Audit.{
  IsSequential-append, is_mutation_of, is_effect_of, IsJustified-append, approves,
  approved_by_grant,
}
use agent_learning_loop.Incident.Sound.{IsSound, Evident, context-append, granted-append}

-- A counter goes up with the mutation that it counts.
pub Evident-bump :
    (tool : IncidentToolName) (target : String) (n : ℕ) (counts : Dict ℕ)
    (audit : List IncidentAuditRecord) (r : IncidentAuditRecord)
    → lookup target counts ≡ some n
    → r.physical_mutation ≡ true
    → r.tool_name ≡ some tool
    → r.target ≡ target
    → Evident tool counts audit
    → Evident tool (insert target (n + 1) counts) (audit ++ r ∷ [])
Evident-bump tool target n counts audit r found p t at h name m e = ground (
  arith,
  lookup-insert target name (n + 1) counts,
  eq_iff target name,
  eq_iff r.target name,
  incident_tool_beq_iff tool tool,
  count_if-append (is_effect_of tool name) audit r,
  h name m,
  h target n,
)

-- A mutation by another tool leaves a counter's evidence.
pub Evident-other :
    (tool other : IncidentToolName) (counts : Dict ℕ) (audit : List IncidentAuditRecord)
    (r : IncidentAuditRecord)
    → r.tool_name ≡ some other
    → tool ≢ other
    → Evident tool counts audit
    → Evident tool counts (audit ++ r ∷ [])
Evident-other tool other counts audit r t ne h name m e = ground (
  arith,
  incident_tool_beq_iff other tool,
  count_if-append (is_effect_of tool name) audit r,
  h name m,
)

-- The operation that mutated is remembered, and no other is.
once-commit :
    (operation k : String) (op : Operation) (operations : Dict Operation)
    (audit : List IncidentAuditRecord) (r : IncidentAuditRecord)
    → r.physical_mutation ≡ true
    → r.operation_id ≡ some operation
    → lookup operation operations ≡ none
    → count_if (is_mutation_of k) audit ≡ (if has_key k operations then 1 else 0)
    → count_if (is_mutation_of k) (audit ++ r ∷ [])
      ≡ (if has_key k (insert operation op operations) then 1 else 0)
once-commit operation k op operations audit r p o fresh h = ground (
  arith,
  count_if-append (is_mutation_of k) audit r,
  lookup-insert operation k op operations,
  eq_iff operation k,
)

permitted :
    (lib : Stdlib) (r : Request) (e : IncidentEnvironment) (g : Grant)
    → permits lib r e (some g) ≡ true
    → (r.action.tool_name ≡ g.rule.tool_name)
      × (r.target ≡ g.rule.target)
      × (approval_fingerprint lib r ≡ g.fingerprint)
permitted lib r e g h = ground (
  arith,
  incident_tool_beq_iff g.rule.tool_name r.action.tool_name,
  eq_iff g.rule.target r.target,
  eq_iff g.fingerprint (approval_fingerprint lib r),
)

module _ (lib : Stdlib) (r : Request) (result : IncidentToolResult) (e : IncidentEnvironment)
    (g : Grant) (services : Dict ServiceState) (feature_flags : Dict Bool) (status : IncidentStatus)
    (restarts flags : Dict ℕ) where
  -- the environment after the mutation
  abbrev changed : IncidentEnvironment
  changed = record e {
    services = services;
    feature_flags = feature_flags;
    incident_status = status;
    restart_counts = restarts;
    feature_flag_mutations = flags;
  }

  abbrev mutation_record : IncidentAuditRecord
  mutation_record = audit_record (executed_entry lib r true) e

  approved_mutation :
      IsSound e
      → lookup r.approval_id e.grants ≡ some g
      → permits lib r e (some g) ≡ true
      → any (approves mutation_record) e.audit ≡ true
  approved_mutation h granted permit =
      let (tool, target, fingerprint) = permitted lib r e g permit in
      approved_by_grant e.audit mutation_record r.approval_id g h.numbered
        (h.granted r.approval_id g granted) refl refl (rw tool) target (rw fingerprint)

  -- A mutation that a grant permits, of an operation that has not run, with counters that agree with
  -- the longer audit.
  pub commit-IsSound :
      IsSound e
      → lookup r.approval_id e.grants ≡ some g
      → permits lib r e (some g) ≡ true
      → lookup r.operation_id e.operations ≡ none
      → Evident IncidentToolName.restart_simulated_service restarts
          (e.audit ++ mutation_record ∷ [])
      → Evident IncidentToolName.set_feature_flag flags (e.audit ++ mutation_record ∷ [])
      → IsSound (commit lib r result changed)
  unfolding add_record
  commit-IsSound h granted permit fresh restarts_agree flags_agree = record {
    numbered = IsSequential-append e.audit mutation_record h.numbered refl;
    context = context-append e (executed_entry lib r true) h.context;
    granted = λ id x found. granted-append id x e.audit mutation_record (h.granted id x found);
    justified =
        IsJustified-append e.audit mutation_record h.justified (approved_mutation h granted permit);
    once = λ k.
        once-commit r.operation_id k _ e.operations e.audit mutation_record refl refl fresh
          (h.once k);
    restarts = restarts_agree;
    flags = flags_agree;
  }
