-- ===== src/Incident/Sound.antt =====
-- The invariant of the Incident environment (incident_environment.py), and what keeps it: a record
-- that is no physical mutation, a grant after its approval, and the commit of a mutation.
use agent_learning_loop.Base.{
  ℕ, String, Bool, true, false, ◌&&◌, some, List, [], ◌∷◌, ◌++◌, Dict, lookup, insert, has_key, all,
  any, count_if, count_if-append, all-append, any-append, lookup-insert, string_eq, option_eq, ◌==◌,
  eq_iff, ◌≡◌, refl, arith, if◌then◌else◌,
}
use agent_learning_loop.Incident.Names.{
  IncidentToolName, incident_tool_eq, ServiceState, IncidentStatus,
}
use agent_learning_loop.Incident.Contracts.{IncidentAuditRecord, IncidentTaskFixture}
use agent_learning_loop.Incident.Environment.{
  IncidentEnvironment, Grant, zeros, start, Entry, audit_record, add_record,
}
use agent_learning_loop.Incident.Audit.{
  IsSequential, IsSequential-nil, IsSequential-append, is_mutation_of, is_effect_of, is_approval_of,
  IsJustified, IsJustified-append,
}

abbrev pub in_context : IncidentEnvironment → IncidentAuditRecord → Bool
in_context e r = r.run_id == e.run_id && r.task_id == e.fixture.task.task_id

-- Each counter is the number of physical mutations by a tool at its name.
abbrev pub Evident : IncidentToolName → Dict ℕ → List IncidentAuditRecord → Type 0
Evident tool counts audit =
    (name : String) (n : ℕ)
    → lookup name counts ≡ some n
    → n ≡ count_if (is_effect_of tool name) audit

pub record IsSound (e : IncidentEnvironment) : Type 0 where
  -- the audit is numbered from 0, and all of one run and task
  pub numbered : IsSequential 0 e.audit
  pub context : all (in_context e) e.audit ≡ true
  -- each grant has its approval in the audit
  pub granted :
      (id : String) (g : Grant)
      → lookup id e.grants ≡ some g
      → any (is_approval_of id g) e.audit ≡ true
  -- each physical mutation has an approval before it
  pub justified : IsJustified e.audit
  -- an operation is remembered exactly if it mutated, and then it mutated once
  pub once :
      (operation : String)
      → count_if (is_mutation_of operation) e.audit
        ≡ (if has_key operation e.operations then 1 else 0)
  pub restarts : Evident IncidentToolName.restart_simulated_service e.restart_counts e.audit
  pub flags : Evident IncidentToolName.set_feature_flag e.feature_flag_mutations e.audit

pub context-append :
    (e : IncidentEnvironment) (entry : Entry)
    → all (in_context e) e.audit ≡ true
    → all (in_context e) (e.audit ++ audit_record entry e ∷ []) ≡ true
context-append e entry h = ground (
  arith,
  all-append (in_context e) e.audit (audit_record entry e ∷ []),
  eq_iff e.run_id e.run_id,
  eq_iff e.fixture.task.task_id e.fixture.task.task_id,
)

pub granted-append :
    (id : String) (g : Grant) (audit : List IncidentAuditRecord) (r : IncidentAuditRecord)
    → any (is_approval_of id g) audit ≡ true
    → any (is_approval_of id g) (audit ++ r ∷ []) ≡ true
granted-append id g audit r h = ground (arith, any-append (is_approval_of id g) audit r)

plain_count :
    (p : IncidentAuditRecord → Bool) (audit : List IncidentAuditRecord) (r : IncidentAuditRecord)
    → p r ≡ false
    → count_if p (audit ++ r ∷ []) ≡ count_if p audit
plain_count p audit r h = ground (arith, count_if-append p audit r)

plain_effect :
    (tool : IncidentToolName) (name : String) (r : IncidentAuditRecord)
    → r.physical_mutation ≡ false
    → is_effect_of tool name r ≡ false
plain_effect tool name r h = rw h

plain_mutation :
    (operation : String) (r : IncidentAuditRecord)
    → r.physical_mutation ≡ false
    → is_mutation_of operation r ≡ false
plain_mutation operation r h = rw h

Evident-append :
    (tool : IncidentToolName) (counts : Dict ℕ) (audit : List IncidentAuditRecord)
    (r : IncidentAuditRecord)
    → r.physical_mutation ≡ false
    → Evident tool counts audit
    → Evident tool counts (audit ++ r ∷ [])
Evident-append tool counts audit r p h name n e =
    rw (plain_count (is_effect_of tool name) audit r (plain_effect tool name r p)) (h name n e)

-- A record that is no physical mutation.
pub add_record-IsSound :
    (entry : Entry) (e : IncidentEnvironment)
    → entry.physical_mutation ≡ false
    → IsSound e
    → IsSound (add_record entry e)
unfolding add_record
add_record-IsSound entry e p h =
    let r : IncidentAuditRecord = audit_record entry e in
    record {
      numbered = IsSequential-append e.audit r h.numbered refl;
      context = context-append e entry h.context;
      granted = λ id g k. granted-append id g e.audit r (h.granted id g k);
      justified = IsJustified-append e.audit r h.justified (rw p refl);
      once = λ operation.
          rw (plain_count (is_mutation_of operation) e.audit r (plain_mutation operation r p))
            (h.once operation);
      restarts = Evident-append _ e.restart_counts e.audit r p h.restarts;
      flags = Evident-append _ e.feature_flag_mutations e.audit r p h.flags;
    }

-- The invariant says nothing of the status, the services and the flags.
pub simulated-IsSound :
    (e : IncidentEnvironment) (status : IncidentStatus) (services : Dict ServiceState)
    (flags : Dict Bool)
    → IsSound e
    → IsSound (record e { incident_status = status; services = services; feature_flags = flags })
simulated-IsSound e status services flags h = record {
  numbered = h.numbered;
  context = h.context;
  granted = h.granted;
  justified = h.justified;
  once = h.once;
  restarts = h.restarts;
  flags = h.flags;
}

-- A grant whose approval is in the audit.
pub grant-IsSound :
    (id : String) (g : Grant) (e : IncidentEnvironment)
    → any (is_approval_of id g) e.audit ≡ true
    → IsSound e
    → IsSound (record e { grants = insert id g e.grants })
grant-IsSound id g e a h = record {
  numbered = h.numbered;
  context = h.context;
  granted = λ k x found. ground (arith, lookup-insert id k g e.grants, eq_iff id k, h.granted k x);
  justified = h.justified;
  once = h.once;
  restarts = h.restarts;
  flags = h.flags;
}

lookup-zeros {ℓ} :
    {V : Type ℓ} (d : Dict V) (name : String) (n : ℕ) → lookup name (zeros d) ≡ some n → n ≡ 0
unfolding lookup
lookup-zeros [] name n h = cc
lookup-zeros ((k, v) ∷ d) name n h = ground (arith, lookup-zeros d name n)

-- Before the first action.
pub start-IsSound :
    (fixture : IncidentTaskFixture) (run_id : String) → IsSound (start fixture run_id)
unfolding start lookup
start-IsSound fixture run_id = record {
  numbered = IsSequential-nil;
  context = refl;
  granted = λ id g h. cc h;
  justified = refl;
  once = λ operation. refl;
  restarts = λ name n h. lookup-zeros fixture.private.services name n h;
  flags = λ name n h. lookup-zeros fixture.private.feature_flags name n h;
}
