-- ===== src/Incident/Grows.antt =====
-- incident_environment.py: what no action takes back.
use mathlib.Core.List.{append-nil, append_assoc}
use agent_learning_loop.Base.{
  ℕ, String, Bool, true, none, some, List, [], ◌∷◌, ◌++◌, Dict, lookup, insert, has_key,
  lookup-insert, eq_iff, Stdlib, ◌≡◌, refl, sym, ◌∙◌, ap, arith, if_intro, string_eq,
}
use agent_learning_loop.Incident.Names.{ServiceState, IncidentStatus}
use agent_learning_loop.Incident.Contracts.{IncidentAction, IncidentAuditRecord, IncidentToolResult}
use agent_learning_loop.Incident.Environment.{
  IncidentEnvironment, Operation, Grant, Entry, audit_record, add_record,
}
use agent_learning_loop.Incident.HighImpact.{Request, executed_entry, commit}
use agent_learning_loop.Incident.Execute.{heal, before_dot, execute_all}
use agent_learning_loop.Incident.Steps.{Effect, Step}
use agent_learning_loop.Incident.Stepped.{execute-Steps}

-- Every key stays.
abbrev pub KeepsKeys {ℓ} : {V : Type ℓ} → Dict V → Dict V → Type 0
KeepsKeys d d' = (k : String) → has_key k d ≡ true → has_key k d' ≡ true

pub record Grows (e e' : IncidentEnvironment) : Type 0 where
  pub fixture_kept : e'.fixture ≡ e.fixture
  pub run_kept : e'.run_id ≡ e.run_id
  -- the audit is only appended to
  pub appended : List IncidentAuditRecord
  pub audit_kept : e'.audit ≡ e.audit ++ appended
  -- an operation is remembered as it was
  pub operations_kept :
      (id : String) (op : Operation)
      → lookup id e.operations ≡ some op
      → lookup id e'.operations ≡ some op
  pub services_kept : KeepsKeys e.services e'.services
  pub flags_kept : KeepsKeys e.feature_flags e'.feature_flags

insert-KeepsKeys {ℓ} : {V : Type ℓ} (k : String) (v : V) (d : Dict V) → KeepsKeys d (insert k v d)
insert-KeepsKeys k v d j h = ground (arith, lookup-insert k j v d)

heal-KeepsKeys :
    (name : String) (services : Dict ServiceState) → KeepsKeys services (heal name services)
heal-KeepsKeys name services =
    if_intro (KeepsKeys services) (has_key name services) _ _
      (λ _. insert-KeepsKeys name ServiceState.healthy services) (λ _ k h. h)

pub Grows-refl : (e : IncidentEnvironment) → Grows e e
Grows-refl e = record {
  fixture_kept = refl;
  run_kept = refl;
  appended = [];
  audit_kept = sym (append-nil e.audit);
  operations_kept = λ id op h. h;
  services_kept = λ k h. h;
  flags_kept = λ k h. h;
}

pub Grows-trans : {a b c : IncidentEnvironment} → Grows a b → Grows b c → Grows a c
Grows-trans {a = a} {b = b} {c = c} g h = record {
  fixture_kept = h.fixture_kept ∙ g.fixture_kept;
  run_kept = h.run_kept ∙ g.run_kept;
  appended = g.appended ++ h.appended;
  audit_kept =
      h.audit_kept
      ∙ ap (λ xs. xs ++ h.appended) g.audit_kept
      ∙ append_assoc a.audit g.appended h.appended;
  operations_kept = λ id op k. h.operations_kept id op (g.operations_kept id op k);
  services_kept = λ k x. h.services_kept k (g.services_kept k x);
  flags_kept = λ k x. h.flags_kept k (g.flags_kept k x);
}

-- The audit and the operations stay.
quiet-Grows :
    (e : IncidentEnvironment) (services : Dict ServiceState) (flags : Dict Bool)
    (status : IncidentStatus) (restarts mutations : Dict ℕ) (grants : Dict Grant)
    → KeepsKeys e.services services
    → KeepsKeys e.feature_flags flags
    → Grows e (record e {
      services = services;
      feature_flags = flags;
      incident_status = status;
      restart_counts = restarts;
      feature_flag_mutations = mutations;
      grants = grants;
    })
quiet-Grows e services flags status restarts mutations grants s f = record {
  fixture_kept = refl;
  run_kept = refl;
  appended = [];
  audit_kept = sym (append-nil e.audit);
  operations_kept = λ id op h. h;
  services_kept = s;
  flags_kept = f;
}

add_record-Grows : (entry : Entry) (e : IncidentEnvironment) → Grows e (add_record entry e)
unfolding add_record
add_record-Grows entry e = record {
  fixture_kept = refl;
  run_kept = refl;
  appended = audit_record entry e ∷ [];
  audit_kept = refl;
  operations_kept = λ id op h. h;
  services_kept = λ k h. h;
  flags_kept = λ k h. h;
}

-- a new operation leaves those that are remembered
remember :
    (k id : String) (op new : Operation) (operations : Dict Operation)
    → lookup k operations ≡ none
    → lookup id operations ≡ some op
    → lookup id (insert k new operations) ≡ some op
remember k id op new operations fresh h =
    ground (arith, lookup-insert k id new operations, eq_iff k id)

commit-Grows :
    (lib : Stdlib) (r : Request) (result : IncidentToolResult) (e : IncidentEnvironment)
    → lookup r.operation_id e.operations ≡ none
    → Grows e (commit lib r result e)
unfolding add_record
commit-Grows lib r result e fresh = record {
  fixture_kept = refl;
  run_kept = refl;
  appended = audit_record (executed_entry lib r true) e ∷ [];
  audit_kept = refl;
  operations_kept = λ id op h. remember r.operation_id id op _ e.operations fresh h;
  services_kept = λ k h. h;
  flags_kept = λ k h. h;
}

effect-Grows : {e e' : IncidentEnvironment} → Effect e e' → Grows e e'
effect-Grows {e = e} (Effect.restarted target n known found) =
    quiet-Grows e _ _ _ _ _ e.grants (insert-KeepsKeys target ServiceState.healthy e.services)
      (λ k h. h)
effect-Grows {e = e} (Effect.half_restarted target known found) =
    quiet-Grows e _ _ _ _ _ e.grants (insert-KeepsKeys target ServiceState.healthy e.services)
      (λ k h. h)
effect-Grows {e = e} (Effect.flagged target enabled n known found) =
    quiet-Grows e _ _ _ _ _ e.grants (heal-KeepsKeys (before_dot target) e.services)
      (insert-KeepsKeys target enabled e.feature_flags)
effect-Grows {e = e} (Effect.half_flagged target enabled known found) =
    quiet-Grows e _ _ _ _ _ e.grants (λ k h. h) (insert-KeepsKeys target enabled e.feature_flags)

effect_operations : {e e' : IncidentEnvironment} → Effect e e' → e'.operations ≡ e.operations
effect_operations (Effect.restarted target n known found) = refl
effect_operations (Effect.half_restarted target known found) = refl
effect_operations (Effect.flagged target enabled n known found) = refl
effect_operations (Effect.half_flagged target enabled known found) = refl

pub step-Grows : {lib : Stdlib} {e e' : IncidentEnvironment} → Step lib e e' → Grows e e'
unfolding add_record
step-Grows {e = e} Step.unchanged = Grows-refl e
step-Grows {e = e} (Step.noted entry) = add_record-Grows entry e
step-Grows {e = e} (Step.granted entry id g grounded) =
    Grows-trans (add_record-Grows entry e)
      (quiet-Grows (add_record entry e) _ _ _ _ _ _ (λ k h. h) (λ k h. h))
step-Grows (Step.raised live effect) = effect-Grows effect
step-Grows {lib = lib} (Step.committed r result live fresh effect) =
    Grows-trans (effect-Grows effect)
      (commit-Grows lib r result _ (rw (effect_operations effect) fresh))
step-Grows {e = e} (Step.acknowledged entry live healthy) =
    Grows-trans (quiet-Grows e _ _ IncidentStatus.acknowledged _ _ e.grants (λ k h. h) (λ k h. h))
      (add_record-Grows entry _)
step-Grows {e = e} (Step.escalated entry live) =
    Grows-trans (quiet-Grows e _ _ IncidentStatus.escalated _ _ e.grants (λ k h. h) (λ k h. h))
      (add_record-Grows entry _)

-- Whatever the actions, the fixture and the run stay, the audit is only appended to, an operation that
-- is remembered stays remembered with its fingerprint and result, and no service or flag disappears.
pub execute_all-Grows :
    (lib : Stdlib) (redact : String → String) (actions : List IncidentAction)
    (e : IncidentEnvironment)
    → Grows e (execute_all lib redact actions e)
unfolding execute_all
execute_all-Grows lib redact [] e = Grows-refl e
execute_all-Grows lib redact (action ∷ actions) e =
    Grows-trans (step-Grows (execute-Steps lib e redact action))
      (execute_all-Grows lib redact actions _)
