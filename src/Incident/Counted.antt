-- ===== src/Incident/Counted.antt =====
-- incident_environment.py: every service and every flag keeps its counter.
use agent_learning_loop.Base.{
  ℕ, String, List, [], ◌∷◌, Dict, lookup, insert, has_key, lookup-insert, eq_iff, string_eq, Stdlib,
  ◌≡◌, refl, arith, if_intro,
}
use agent_learning_loop.Incident.Names.{incident_tool_eq, ServiceState}
use agent_learning_loop.Incident.Contracts.{IncidentAction, IncidentTaskFixture}
use agent_learning_loop.Incident.Environment.{IncidentEnvironment, start, zeros, add_record}
use agent_learning_loop.Incident.Execute.{heal, before_dot, execute_all}
use agent_learning_loop.Incident.Steps.{Effect, Step}
use agent_learning_loop.Incident.Stepped.{execute-Steps}

-- Two dictionaries with the same keys.
abbrev pub IsPaired {ℓ ℓ'} : {V : Type ℓ} {W : Type ℓ'} → Dict V → Dict W → Type 0
IsPaired d d' = (k : String) → has_key k d ≡ has_key k d'

-- Every service and every flag has its counter.
pub record IsCounted (e : IncidentEnvironment) : Type 0 where
  pub services : IsPaired e.services e.restart_counts
  pub flags : IsPaired e.feature_flags e.feature_flag_mutations

insert-IsPaired {ℓ ℓ'} :
    {V : Type ℓ} {W : Type ℓ'} (k : String) (v : V) (w : W) (d : Dict V) (d' : Dict W)
    → IsPaired d d'
    → IsPaired (insert k v d) (insert k w d')
insert-IsPaired k v w d d' h j = ground (arith, lookup-insert k j v d, lookup-insert k j w d', h j)

heal-IsPaired :
    (name : String) (services : Dict ServiceState) (counts : Dict ℕ)
    → IsPaired services counts
    → IsPaired (heal name services) counts
heal-IsPaired name services counts h =
    if_intro (λ (d : Dict ServiceState). IsPaired d counts) (has_key name services) _ _
      (λ known k.
        ground (arith, lookup-insert name k ServiceState.healthy services, eq_iff name k, h k))
      (λ _. h)

effect-IsCounted : {e e' : IncidentEnvironment} → Effect e e' → IsCounted e → IsCounted e'
effect-IsCounted {e = e} (Effect.restarted target n known found) h = record {
  services = insert-IsPaired target _ _ e.services e.restart_counts h.services;
  flags = h.flags;
}
effect-IsCounted (Effect.half_restarted target known found) h = ground (arith, h.services target)
effect-IsCounted {e = e} (Effect.flagged target enabled n known found) h = record {
  services = heal-IsPaired (before_dot target) e.services e.restart_counts h.services;
  flags = insert-IsPaired target _ _ e.feature_flags e.feature_flag_mutations h.flags;
}
effect-IsCounted (Effect.half_flagged target enabled known found) h = ground (arith, h.flags target)

step-IsCounted :
    {lib : Stdlib} {e e' : IncidentEnvironment} → Step lib e e' → IsCounted e → IsCounted e'
unfolding add_record
step-IsCounted Step.unchanged h = h
step-IsCounted (Step.noted entry) h = record { services = h.services; flags = h.flags }
step-IsCounted (Step.granted entry id g grounded) h = record {
  services = h.services;
  flags = h.flags;
}
step-IsCounted (Step.raised live effect) h = effect-IsCounted effect h
step-IsCounted (Step.committed r result live fresh effect) h =
    let k = effect-IsCounted effect h in record { services = k.services; flags = k.flags }
step-IsCounted (Step.acknowledged entry live healthy) h = record {
  services = h.services;
  flags = h.flags;
}
step-IsCounted (Step.escalated entry live) h = record { services = h.services; flags = h.flags }

zeros-IsPaired {ℓ} : {V : Type ℓ} (d : Dict V) → IsPaired d (zeros d)
unfolding lookup
zeros-IsPaired [] k = refl
zeros-IsPaired ((j, v) ∷ d) k = ground (arith, zeros-IsPaired d k)

start-IsCounted :
    (fixture : IncidentTaskFixture) (run_id : String) → IsCounted (start fixture run_id)
unfolding start
start-IsCounted fixture run_id = record {
  services = zeros-IsPaired fixture.private.services;
  flags = zeros-IsPaired fixture.private.feature_flags;
}

runs-IsCounted :
    (lib : Stdlib) (redact : String → String) (actions : List IncidentAction)
    (e : IncidentEnvironment)
    → IsCounted e
    → IsCounted (execute_all lib redact actions e)
unfolding execute_all
runs-IsCounted lib redact [] e h = h
runs-IsCounted lib redact (action ∷ actions) e h =
    runs-IsCounted lib redact actions _ (step-IsCounted (execute-Steps lib e redact action) h)

-- After any sequence of actions, every service and every flag has its counter.
pub execute_all-IsCounted :
    (lib : Stdlib) (redact : String → String) (actions : List IncidentAction)
    (fixture : IncidentTaskFixture) (run_id : String)
    → IsCounted (execute_all lib redact actions (start fixture run_id))
execute_all-IsCounted lib redact actions fixture run_id =
    runs-IsCounted lib redact actions _ (start-IsCounted fixture run_id)
