-- ===== src/Incident/Closed.antt =====
-- incident_environment.py: what a closed incident permits, and when an incident is acknowledged.
use agent_learning_loop.Base.{
  String, true, false, List, [], ◌∷◌, Stdlib, ◌≡◌, ◌≢◌, refl, ap, ◌∙◌, arith,
}
use agent_learning_loop.Incident.Names.{IncidentStatus, status_eq, status_beq_iff}
use agent_learning_loop.Incident.Contracts.{IncidentAction, IncidentSnapshot, IncidentTaskFixture}
use agent_learning_loop.Incident.Environment.{IncidentEnvironment, add_record, snapshot, start}
use agent_learning_loop.Incident.Approvals.{is_closed}
use agent_learning_loop.Incident.Execute.{mitigate, all_healthy, execute, execute_all}
use agent_learning_loop.Incident.Steps.{Effect, Step}
use agent_learning_loop.Incident.Stepped.{execute-Steps}

-- A step of a closed incident leaves what the snapshot shows.
step_frozen :
    {lib : Stdlib} {e e' : IncidentEnvironment}
    → Step lib e e'
    → is_closed e.incident_status ≡ true
    → snapshot e' ≡ snapshot e
unfolding snapshot add_record
step_frozen Step.unchanged c = refl
step_frozen (Step.noted entry) c = refl
step_frozen (Step.granted entry id g grounded) c = refl
step_frozen (Step.raised live effect) c = cc
step_frozen (Step.committed r result live fresh effect) c = cc
step_frozen (Step.acknowledged entry live healthy) c = cc
step_frozen (Step.escalated entry live) c = cc

snapshot_status :
    (e e' : IncidentEnvironment) → snapshot e' ≡ snapshot e → e'.incident_status ≡ e.incident_status
unfolding snapshot
snapshot_status e e' h = ap (λ (s : IncidentSnapshot). s.incident_status) h

-- Once an incident is acknowledged or escalated, no sequence of actions changes what its snapshot
-- shows: the services, the flags, the status and the counters.
pub closed_is_final :
    (lib : Stdlib) (redact : String → String) (actions : List IncidentAction)
    (e : IncidentEnvironment)
    → is_closed e.incident_status ≡ true
    → snapshot (execute_all lib redact actions e) ≡ snapshot e
unfolding execute_all
closed_is_final lib redact [] e c = refl
closed_is_final lib redact (action ∷ actions) e c =
    let e' = (execute lib redact action e).1 in
    let same : snapshot e' ≡ snapshot e = step_frozen (execute-Steps lib e redact action) c in
    closed_is_final lib redact actions e' (rw (snapshot_status e e' same) c) ∙ same

-- An acknowledged incident has healthy services.
abbrev IsHealed : IncidentEnvironment → Type 0
IsHealed e = e.incident_status ≡ IncidentStatus.acknowledged → all_healthy e.services ≡ true

mitigate_live :
    (status : IncidentStatus)
    → is_closed status ≡ false
    → mitigate status ≢ IncidentStatus.acknowledged
mitigate_live status live = ground (arith, status_beq_iff status IncidentStatus.opened)

effect_live :
    {e e' : IncidentEnvironment}
    → Effect e e'
    → is_closed e.incident_status ≡ false
    → e'.incident_status ≢ IncidentStatus.acknowledged
effect_live {e = e} (Effect.restarted target n known found) live =
    mitigate_live e.incident_status live
effect_live {e = e} (Effect.half_restarted target known found) live = cc
effect_live {e = e} (Effect.flagged target enabled n known found) live =
    mitigate_live e.incident_status live
effect_live {e = e} (Effect.half_flagged target enabled known found) live = cc

step-IsHealed :
    {lib : Stdlib} {e e' : IncidentEnvironment} → Step lib e e' → IsHealed e → IsHealed e'
unfolding add_record
step-IsHealed Step.unchanged h = h
step-IsHealed (Step.noted entry) h = h
step-IsHealed (Step.granted entry id g grounded) h = h
step-IsHealed (Step.raised live effect) h = λ a. absurd (effect_live effect live a)
step-IsHealed (Step.committed r result live fresh effect) h =
    λ a. absurd (effect_live effect live a)
step-IsHealed (Step.acknowledged entry live healthy) h = λ _. healthy
step-IsHealed (Step.escalated entry live) h = λ a. cc a

runs-IsHealed :
    (lib : Stdlib) (redact : String → String) (actions : List IncidentAction)
    (e : IncidentEnvironment)
    → IsHealed e
    → IsHealed (execute_all lib redact actions e)
unfolding execute_all
runs-IsHealed lib redact [] e h = h
runs-IsHealed lib redact (action ∷ actions) e h =
    runs-IsHealed lib redact actions _ (step-IsHealed (execute-Steps lib e redact action) h)

-- An incident that is not acknowledged at the start, and is after a sequence of actions, has every
-- service healthy then.
pub acknowledged_is_healthy :
    (lib : Stdlib) (redact : String → String) (actions : List IncidentAction)
    (fixture : IncidentTaskFixture) (run_id : String)
    → fixture.private.incident_status ≢ IncidentStatus.acknowledged
    → (execute_all lib redact actions (start fixture run_id)).incident_status
      ≡ IncidentStatus.acknowledged
    → all_healthy (execute_all lib redact actions (start fixture run_id)).services ≡ true
unfolding start
acknowledged_is_healthy lib redact actions fixture run_id fresh =
    runs-IsHealed lib redact actions _ (λ a. absurd (fresh a))
