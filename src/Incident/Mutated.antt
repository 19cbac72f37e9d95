-- ===== src/Incident/Mutated.antt =====
-- incident_environment.py: `_restart_service` and `_set_feature_flag` keep the invariant.
use agent_learning_loop.Base.{
  ℕ, ◌+◌, String, Bool, true, not, Option, none, some, Dict, lookup, insert, has_key, string_eq,
  sym, JsonValue, bool, Stdlib, ◌≡◌, refl, arith, if_intro,
}
use agent_learning_loop.Incident.Names.{IncidentToolName, incident_tool_eq, ServiceState}
use agent_learning_loop.Incident.Contracts.{IncidentAction}
use agent_learning_loop.Incident.Environment.{
  IncidentEnvironment, Answer, Grant, Operation, audit_record, target_of,
}
use agent_learning_loop.Incident.Approvals.{is_closed}
use agent_learning_loop.Incident.HighImpact.{
  Request, refuse, executed_entry, permits, mutated, run_new, run_request, with_identifiers,
  high_impact, operation_fingerprint,
}
use agent_learning_loop.Incident.Execute.{
  count_restart, perform_restart, restart_service, count_flag, perform_flag, flag_request,
  set_feature_flag, mitigate, heal, before_dot,
}
use agent_learning_loop.Incident.Sound.{IsSound, add_record-IsSound, simulated-IsSound}
use agent_learning_loop.Incident.Committed.{Evident-bump, Evident-other, commit-IsSound}
use agent_learning_loop.Incident.Kept.{reject_with-IsSound, reject-IsSound}

-- A mutation keeps the invariant where a grant permits the request and its operation is new.
abbrev Commits : Stdlib → Request → (IncidentEnvironment → Answer) → Type 0
Commits lib r mutation =
    (e : IncidentEnvironment) (g : Grant)
    → IsSound e
    → lookup r.approval_id e.grants ≡ some g
    → permits lib r e (some g) ≡ true
    → lookup r.operation_id e.operations ≡ none
    → IsSound (mutated lib r (mutation e)).1

count_restart-IsSound :
    (lib : Stdlib) (r : Request) (e : IncidentEnvironment) (g : Grant) (n : Option ℕ)
    (services : Dict ServiceState)
    → r.action.tool_name ≡ IncidentToolName.restart_simulated_service
    → IsSound e
    → lookup r.approval_id e.grants ≡ some g
    → permits lib r e (some g) ≡ true
    → lookup r.operation_id e.operations ≡ none
    → lookup r.target e.restart_counts ≡ n
    → IsSound (mutated lib r (count_restart n r.target (record e { services = services }))).1
count_restart-IsSound lib r e g none services t h granted permit fresh found =
    simulated-IsSound e e.incident_status services e.feature_flags h
count_restart-IsSound lib r e g (some n) services t h granted permit fresh found =
    let a = audit_record (executed_entry lib r true) e in
    commit-IsSound lib r _ e g services e.feature_flags (mitigate e.incident_status)
      (insert r.target (n + 1) e.restart_counts) e.feature_flag_mutations h granted permit fresh
      (Evident-bump _ r.target n e.restart_counts e.audit a found refl (rw t refl) refl h.restarts)
      (Evident-other _ r.action.tool_name e.feature_flag_mutations e.audit a refl
        (rw t (λ same. cc same)) h.flags)

restart-Commits :
    (lib : Stdlib) (r : Request)
    → r.action.tool_name ≡ IncidentToolName.restart_simulated_service
    → Commits lib r (perform_restart r.target)
unfolding perform_restart
restart-Commits lib r t e g h granted permit fresh =
    count_restart-IsSound lib r e g (lookup r.target e.restart_counts)
      (insert r.target ServiceState.healthy e.services) t h granted permit fresh refl

count_flag-IsSound :
    (lib : Stdlib) (r : Request) (enabled : Bool) (e : IncidentEnvironment) (g : Grant)
    (n : Option ℕ) (flags : Dict Bool)
    → r.action.tool_name ≡ IncidentToolName.set_feature_flag
    → IsSound e
    → lookup r.approval_id e.grants ≡ some g
    → permits lib r e (some g) ≡ true
    → lookup r.operation_id e.operations ≡ none
    → lookup r.target e.feature_flag_mutations ≡ n
    → IsSound (mutated lib r (count_flag n r.target enabled (record e { feature_flags = flags }))).1
count_flag-IsSound lib r enabled e g none flags t h granted permit fresh found =
    simulated-IsSound e e.incident_status e.services flags h
count_flag-IsSound lib r enabled e g (some n) flags t h granted permit fresh found =
    let a = audit_record (executed_entry lib r true) e in
    commit-IsSound lib r _ e g (heal (before_dot r.target) e.services) flags
      (mitigate e.incident_status) e.restart_counts
      (insert r.target (n + 1) e.feature_flag_mutations) h granted permit fresh
      (Evident-other _ r.action.tool_name e.restart_counts e.audit a refl (rw t (λ same. cc same))
        h.restarts)
      (Evident-bump _ r.target n e.feature_flag_mutations e.audit a found refl (rw t refl) refl
        h.flags)

flag-Commits :
    (lib : Stdlib) (r : Request) (enabled : Bool)
    → r.action.tool_name ≡ IncidentToolName.set_feature_flag
    → Commits lib r (perform_flag r.target enabled)
unfolding perform_flag
flag-Commits lib r enabled t e g h granted permit fresh =
    count_flag-IsSound lib r enabled e g (lookup r.target e.feature_flag_mutations)
      (insert r.target enabled e.feature_flags) t h granted permit fresh refl

refuse-IsSound :
    (lib : Stdlib) (r : Request) (category : String) (e : IncidentEnvironment)
    → IsSound e
    → IsSound (refuse lib r category e).1
refuse-IsSound lib r category e h = reject_with-IsSound r.action category r.target _ _ _ e h

granted_cases :
    (lib : Stdlib) (r : Request) (mutation : IncidentEnvironment → Answer) (e : IncidentEnvironment)
    (grant : Option Grant)
    → Commits lib r mutation
    → IsSound e
    → lookup r.operation_id e.operations ≡ none
    → lookup r.approval_id e.grants ≡ grant
    → permits lib r e grant ≡ true
    → IsSound (mutated lib r (mutation e)).1
granted_cases lib r mutation e none k h fresh found permit = cc permit
granted_cases lib r mutation e (some g) k h fresh found permit = k e g h found permit fresh

run_new-IsSound :
    (lib : Stdlib) (r : Request) (mutation : IncidentEnvironment → Answer) (e : IncidentEnvironment)
    → Commits lib r mutation
    → lookup r.operation_id e.operations ≡ none
    → IsSound e
    → IsSound (run_new lib r mutation e).1
unfolding run_new
run_new-IsSound lib r mutation e k fresh h =
    if_intro (λ (x : Answer). IsSound x.1) (is_closed e.incident_status) _ _
      (λ _. refuse-IsSound lib r "incident_terminal" e h)
      (λ _.
        if_intro (λ (x : Answer). IsSound x.1)
          (not (permits lib r e (lookup r.approval_id e.grants))) _ _
          (λ _. refuse-IsSound lib r "approval_mismatch" e h)
          (λ permit.
            granted_cases lib r mutation e (lookup r.approval_id e.grants) k h fresh refl
              (ground (arith, permit))))

run_request-IsSound :
    (lib : Stdlib) (r : Request) (previous : Option Operation)
    (mutation : IncidentEnvironment → Answer) (e : IncidentEnvironment)
    → Commits lib r mutation
    → lookup r.operation_id e.operations ≡ previous
    → IsSound e
    → IsSound (run_request lib r previous mutation e).1
run_request-IsSound lib r none mutation e k found h = run_new-IsSound lib r mutation e k found h
run_request-IsSound lib r (some previous) mutation e k found h =
    if_intro (λ (x : Answer). IsSound x.1)
      (not (string_eq.same previous.fingerprint (operation_fingerprint lib r))) _ _
      (λ _. refuse-IsSound lib r "idempotency_conflict" e h) (λ _. add_record-IsSound _ e refl h)

with_identifiers-IsSound :
    (lib : Stdlib) (action : IncidentAction) (target : String) (approval operation : Option String)
    (mutation : IncidentEnvironment → Answer) (e : IncidentEnvironment)
    → ((r : Request) → r.action ≡ action → r.target ≡ target → Commits lib r mutation)
    → IsSound e
    → IsSound (with_identifiers lib action target approval operation mutation e).1
with_identifiers-IsSound lib action target none operation mutation e k h =
    reject-IsSound action _ target e h
with_identifiers-IsSound lib action target (some approval) none mutation e k h =
    reject_with-IsSound action _ target _ _ _ e h
with_identifiers-IsSound lib action target (some approval) (some operation) mutation e k h =
    run_request-IsSound lib _ (lookup operation e.operations) mutation e (k _ refl refl) refl h

high_impact-IsSound :
    (lib : Stdlib) (action : IncidentAction) (target : String)
    (mutation : IncidentEnvironment → Answer) (e : IncidentEnvironment)
    → ((r : Request) → r.action ≡ action → r.target ≡ target → Commits lib r mutation)
    → IsSound e
    → IsSound (high_impact lib action target mutation e).1
unfolding high_impact
high_impact-IsSound lib action target mutation e k h =
    with_identifiers-IsSound lib action target _ _ mutation e k h

pub restart_service-IsSound :
    (lib : Stdlib) (action : IncidentAction) (e : IncidentEnvironment)
    → action.tool_name ≡ IncidentToolName.restart_simulated_service
    → IsSound e
    → IsSound (restart_service lib action e).1
unfolding restart_service
restart_service-IsSound lib action e t h =
    if_intro (λ (x : Answer). IsSound x.1) (has_key (target_of action) e.services) _ _
      (λ _.
        high_impact-IsSound lib action (target_of action) _ e
          (λ r a at. rw (sym at) (restart-Commits lib r (rw a t))) h)
      (λ _. reject-IsSound action _ (target_of action) e h)

flag_request-IsSound :
    (lib : Stdlib) (action : IncidentAction) (target : String) (known : Bool)
    (value : Option JsonValue) (e : IncidentEnvironment)
    → action.tool_name ≡ IncidentToolName.set_feature_flag
    → IsSound e
    → IsSound (flag_request lib action target known value e).1
flag_request-IsSound lib action target true (some (bool enabled)) e t h =
    high_impact-IsSound lib action target (perform_flag target enabled) e
      (λ r a at. rw (sym at) (flag-Commits lib r enabled (rw a t))) h
flag_request-IsSound lib action target _ _ e t h = reject-IsSound action _ target e h

pub set_feature_flag-IsSound :
    (lib : Stdlib) (action : IncidentAction) (e : IncidentEnvironment)
    → action.tool_name ≡ IncidentToolName.set_feature_flag
    → IsSound e
    → IsSound (set_feature_flag lib action e).1
unfolding set_feature_flag
set_feature_flag-IsSound lib action e t h =
    flag_request-IsSound lib action (target_of action) _ _ e t h
