-- ===== src/Incident/Stepped.antt =====
-- incident_environment.py: every call of `execute` makes a step of the relation.
use agent_learning_loop.Base.{
  ℕ, String, Bool, true, false, not, ◌!=◌, string_eq, Option, none, some, lookup, insert, has_key,
  contains, JsonValue, bool, Stdlib, ◌≡◌, refl, if_intro,
}
use agent_learning_loop.Incident.Names.{IncidentToolName, incident_tool_eq, ServiceState}
use agent_learning_loop.Incident.Contracts.{IncidentAction}
use agent_learning_loop.Incident.Environment.{IncidentEnvironment, Answer, Operation, target_of}
use agent_learning_loop.Incident.Observe.{
  get_service_status, read_service_logs, inspect_service_config,
}
use agent_learning_loop.Incident.Approvals.{is_closed}
use agent_learning_loop.Incident.HighImpact.{
  Request, permits, mutated, run_new, run_request, with_identifiers, high_impact,
  operation_fingerprint,
}
use agent_learning_loop.Incident.Execute.{
  count_restart, perform_restart, restart_service, count_flag, perform_flag, flag_request,
  set_feature_flag, dispatch, execute,
}
use agent_learning_loop.Incident.Steps.{Effect, Step}
use agent_learning_loop.Incident.Noted.{
  Steps, reject_with-Steps, report_state-Steps, report_logs-Steps, report_flag-Steps,
  request_approval-Steps, acknowledge-Steps, escalate-Steps,
}

module _ (lib : Stdlib) (e : IncidentEnvironment) where
  count_restart-Effect :
      (n : Option ℕ) (target : String)
      → has_key target e.services ≡ true
      → lookup target e.restart_counts ≡ n
      → Effect e
          (count_restart n target
            (record e { services = insert target ServiceState.healthy e.services })).1
  count_restart-Effect none target known found = Effect.half_restarted target known found
  count_restart-Effect (some n) target known found = Effect.restarted target n known found

  perform_restart-Effect :
      (target : String) → has_key target e.services ≡ true → Effect e (perform_restart target e).1
  unfolding perform_restart
  perform_restart-Effect target known =
      count_restart-Effect (lookup target e.restart_counts) target known refl

  count_flag-Effect :
      (n : Option ℕ) (target : String) (enabled : Bool)
      → has_key target e.feature_flags ≡ true
      → lookup target e.feature_flag_mutations ≡ n
      → Effect e
          (count_flag n target enabled
            (record e { feature_flags = insert target enabled e.feature_flags })).1
  count_flag-Effect none target enabled known found = Effect.half_flagged target enabled known found
  count_flag-Effect (some n) target enabled known found =
      Effect.flagged target enabled n known found

  perform_flag-Effect :
      (target : String) (enabled : Bool)
      → has_key target e.feature_flags ≡ true
      → Effect e (perform_flag target enabled e).1
  unfolding perform_flag
  perform_flag-Effect target enabled known =
      count_flag-Effect (lookup target e.feature_flag_mutations) target enabled known refl

  mutated-Steps :
      (r : Request) (x : Answer)
      → is_closed e.incident_status ≡ false
      → lookup r.operation_id e.operations ≡ none
      → Effect e x.1
      → Steps lib e (mutated lib r x)
  mutated-Steps r (none, e') live fresh effect = Step.raised live effect
  mutated-Steps r (some result, e') live fresh effect = Step.committed r result live fresh effect

  run_request-Steps :
      (r : Request) (previous : Option Operation) (mutation : IncidentEnvironment → Answer)
      → lookup r.operation_id e.operations ≡ previous
      → Effect e (mutation e).1
      → Steps lib e (run_request lib r previous mutation e)
  unfolding run_new
  run_request-Steps r none mutation fresh effect =
      if_intro (Steps lib e) (is_closed e.incident_status) _ _
        (λ _. reject_with-Steps lib e r.action "incident_terminal" r.target _ _ _)
        (λ live.
          if_intro (Steps lib e) (not (permits lib r e (lookup r.approval_id e.grants))) _ _
            (λ _. reject_with-Steps lib e r.action "approval_mismatch" r.target _ _ _)
            (λ _. mutated-Steps r (mutation e) live fresh effect))
  run_request-Steps r (some previous) mutation found effect =
      if_intro (Steps lib e) (previous.fingerprint != operation_fingerprint lib r) _ _
        (λ _. reject_with-Steps lib e r.action "idempotency_conflict" r.target _ _ _)
        (λ _. Step.noted _)

  with_identifiers-Steps :
      (action : IncidentAction) (target : String) (approval operation : Option String)
      (mutation : IncidentEnvironment → Answer)
      → Effect e (mutation e).1
      → Steps lib e (with_identifiers lib action target approval operation mutation e)
  with_identifiers-Steps action target none operation mutation effect =
      reject_with-Steps lib e action "approval_required" target none none none
  with_identifiers-Steps action target (some approval) none mutation effect =
      reject_with-Steps lib e action "operation_required" target (some approval) none none
  with_identifiers-Steps action target (some approval) (some operation) mutation effect =
      run_request-Steps _ (lookup operation e.operations) mutation refl effect

  high_impact-Steps :
      (action : IncidentAction) (target : String) (mutation : IncidentEnvironment → Answer)
      → Effect e (mutation e).1
      → Steps lib e (high_impact lib action target mutation e)
  unfolding high_impact
  high_impact-Steps action target mutation effect =
      with_identifiers-Steps action target _ _ mutation effect

  restart_service-Steps : (action : IncidentAction) → Steps lib e (restart_service lib action e)
  unfolding restart_service
  restart_service-Steps action =
      if_intro (Steps lib e) (has_key (target_of action) e.services) _ _
        (λ known. high_impact-Steps action _ _ (perform_restart-Effect (target_of action) known))
        (λ _. reject_with-Steps lib e action "unknown_service" _ none none none)

  flag_request-Steps :
      (action : IncidentAction) (target : String) (known : Bool) (value : Option JsonValue)
      → has_key target e.feature_flags ≡ known
      → Steps lib e (flag_request lib action target known value e)
  flag_request-Steps action target true (some (bool enabled)) known =
      high_impact-Steps action target _ (perform_flag-Effect target enabled known)
  flag_request-Steps action target _ _ known =
      reject_with-Steps lib e action "invalid_config_mutation" target none none none

  set_feature_flag-Steps : (action : IncidentAction) → Steps lib e (set_feature_flag lib action e)
  unfolding set_feature_flag
  set_feature_flag-Steps action = flag_request-Steps action _ _ _ refl

  dispatch-Steps :
      (redact : String → String) (tool : IncidentToolName) (action : IncidentAction)
      → Steps lib e (dispatch lib redact tool action e)
  unfolding get_service_status read_service_logs inspect_service_config
  dispatch-Steps redact IncidentToolName.get_service_status a = report_state-Steps lib e _ a _
  dispatch-Steps redact IncidentToolName.read_service_logs a = report_logs-Steps lib e redact _ a _
  dispatch-Steps redact IncidentToolName.inspect_service_config a = report_flag-Steps lib e _ a _
  dispatch-Steps redact IncidentToolName.request_approval a = request_approval-Steps lib e a
  dispatch-Steps redact IncidentToolName.set_feature_flag a = set_feature_flag-Steps a
  dispatch-Steps redact IncidentToolName.restart_simulated_service a = restart_service-Steps a
  dispatch-Steps redact IncidentToolName.acknowledge_incident a = acknowledge-Steps lib e a
  dispatch-Steps redact IncidentToolName.escalate_incident a = escalate-Steps lib e a

  pub execute-Steps :
      (redact : String → String) (action : IncidentAction)
      → Step lib e (execute lib redact action e).1
  unfolding execute
  execute-Steps redact action =
      if_intro (Steps lib e) (contains e.fixture.task.allowed_tools action.tool_name) _ _
        (λ _. dispatch-Steps redact action.tool_name action)
        (λ _. reject_with-Steps lib e action "tool_not_allowed" "task" none none none)
