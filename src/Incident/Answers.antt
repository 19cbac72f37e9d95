-- ===== src/Incident/Answers.antt =====
-- incident_environment.py: a validated action raises no exception.
use agent_learning_loop.Base.{
  ℕ, String, Bool, true, false, not, ◌&&◌, Option, none, some, is_some, List, [], ◌∷◌, lookup,
  has_key, contains, find?, eq_iff, string_eq, ◌==◌, ◌!=◌, JsonValue, str, bool, obj, fields,
  Stdlib, canonical_sha256, ◌≡◌, refl, sym, ◌∙◌, arith, if_intro,
}
use agent_learning_loop.Incident.Names.{IncidentToolName, incident_tool_eq}
use agent_learning_loop.Incident.Contracts.{IncidentAction, IncidentTaskFixture, action_object}
use agent_learning_loop.Incident.Environment.{
  IncidentEnvironment, Answer, Operation, start, reject_with, target_of, as_text,
}
use agent_learning_loop.Incident.Observe.{
  get_service_status, read_service_logs, inspect_service_config,
}
use agent_learning_loop.Incident.Approvals.{
  is_closed, tool_of_text, matches_rule, request_parts, request_approval,
}
use agent_learning_loop.Incident.HighImpact.{
  Request, refuse, permits, mutated, run_new, run_request, with_identifiers, high_impact,
  operation_fingerprint,
}
use agent_learning_loop.Incident.Execute.{
  count_restart, perform_restart, restart_service, count_flag, perform_flag, flag_request,
  set_feature_flag, dispatch, execute, execute_all,
}
use agent_learning_loop.Incident.Arguments.{
  accepts_action, accepts_arguments, accepts_approval, is_text_in, is_nonempty_text,
}
use agent_learning_loop.Incident.Counted.{IsCounted, execute_all-IsCounted}
use agent_learning_loop.Incident.Replies.{
  Answers, reject_with-Answers, report_state-Answers, report_logs-Answers, report_flag-Answers,
  decide_request-Answers, acknowledge-Answers, escalate-Answers,
}

middle_parts : (a b c d : Bool) → (a && b && c && d) ≡ true → (b ≡ true) × (c ≡ true)
middle_parts a b c d h = ground arith

module _ (lib : Stdlib) (e : IncidentEnvironment) where
  known_tool :
      (value : Option JsonValue) (text : String)
      → is_text_in ("set_feature_flag" ∷ "restart_simulated_service" ∷ []) value ≡ true
      → as_text value ≡ some text
      → is_some (tool_of_text text) ≡ true
  known_tool (some (str s)) text t a =
      ground (arith, eq_iff s "set_feature_flag", eq_iff s "restart_simulated_service")
  known_tool _ text t a = cc

  nonempty_target :
      (value : Option JsonValue) (text : String)
      → is_nonempty_text value ≡ true
      → as_text value ≡ some text
      → (text == "") ≡ false
  nonempty_target (some (str s)) text n a = ground arith
  nonempty_target _ text n a = cc

  request_parts-Answers :
      (action : IncidentAction) (tool target : Option String) (arguments : Option JsonValue)
      → ((t : String) → tool ≡ some t → is_some (tool_of_text t) ≡ true)
      → ((t : String) → target ≡ some t → (t == "") ≡ false)
      → Answers (request_parts lib action tool target arguments e)
  request_parts-Answers action (some tool) (some target) (some (obj arguments)) t n =
      decide_request-Answers e
        (find?
          (matches_rule lib tool target
            (canonical_sha256 lib (obj (fields (action_object tool target (obj arguments))))))
          e.fixture.private.approvals)
        tool target _ (t tool refl) (n target refl)
  request_parts-Answers action _ _ _ t n = reject_with-Answers e action _ "task" none none none

  request_approval-Answers :
      (action : IncidentAction)
      → accepts_approval action.arguments ≡ true
      → Answers (request_approval lib action e)
  unfolding request_approval
  request_approval-Answers action accepted =
      let (tool, target) = middle_parts _ _ _ _ accepted in
      if_intro Answers (is_closed e.incident_status) _ _
        (λ _. reject_with-Answers e action "incident_terminal" "incident" none none none)
        (λ _.
          request_parts-Answers action _ _ _
            (λ text. known_tool (lookup "tool_name" action.arguments) text tool)
            (λ text. nonempty_target (lookup "target" action.arguments) text target))

  count_restart-Answers :
      (n : Option ℕ) (target : String) (e' : IncidentEnvironment)
      → is_some n ≡ true
      → Answers (count_restart n target e')
  count_restart-Answers none target e' h = cc h
  count_restart-Answers (some n) target e' h = refl

  count_flag-Answers :
      (n : Option ℕ) (target : String) (enabled : Bool) (e' : IncidentEnvironment)
      → is_some n ≡ true
      → Answers (count_flag n target enabled e')
  count_flag-Answers none target enabled e' h = cc h
  count_flag-Answers (some n) target enabled e' h = refl

  mutated-Answers : (r : Request) (x : Answer) → Answers x → Answers (mutated lib r x)
  mutated-Answers r (none, e') h = h
  mutated-Answers r (some result, e') h = refl

  refuse-Answers : (r : Request) (category : String) → Answers (refuse lib r category e)
  unfolding reject_with
  refuse-Answers r category = refl

  run_request-Answers :
      (r : Request) (previous : Option Operation) (mutation : IncidentEnvironment → Answer)
      → Answers (mutation e)
      → Answers (run_request lib r previous mutation e)
  unfolding run_new
  run_request-Answers r none mutation h =
      if_intro Answers (is_closed e.incident_status) _ _ (λ _. refuse-Answers r "incident_terminal")
        (λ _.
          if_intro Answers (not (permits lib r e (lookup r.approval_id e.grants))) _ _
            (λ _. refuse-Answers r "approval_mismatch") (λ _. mutated-Answers r (mutation e) h))
  run_request-Answers r (some previous) mutation h =
      if_intro Answers (previous.fingerprint != operation_fingerprint lib r) _ _
        (λ _. refuse-Answers r "idempotency_conflict") (λ _. refl)

  with_identifiers-Answers :
      (action : IncidentAction) (target : String) (approval operation : Option String)
      (mutation : IncidentEnvironment → Answer)
      → Answers (mutation e)
      → Answers (with_identifiers lib action target approval operation mutation e)
  with_identifiers-Answers action target none operation mutation h =
      reject_with-Answers e action "approval_required" target none none none
  with_identifiers-Answers action target (some approval) none mutation h =
      reject_with-Answers e action "operation_required" target (some approval) none none
  with_identifiers-Answers action target (some approval) (some operation) mutation h =
      run_request-Answers _ (lookup operation e.operations) mutation h

  high_impact-Answers :
      (action : IncidentAction) (target : String) (mutation : IncidentEnvironment → Answer)
      → Answers (mutation e)
      → Answers (high_impact lib action target mutation e)
  unfolding high_impact
  high_impact-Answers action target mutation h =
      with_identifiers-Answers action target _ _ mutation h

  restart_service-Answers :
      (action : IncidentAction) → IsCounted e → Answers (restart_service lib action e)
  unfolding restart_service perform_restart
  restart_service-Answers action c =
      if_intro Answers (has_key (target_of action) e.services) _ _
        (λ known. high_impact-Answers action _ _ (
          count_restart-Answers (lookup (target_of action) e.restart_counts) _ _
            (sym (c.services (target_of action)) ∙ known)))
        (λ _. reject_with-Answers e action "unknown_service" _ none none none)

  flag_request-Answers :
      (action : IncidentAction) (target : String) (known : Bool) (value : Option JsonValue)
      → IsCounted e
      → has_key target e.feature_flags ≡ known
      → Answers (flag_request lib action target known value e)
  unfolding perform_flag
  flag_request-Answers action target true (some (bool enabled)) c known =
      high_impact-Answers action target _ (
        count_flag-Answers (lookup target e.feature_flag_mutations) target enabled _
          (sym (c.flags target) ∙ known))
  flag_request-Answers action target _ _ c known =
      reject_with-Answers e action "invalid_config_mutation" target none none none

  set_feature_flag-Answers :
      (action : IncidentAction) → IsCounted e → Answers (set_feature_flag lib action e)
  unfolding set_feature_flag
  set_feature_flag-Answers action c = flag_request-Answers action _ _ _ c refl

  dispatch-Answers :
      (redact : String → String) (tool : IncidentToolName) (action : IncidentAction)
      → accepts_arguments tool action.arguments ≡ true
      → IsCounted e
      → Answers (dispatch lib redact tool action e)
  unfolding get_service_status read_service_logs inspect_service_config
  dispatch-Answers redact IncidentToolName.get_service_status a p c = report_state-Answers e _ a _
  dispatch-Answers redact IncidentToolName.read_service_logs a p c =
      report_logs-Answers e redact _ a _
  dispatch-Answers redact IncidentToolName.inspect_service_config a p c =
      report_flag-Answers e _ a _
  dispatch-Answers redact IncidentToolName.request_approval a p c = request_approval-Answers a p
  dispatch-Answers redact IncidentToolName.set_feature_flag a p c = set_feature_flag-Answers a c
  dispatch-Answers redact IncidentToolName.restart_simulated_service a p c =
      restart_service-Answers a c
  dispatch-Answers redact IncidentToolName.acknowledge_incident a p c = acknowledge-Answers e a
  dispatch-Answers redact IncidentToolName.escalate_incident a p c = escalate-Answers e a

  execute-Answers :
      (redact : String → String) (action : IncidentAction)
      → accepts_action action ≡ true
      → IsCounted e
      → Answers (execute lib redact action e)
  unfolding execute accepts_action
  execute-Answers redact action p c =
      if_intro Answers (contains e.fixture.task.allowed_tools action.tool_name) _ _
        (λ _. dispatch-Answers redact action.tool_name action p c)
        (λ _. reject_with-Answers e action "tool_not_allowed" "task" none none none)

-- In a run whose id is not empty, after any sequence of actions, valid or not, an action that its
-- validator accepts is answered with a result: `execute` raises no exception.
pub execute_answers :
    (lib : Stdlib) (redact : String → String) (before : List IncidentAction)
    (action : IncidentAction) (fixture : IncidentTaskFixture) (run_id : String)
    → (run_id == "") ≡ false
    → accepts_action action ≡ true
    → is_some (execute lib redact action (execute_all lib redact before (start fixture run_id))).0
      ≡ true
execute_answers lib redact before action fixture run_id named accepted =
    execute-Answers lib _ redact action accepted
      (execute_all-IsCounted lib redact before fixture run_id)
