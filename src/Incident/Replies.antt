-- ===== src/Incident/Replies.antt =====
-- incident_environment.py: the answers of the tools that change no counter are results, not exceptions.
use agent_learning_loop.Base.{
  String, Bool, true, false, Option, none, some, is_some, string_eq, ◌==◌, ◌≡◌, refl, if_intro,
}
use agent_learning_loop.Incident.Names.{IncidentToolName, incident_tool_eq, ServiceState}
use agent_learning_loop.Incident.Contracts.{IncidentAction, IncidentApprovalRule}
use agent_learning_loop.Incident.Environment.{IncidentEnvironment, Answer, reject_with}
use agent_learning_loop.Incident.Observe.{report_state, report_logs, report_flag}
use agent_learning_loop.Incident.Approvals.{is_closed, tool_of_text, deny_unmatched, decide_request}
use agent_learning_loop.Incident.Execute.{all_healthy, acknowledge, escalate_for, escalate}

-- An answer that is a result and not an exception.
abbrev pub Answers : Answer → Type 0
Answers x = is_some x.0 ≡ true

module _ (e : IncidentEnvironment) where
  pub reject_with-Answers :
      (action : IncidentAction) (category target : String)
      (approval operation fingerprint : Option String)
      → Answers (reject_with action category target approval operation fingerprint e)
  unfolding reject_with
  reject_with-Answers action category target approval operation fingerprint = refl

  pub report_state-Answers :
      (state : Option ServiceState) (action : IncidentAction) (target : String)
      → Answers (report_state state action target e)
  report_state-Answers none action target = reject_with-Answers action _ target none none none
  report_state-Answers (some state) action target = refl

  pub report_logs-Answers :
      (redact : String → String) (state : Option ServiceState) (action : IncidentAction)
      (target : String)
      → Answers (report_logs redact state action target e)
  report_logs-Answers redact none action target = reject_with-Answers action _ target none none none
  report_logs-Answers redact (some state) action target = refl

  pub report_flag-Answers :
      (enabled : Option Bool) (action : IncidentAction) (target : String)
      → Answers (report_flag enabled action target e)
  report_flag-Answers none action target = reject_with-Answers action _ target none none none
  report_flag-Answers (some enabled) action target = refl

  pub deny_unmatched-Answers :
      (tool : Option IncidentToolName) (target fingerprint : String)
      → is_some tool ≡ true
      → (target == "") ≡ false
      → Answers (deny_unmatched tool target fingerprint e)
  deny_unmatched-Answers none target fingerprint t n = cc t
  deny_unmatched-Answers (some tool) target fingerprint t n = rw n refl

  pub decide_request-Answers :
      (rule : Option IncidentApprovalRule) (tool target fingerprint : String)
      → is_some (tool_of_text tool) ≡ true
      → (target == "") ≡ false
      → Answers (decide_request rule tool target fingerprint e)
  decide_request-Answers none tool target fingerprint t n =
      deny_unmatched-Answers (tool_of_text tool) target fingerprint t n
  decide_request-Answers (some rule) tool target fingerprint t n =
      if_intro Answers rule.approves _ _ (λ _. refl) (λ _. refl)

  pub acknowledge-Answers : (action : IncidentAction) → Answers (acknowledge action e)
  unfolding acknowledge
  acknowledge-Answers action =
      if_intro Answers (is_closed e.incident_status) _ _
        (λ _. reject_with-Answers action "incident_terminal" "incident" none none none)
        (λ _.
          if_intro Answers (all_healthy e.services) _ _ (λ _. refl)
            (λ _. reject_with-Answers action "incident_not_mitigated" "incident" none none none))

  pub escalate_for-Answers :
      (reason : Option String) (action : IncidentAction) → Answers (escalate_for reason action e)
  escalate_for-Answers none action =
      reject_with-Answers action "invalid_escalation" "incident" none none none
  escalate_for-Answers (some reason) action = refl

  pub escalate-Answers : (action : IncidentAction) → Answers (escalate action e)
  unfolding escalate
  escalate-Answers action =
      if_intro Answers (is_closed e.incident_status) _ _
        (λ _. reject_with-Answers action "incident_terminal" "incident" none none none)
        (λ _. escalate_for-Answers _ action)
