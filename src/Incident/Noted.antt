-- ===== src/Incident/Noted.antt =====
-- incident_environment.py: the tools that mutate nothing make a step of the relation.
use agent_learning_loop.Base.{
  String, Bool, false, string_eq, Option, none, some, find?, find?-passes, find?-any, eq_iff, any,
  true, arith, refl, JsonValue, obj, fields, ◌==◌, Stdlib, canonical_sha256, ◌≡◌, if_intro,
}
use agent_learning_loop.Incident.Names.{IncidentToolName, incident_tool_eq, ServiceState}
use agent_learning_loop.Incident.Contracts.{
  IncidentApprovalRule, canonical_action, IncidentAction, action_object,
}
use agent_learning_loop.Incident.Environment.{IncidentEnvironment, Answer, reject_with}
use agent_learning_loop.Incident.Observe.{report_state, report_logs, report_flag}
use agent_learning_loop.Incident.Approvals.{
  is_closed, tool_of_text, matches_rule, deny_unmatched, apply_rule, decide_request, request_parts,
  request_approval,
}
use agent_learning_loop.Incident.Execute.{all_healthy, acknowledge, escalate_for, escalate}
use agent_learning_loop.Incident.Steps.{Step}

-- An answer whose environment is a step away.
abbrev pub Steps : Stdlib → IncidentEnvironment → Answer → Type 0
Steps lib e x = Step lib e x.1

module _ (lib : Stdlib) (e : IncidentEnvironment) where
  pub reject_with-Steps :
      (action : IncidentAction) (category target : String)
      (approval operation fingerprint : Option String)
      → Steps lib e (reject_with action category target approval operation fingerprint e)
  unfolding reject_with
  reject_with-Steps action category target approval operation fingerprint = Step.noted _

  pub report_state-Steps :
      (state : Option ServiceState) (action : IncidentAction) (target : String)
      → Steps lib e (report_state state action target e)
  report_state-Steps none action target = reject_with-Steps action _ target none none none
  report_state-Steps (some state) action target = Step.noted _

  pub report_logs-Steps :
      (redact : String → String) (state : Option ServiceState) (action : IncidentAction)
      (target : String)
      → Steps lib e (report_logs redact state action target e)
  report_logs-Steps redact none action target = reject_with-Steps action _ target none none none
  report_logs-Steps redact (some state) action target = Step.noted _

  pub report_flag-Steps :
      (enabled : Option Bool) (action : IncidentAction) (target : String)
      → Steps lib e (report_flag enabled action target e)
  report_flag-Steps none action target = reject_with-Steps action _ target none none none
  report_flag-Steps (some enabled) action target = Step.noted _

  apply_rule-Steps :
      (rule : IncidentApprovalRule) (target fingerprint : String)
      → ((p : IncidentApprovalRule → Bool)
          → p rule ≡ true
          → any p e.fixture.private.approvals ≡ true)
      → canonical_sha256 lib (canonical_action rule) ≡ fingerprint
      → Steps lib e (apply_rule rule target fingerprint e)
  apply_rule-Steps rule target fingerprint among same =
      if_intro (Steps lib e) rule.approves _ _
        (λ approves.
          Step.granted _ _ _ (record { among = among; approves = approves; fingerprint = same }))
        (λ _. Step.noted _)

  deny_unmatched-Steps :
      (tool : Option IncidentToolName) (target fingerprint : String)
      → Steps lib e (deny_unmatched tool target fingerprint e)
  deny_unmatched-Steps none target fingerprint = Step.unchanged
  deny_unmatched-Steps (some tool) target fingerprint =
      if_intro (Steps lib e) (target == "") _ _ (λ _. Step.unchanged) (λ _. Step.noted _)

  matches_rule-fingerprint :
      (tool target fingerprint : String) (rule : IncidentApprovalRule)
      → matches_rule lib tool target fingerprint rule ≡ true
      → canonical_sha256 lib (canonical_action rule) ≡ fingerprint
  unfolding matches_rule
  matches_rule-fingerprint tool target fingerprint rule h =
      ground (arith, h, eq_iff (canonical_sha256 lib (canonical_action rule)) fingerprint)

  decide_request-Steps :
      (rule : Option IncidentApprovalRule) (tool target fingerprint : String)
      → find? (matches_rule lib tool target fingerprint) e.fixture.private.approvals ≡ rule
      → Steps lib e (decide_request rule tool target fingerprint e)
  decide_request-Steps none tool target fingerprint found =
      deny_unmatched-Steps (tool_of_text tool) target fingerprint
  decide_request-Steps (some rule) tool target fingerprint found =
      let rules = e.fixture.private.approvals in
      apply_rule-Steps rule target fingerprint (λ p h. find?-any _ p rules rule found h)
        (matches_rule-fingerprint tool target fingerprint rule (find?-passes _ rules rule found))

  request_parts-Steps :
      (action : IncidentAction) (tool target : Option String) (arguments : Option JsonValue)
      → Steps lib e (request_parts lib action tool target arguments e)
  request_parts-Steps action (some tool) (some target) (some (obj arguments)) =
      decide_request-Steps
        (find?
          (matches_rule lib tool target
            (canonical_sha256 lib (obj (fields (action_object tool target (obj arguments))))))
          e.fixture.private.approvals)
        tool target _ refl
  request_parts-Steps action _ _ _ = reject_with-Steps action _ "task" none none none

  pub request_approval-Steps :
      (action : IncidentAction) → Steps lib e (request_approval lib action e)
  unfolding request_approval
  request_approval-Steps action =
      if_intro (Steps lib e) (is_closed e.incident_status) _ _
        (λ _. reject_with-Steps action "incident_terminal" "incident" none none none)
        (λ _. request_parts-Steps action _ _ _)

  pub acknowledge-Steps : (action : IncidentAction) → Steps lib e (acknowledge action e)
  unfolding acknowledge
  acknowledge-Steps action =
      if_intro (Steps lib e) (is_closed e.incident_status) _ _
        (λ _. reject_with-Steps action "incident_terminal" "incident" none none none)
        (λ live.
          if_intro (Steps lib e) (all_healthy e.services) _ _
            (λ healthy. Step.acknowledged _ live healthy)
            (λ _. reject_with-Steps action "incident_not_mitigated" "incident" none none none))

  escalate_for-Steps :
      (reason : Option String) (action : IncidentAction)
      → is_closed e.incident_status ≡ false
      → Steps lib e (escalate_for reason action e)
  escalate_for-Steps none action live =
      reject_with-Steps action "invalid_escalation" "incident" none none none
  escalate_for-Steps (some reason) action live = Step.escalated _ live

  pub escalate-Steps : (action : IncidentAction) → Steps lib e (escalate action e)
  unfolding escalate
  escalate-Steps action =
      if_intro (Steps lib e) (is_closed e.incident_status) _ _
        (λ _. reject_with-Steps action "incident_terminal" "incident" none none none)
        (λ live. escalate_for-Steps _ action live)
