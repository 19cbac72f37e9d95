-- ===== src/Incident/Kept.antt =====
-- incident_environment.py: the tools that observe, acknowledge, escalate and ask for an approval keep
-- the invariant.
use agent_learning_loop.Base.{
  String, Bool, true, Option, none, some, List, lookup, any, any_last, find?, find?-passes,
  string_eq, option_eq, ◌==◌, eq_iff, Stdlib, canonical_sha256, JsonValue, obj, fields, ◌≡◌, refl,
  sym, arith, if_intro, Bool-cases, inl, inr,
}
use agent_learning_loop.Incident.Names.{
  IncidentToolName, incident_tool_eq, incident_tool_beq_iff, ServiceState, AuditDecision,
}
use agent_learning_loop.Incident.Contracts.{IncidentApprovalRule, IncidentAction, action_object}
use agent_learning_loop.Incident.Environment.{
  IncidentEnvironment, Grant, Answer, add_record, reject_with, reject, target_of,
}
use agent_learning_loop.Incident.Observe.{
  get_service_status, read_service_logs, inspect_service_config, report_state, report_logs,
  report_flag,
}
use agent_learning_loop.Incident.Approvals.{
  is_closed, tool_of_text, matches_rule, approval_entry, deny_unmatched, apply_rule, decide_request,
  request_parts, request_approval,
}
use agent_learning_loop.Incident.Execute.{all_healthy, acknowledge, escalate, escalate_for}
use agent_learning_loop.Incident.Audit.{is_approval_of}
use agent_learning_loop.Incident.Sound.{
  IsSound, add_record-IsSound, simulated-IsSound, grant-IsSound,
}

pub reject_with-IsSound :
    (action : IncidentAction) (category target : String)
    (approval operation fingerprint : Option String) (e : IncidentEnvironment)
    → IsSound e
    → IsSound (reject_with action category target approval operation fingerprint e).1
unfolding reject_with
reject_with-IsSound action category target approval operation fingerprint e h =
    add_record-IsSound _ e refl h

pub reject-IsSound :
    (action : IncidentAction) (category target : String) (e : IncidentEnvironment)
    → IsSound e
    → IsSound (reject action category target e).1
reject-IsSound action category target e h =
    reject_with-IsSound action category target none none none e h

report_state-IsSound :
    (state : Option ServiceState) (action : IncidentAction) (target : String)
    (e : IncidentEnvironment)
    → IsSound e
    → IsSound (report_state state action target e).1
report_state-IsSound none action target e h = reject-IsSound action _ target e h
report_state-IsSound (some state) action target e h = add_record-IsSound _ e refl h

pub get_service_status-IsSound :
    (action : IncidentAction) (e : IncidentEnvironment)
    → IsSound e
    → IsSound (get_service_status action e).1
unfolding get_service_status
get_service_status-IsSound action e h =
    report_state-IsSound (lookup (target_of action) e.services) action (target_of action) e h

report_logs-IsSound :
    (redact : String → String) (state : Option ServiceState) (action : IncidentAction)
    (target : String) (e : IncidentEnvironment)
    → IsSound e
    → IsSound (report_logs redact state action target e).1
report_logs-IsSound redact none action target e h = reject-IsSound action _ target e h
report_logs-IsSound redact (some state) action target e h = add_record-IsSound _ e refl h

pub read_service_logs-IsSound :
    (redact : String → String) (action : IncidentAction) (e : IncidentEnvironment)
    → IsSound e
    → IsSound (read_service_logs redact action e).1
unfolding read_service_logs
read_service_logs-IsSound redact action e h =
    report_logs-IsSound redact (lookup (target_of action) e.services) action (target_of action) e h

report_flag-IsSound :
    (enabled : Option Bool) (action : IncidentAction) (target : String) (e : IncidentEnvironment)
    → IsSound e
    → IsSound (report_flag enabled action target e).1
report_flag-IsSound none action target e h = reject-IsSound action _ target e h
report_flag-IsSound (some enabled) action target e h = add_record-IsSound _ e refl h

pub inspect_service_config-IsSound :
    (action : IncidentAction) (e : IncidentEnvironment)
    → IsSound e
    → IsSound (inspect_service_config action e).1
unfolding inspect_service_config
inspect_service_config-IsSound action e h =
    report_flag-IsSound (lookup (target_of action) e.feature_flags) action (target_of action) e h

module _ (rule : IncidentApprovalRule) (fingerprint : String) (e : IncidentEnvironment) where
  abbrev given : Grant
  given = record {
    rule = rule;
    fingerprint = fingerprint;
    run_id = e.run_id;
    task_id = e.fixture.task.task_id;
  }

  -- the audit after an approval has the approval that its grant needs
  granted_by :
      any
        (is_approval_of rule.approval_id given)
        (add_record
          (approval_entry rule.tool_name rule.target fingerprint AuditDecision.approved
            (some rule.approval_id))
          e).audit
      ≡ true
  unfolding add_record
  granted_by = any_last (is_approval_of rule.approval_id given) e.audit _ (
      ground (
        arith,
        eq_iff rule.approval_id rule.approval_id,
        eq_iff rule.target rule.target,
        eq_iff fingerprint fingerprint,
        incident_tool_beq_iff rule.tool_name rule.tool_name,
      ))

  applied : IsSound e → IsSound (apply_rule rule rule.target fingerprint e).1
  unfolding add_record
  applied h = elim (Bool-cases rule.approves) [
    | inl approved ↦
        simp approved
          (grant-IsSound rule.approval_id given _ granted_by (add_record-IsSound _ e refl h))
    | inr denied ↦ simp denied (add_record-IsSound _ e refl h)
  ]

-- a rule is applied to the target that it is for
apply_rule-IsSound :
    (rule : IncidentApprovalRule) (target fingerprint : String) (e : IncidentEnvironment)
    → rule.target ≡ target
    → IsSound e
    → IsSound (apply_rule rule target fingerprint e).1
apply_rule-IsSound rule target fingerprint e t h = rw (sym t) (applied rule fingerprint e h)

deny_unmatched-IsSound :
    (tool : Option IncidentToolName) (target fingerprint : String) (e : IncidentEnvironment)
    → IsSound e
    → IsSound (deny_unmatched tool target fingerprint e).1
deny_unmatched-IsSound none target fingerprint e h = h
deny_unmatched-IsSound (some tool) target fingerprint e h =
    if_intro (λ (x : Answer). IsSound x.1) (target == "") _ _ (λ _. h)
      (λ _. add_record-IsSound _ e refl h)

decide_request-IsSound :
    (rule : Option IncidentApprovalRule) (tool target fingerprint : String)
    (e : IncidentEnvironment)
    → ((r : IncidentApprovalRule) → rule ≡ some r → r.target ≡ target)
    → IsSound e
    → IsSound (decide_request rule tool target fingerprint e).1
decide_request-IsSound none tool target fingerprint e t h =
    deny_unmatched-IsSound (tool_of_text tool) target fingerprint e h
decide_request-IsSound (some rule) tool target fingerprint e t h =
    apply_rule-IsSound rule target fingerprint e (t rule refl) h

same_target :
    (lib : Stdlib) (tool target fingerprint : String) (rules : List IncidentApprovalRule)
    (rule : IncidentApprovalRule)
    → find? (matches_rule lib tool target fingerprint) rules ≡ some rule
    → rule.target ≡ target
unfolding matches_rule
same_target lib tool target fingerprint rules rule h = ground (
  arith,
  eq_iff rule.target target,
  find?-passes (matches_rule lib tool target fingerprint) rules rule h,
)

request_parts-IsSound :
    (lib : Stdlib) (action : IncidentAction) (tool target : Option String)
    (arguments : Option JsonValue) (e : IncidentEnvironment)
    → IsSound e
    → IsSound (request_parts lib action tool target arguments e).1
request_parts-IsSound lib action (some tool) (some target) (some (obj arguments)) e h =
    decide_request-IsSound
      (find?
        (matches_rule lib tool target
          (canonical_sha256 lib (obj (fields (action_object tool target (obj arguments))))))
        e.fixture.private.approvals)
      tool target _ e (λ rule found. same_target lib tool target _ _ rule found) h
request_parts-IsSound lib action _ _ _ e h = reject-IsSound action _ "task" e h

pub request_approval-IsSound :
    (lib : Stdlib) (action : IncidentAction) (e : IncidentEnvironment)
    → IsSound e
    → IsSound (request_approval lib action e).1
unfolding request_approval
request_approval-IsSound lib action e h =
    if_intro (λ (x : Answer). IsSound x.1) (is_closed e.incident_status) _ _
      (λ _. reject-IsSound action "incident_terminal" "incident" e h)
      (λ _. request_parts-IsSound lib action _ _ _ e h)

pub acknowledge-IsSound :
    (action : IncidentAction) (e : IncidentEnvironment)
    → IsSound e
    → IsSound (acknowledge action e).1
unfolding acknowledge
acknowledge-IsSound action e h =
    if_intro (λ (x : Answer). IsSound x.1) (is_closed e.incident_status) _ _
      (λ _. reject-IsSound action _ "incident" e h)
      (λ _.
        if_intro (λ (x : Answer). IsSound x.1) (all_healthy e.services) _ _
          (λ _. add_record-IsSound _ _ refl (simulated-IsSound e _ _ _ h))
          (λ _. reject-IsSound action _ "incident" e h))

escalate_for-IsSound :
    (reason : Option String) (action : IncidentAction) (e : IncidentEnvironment)
    → IsSound e
    → IsSound (escalate_for reason action e).1
escalate_for-IsSound none action e h = reject-IsSound action _ "incident" e h
escalate_for-IsSound (some reason) action e h =
    add_record-IsSound _ _ refl (simulated-IsSound e _ _ _ h)

pub escalate-IsSound :
    (action : IncidentAction) (e : IncidentEnvironment) → IsSound e → IsSound (escalate action e).1
unfolding escalate
escalate-IsSound action e h =
    if_intro (λ (x : Answer). IsSound x.1) (is_closed e.incident_status) _ _
      (λ _. reject-IsSound action _ "incident" e h) (λ _. escalate_for-IsSound _ action e h)
