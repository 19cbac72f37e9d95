-- ===== src/Incident/Approvals.antt =====
-- incident_environment.py: approvals, and the guards of the tools that change the simulated system.
use agent_learning_loop.Base.{
  String, Bool, ◌&&◌, Option, none, some, [], ◌∷◌, lookup, insert, find?, contains, JsonValue, str,
  obj, fields, string_eq, ◌==◌, Stdlib, canonical_sha256, if◌then◌else◌,
}
use agent_learning_loop.Incident.Names.{
  IncidentToolName, incident_tool_eq, incident_tool_text, IncidentStatus, status_eq, AuditCategory,
  AuditDecision,
}
use agent_learning_loop.Incident.Contracts.{
  IncidentApprovalRule, canonical_action, action_object, IncidentAction,
}
use agent_learning_loop.Incident.Environment.{
  IncidentEnvironment, Answer, as_text, Entry, plain_entry, add_record, rejection, success, reject,
  reject_with,
}

-- `self._incident_status in {"acknowledged", "escalated"}`
abbrev pub is_closed : IncidentStatus → Bool
is_closed status = contains (IncidentStatus.acknowledged ∷ IncidentStatus.escalated ∷ []) status

-- a tool name as text; pydantic refuses any other in an audit record
abbrev pub tool_of_text : String → Option IncidentToolName
tool_of_text text =
    find? (λ tool. incident_tool_text tool == text)
      (IncidentToolName.get_service_status ∷ IncidentToolName.read_service_logs
        ∷ IncidentToolName.inspect_service_config ∷ IncidentToolName.request_approval
        ∷ IncidentToolName.set_feature_flag ∷ IncidentToolName.restart_simulated_service
        ∷ IncidentToolName.acknowledge_incident ∷ IncidentToolName.escalate_incident ∷ [])

abbrev pub approval_entry :
    IncidentToolName → String → String → AuditDecision → Option String → Entry
approval_entry tool target fingerprint decision approval =
    record (plain_entry AuditCategory.approval decision tool target) {
      fingerprint = some fingerprint;
      approval_id = approval;
    }

-- a request that no rule matches; the record's tool and target are validated
abbrev pub deny_unmatched : Option IncidentToolName → String → String → IncidentEnvironment → Answer
deny_unmatched none target fingerprint e = (none, e)
deny_unmatched (some tool) target fingerprint e = if target == "" then (none, e) else (
  some (rejection "approval_denied"),
  add_record (approval_entry tool target fingerprint AuditDecision.denied none) e,
)

abbrev pub grant_rule : IncidentApprovalRule → String → IncidentEnvironment → IncidentEnvironment
grant_rule rule fingerprint e = record e {
  grants =
      insert rule.approval_id
        (record {
          rule = rule;
          fingerprint = fingerprint;
          run_id = e.run_id;
          task_id = e.fixture.task.task_id;
        })
        e.grants;
}

abbrev pub apply_rule : IncidentApprovalRule → String → String → IncidentEnvironment → Answer
apply_rule rule target fingerprint e =
    let e' =
      add_record
        (approval_entry rule.tool_name target fingerprint
          (if rule.approves then AuditDecision.approved else AuditDecision.denied)
          (some rule.approval_id))
        e in
    if rule.approves
    then (
      some (success (("approval_id", str rule.approval_id) ∷ ("decision", str "approved") ∷ [])),
      grant_rule rule fingerprint e',
    )
    else (some (rejection "approval_denied"), e')

-- the rule that a request matches
unfoldable pub matches_rule : Stdlib → String → String → String → IncidentApprovalRule → Bool
unfolding canonical_sha256 canonical_action
matches_rule lib tool target fingerprint rule =
    incident_tool_text rule.tool_name == tool
    && rule.target == target
    && canonical_sha256 lib (canonical_action rule) == fingerprint

abbrev pub decide_request :
    Option IncidentApprovalRule → String → String → String → IncidentEnvironment → Answer
decide_request none tool target fingerprint e =
    deny_unmatched (tool_of_text tool) target fingerprint e
decide_request (some rule) tool target fingerprint e = apply_rule rule target fingerprint e

abbrev pub request_parts :
    Stdlib
    → IncidentAction
    → Option String
    → Option String
    → Option JsonValue
    → IncidentEnvironment
    → Answer
request_parts lib action (some tool) (some target) (some (obj arguments)) e =
    let fingerprint =
      canonical_sha256 lib (obj (fields (action_object tool target (obj arguments)))) in
    decide_request (find? (matches_rule lib tool target fingerprint) e.fixture.private.approvals)
      tool target fingerprint e
request_parts lib action _ _ _ e = reject action "invalid_approval_request" "task" e

-- `_request_approval`
unfoldable pub request_approval : Stdlib → IncidentAction → IncidentEnvironment → Answer
unfolding canonical_sha256 add_record reject_with insert
request_approval lib action e =
    if is_closed e.incident_status
    then reject action "incident_terminal" "incident" e
    else request_parts lib action (as_text (lookup "tool_name" action.arguments))
        (as_text (lookup "target" action.arguments)) (lookup "arguments" action.arguments) e
