-- ===== src/Incident/Execute.antt =====
-- incident_environment.py: the tools that change the simulated system, and the dispatch on a tool.
use Prim.Native.Char.{code}
use Prim.Native.String.{String}
use agent_learning_loop.Base.{
  ℕ, ◌+◌, Bool, true, false, Option, none, some, List, [], ◌∷◌, Dict, lookup, insert, has_key,
  contains, JsonValue, str, bool, nat_beq, ◌==◌, Stdlib, if◌then◌else◌,
}
use agent_learning_loop.Incident.Names.{
  IncidentToolName, incident_tool_eq, ServiceState, service_eq, IncidentStatus, status_eq,
  AuditCategory, AuditDecision,
}
use agent_learning_loop.Incident.Contracts.{IncidentAction}
use agent_learning_loop.Incident.Environment.{
  IncidentEnvironment, Answer, target_of, as_nonempty, plain_entry, add_record, success, reject,
}
use agent_learning_loop.Incident.Observe.{
  get_service_status, read_service_logs, inspect_service_config,
}
use agent_learning_loop.Incident.Approvals.{is_closed, request_approval}
use agent_learning_loop.Incident.HighImpact.{high_impact}

-- `if self._incident_status == "open": self._incident_status = "mitigated"`
abbrev pub mitigate : IncidentStatus → IncidentStatus
mitigate status = if status == IncidentStatus.opened then IncidentStatus.mitigated else status

abbrev pub count_restart : Option ℕ → String → IncidentEnvironment → Answer
count_restart none target e = (none, e)
count_restart (some n) target e = (
  some (success (("service", str target) ∷ ("state", str "healthy") ∷ [])),
  record e {
    restart_counts = insert target (n + 1) e.restart_counts;
    incident_status = mitigate e.incident_status;
  },
)

-- `apply` of `_perform_restart`; a service with no counter is a `KeyError`
unfoldable pub perform_restart : String → IncidentEnvironment → Answer
unfolding lookup insert
perform_restart target e =
    count_restart (lookup target e.restart_counts) target
      (record e { services = insert target ServiceState.healthy e.services })

-- `_restart_service`
unfoldable pub restart_service : Stdlib → IncidentAction → IncidentEnvironment → Answer
unfolding perform_restart
restart_service lib action e =
    let target = target_of action in
    if has_key target e.services
    then high_impact lib action target (perform_restart target) e
    else reject action "unknown_service" target e

-- `target.split(".", maxsplit=1)[0]`
abbrev pub before_dot : String → String
before_dot String.[] = ""
before_dot (String.◌∷◌ c s) =
    let rest = before_dot s in if nat_beq (code c) b'.' then "" else String.◌∷◌ c rest

abbrev pub heal : String → Dict ServiceState → Dict ServiceState
heal name services =
    if has_key name services then insert name ServiceState.healthy services else services

abbrev pub count_flag : Option ℕ → String → Bool → IncidentEnvironment → Answer
count_flag none target enabled e = (none, e)
count_flag (some n) target enabled e = (
  some (success (("key", str target) ∷ ("enabled", bool enabled) ∷ [])),
  record e {
    feature_flag_mutations = insert target (n + 1) e.feature_flag_mutations;
    services = heal (before_dot target) e.services;
    incident_status = mitigate e.incident_status;
  },
)

-- `apply` of `_set_feature_flag`
unfoldable pub perform_flag : String → Bool → IncidentEnvironment → Answer
unfolding lookup insert
perform_flag target enabled e =
    count_flag (lookup target e.feature_flag_mutations) target enabled
      (record e { feature_flags = insert target enabled e.feature_flags })

abbrev pub flag_request :
    Stdlib → IncidentAction → String → Bool → Option JsonValue → IncidentEnvironment → Answer
flag_request lib action target true (some (bool enabled)) e =
    high_impact lib action target (perform_flag target enabled) e
flag_request lib action target _ _ e = reject action "invalid_config_mutation" target e

-- `_set_feature_flag`
unfoldable pub set_feature_flag : Stdlib → IncidentAction → IncidentEnvironment → Answer
unfolding perform_flag
set_feature_flag lib action e =
    let target = target_of action in
    flag_request lib action target (has_key target e.feature_flags)
      (lookup "enabled" action.arguments) e

abbrev pub all_healthy : Dict ServiceState → Bool
all_healthy [] = true
all_healthy ((_, state) ∷ services) =
    let rest = all_healthy services in if state == ServiceState.healthy then rest else false

-- `_acknowledge`
unfoldable pub acknowledge : IncidentAction → IncidentEnvironment → Answer
unfolding add_record
acknowledge action e =
    if is_closed e.incident_status
    then reject action "incident_terminal" "incident" e
    else if all_healthy e.services
    then (
      some (success (("incident_status", str "acknowledged") ∷ [])),
      add_record
          (plain_entry AuditCategory.acknowledgement AuditDecision.acknowledged action.tool_name
            "incident")
          (record e { incident_status = IncidentStatus.acknowledged }),
    )
    else reject action "incident_not_mitigated" "incident" e

abbrev pub escalate_for : Option String → IncidentAction → IncidentEnvironment → Answer
escalate_for none action e = reject action "invalid_escalation" "incident" e
escalate_for (some reason) action e = (
  some (success (("incident_status", str "escalated") ∷ ("reason_category", str reason) ∷ [])),
  add_record
      (plain_entry AuditCategory.escalation AuditDecision.escalated action.tool_name "incident")
      (record e { incident_status = IncidentStatus.escalated }),
)

-- `_escalate`
unfoldable pub escalate : IncidentAction → IncidentEnvironment → Answer
unfolding add_record
escalate action e =
    if is_closed e.incident_status
    then reject action "incident_terminal" "incident" e
    else escalate_for (as_nonempty (lookup "reason_category" action.arguments)) action e

abbrev pub dispatch :
    Stdlib → (String → String) → IncidentToolName → IncidentAction → IncidentEnvironment → Answer
dispatch lib redact IncidentToolName.get_service_status = get_service_status
dispatch lib redact IncidentToolName.read_service_logs = read_service_logs redact
dispatch lib redact IncidentToolName.inspect_service_config = inspect_service_config
dispatch lib redact IncidentToolName.request_approval = request_approval lib
dispatch lib redact IncidentToolName.set_feature_flag = set_feature_flag lib
dispatch lib redact IncidentToolName.restart_simulated_service = restart_service lib
dispatch lib redact IncidentToolName.acknowledge_incident = acknowledge
dispatch lib redact IncidentToolName.escalate_incident = escalate

-- `execute`
unfoldable pub execute : Stdlib → (String → String) → IncidentAction → IncidentEnvironment → Answer
execute lib redact action e =
    if contains e.fixture.task.allowed_tools action.tool_name
    then dispatch lib redact action.tool_name action e
    else reject action "tool_not_allowed" "task" e

-- The state after a sequence of actions.
unfoldable pub execute_all :
    Stdlib → (String → String) → List IncidentAction → IncidentEnvironment → IncidentEnvironment
execute_all lib redact [] e = e
execute_all lib redact (a ∷ actions) e = execute_all lib redact actions (execute lib redact a e).1
