-- ===== src/Incident/Observe.antt =====
-- incident_environment.py: the tools that only observe.
use agent_learning_loop.Base.{
  String, Bool, Option, none, some, List, [], ◌∷◌, Dict, lookup, map, JsonValue, str, bool, arr,
  items,
}
use agent_learning_loop.Incident.Names.{ServiceState, service_text, AuditCategory, AuditDecision}
use agent_learning_loop.Incident.Contracts.{IncidentAction}
use agent_learning_loop.Incident.Environment.{
  IncidentEnvironment, Answer, target_of, plain_entry, add_record, success, reject,
}

abbrev observed : IncidentAction → String → Dict JsonValue → IncidentEnvironment → Answer
observed action target payload e = (
  some (success payload),
  add_record (plain_entry AuditCategory.observation AuditDecision.executed action.tool_name target)
      e,
)

abbrev pub report_state :
    Option ServiceState → IncidentAction → String → IncidentEnvironment → Answer
report_state none action target e = reject action "unknown_service" target e
report_state (some state) action target e =
    observed action target (("service", str target) ∷ ("state", str (service_text state)) ∷ []) e

-- `_get_service_status`
unfoldable pub get_service_status : IncidentAction → IncidentEnvironment → Answer
unfolding add_record
get_service_status action e =
    let target = target_of action in report_state (lookup target e.services) action target e

abbrev or_nothing {ℓ} : {A : Type ℓ} → Option (List A) → List A
or_nothing none = []
or_nothing (some xs) = xs

-- the lines of a service's log, each redacted
abbrev redacted_lines : (String → String) → Option (List String) → List JsonValue
redacted_lines redact lines = map (λ line. str (redact line)) (or_nothing lines)

abbrev pub report_logs :
    (String → String) → Option ServiceState → IncidentAction → String → IncidentEnvironment → Answer
report_logs redact none action target e = reject action "unknown_service" target e
report_logs redact (some _) action target e =
    observed action target
      (("service", str target)
        ∷ ("lines", arr (items (redacted_lines redact (lookup target e.fixture.private.logs))))
        ∷ [])
      e

-- `_read_service_logs`; `redact` is `_redact_log_line`, two substitutions of the module `re`
unfoldable pub read_service_logs : (String → String) → IncidentAction → IncidentEnvironment → Answer
unfolding add_record
read_service_logs redact action e =
    let target = target_of action in report_logs redact (lookup target e.services) action target e

abbrev pub report_flag : Option Bool → IncidentAction → String → IncidentEnvironment → Answer
report_flag none action target e = reject action "unknown_config" target e
report_flag (some enabled) action target e =
    observed action target (("key", str target) ∷ ("enabled", bool enabled) ∷ []) e

-- `_inspect_service_config`
unfoldable pub inspect_service_config : IncidentAction → IncidentEnvironment → Answer
unfolding add_record
inspect_service_config action e =
    let target = target_of action in report_flag (lookup target e.feature_flags) action target e
