-- ===== src/Incident/Names.antt =====
-- incident_schemas.py: the names of the Incident tools, service states, statuses, audit categories
-- and decisions.
use agent_learning_loop.Base.{ℕ, String, Bool, true, Eq, ◌≡◌, ◌↔◌, arith, nat_beq}

pub data IncidentToolName : Type 0 where
  get_service_status read_service_logs inspect_service_config request_approval set_feature_flag
        restart_simulated_service acknowledge_incident escalate_incident :
      IncidentToolName

abbrev incident_tool_tag : IncidentToolName → ℕ
incident_tool_tag IncidentToolName.get_service_status = 0
incident_tool_tag IncidentToolName.read_service_logs = 1
incident_tool_tag IncidentToolName.inspect_service_config = 2
incident_tool_tag IncidentToolName.request_approval = 3
incident_tool_tag IncidentToolName.set_feature_flag = 4
incident_tool_tag IncidentToolName.restart_simulated_service = 5
incident_tool_tag IncidentToolName.acknowledge_incident = 6
incident_tool_tag IncidentToolName.escalate_incident = 7

abbrev pub incident_tool_beq : IncidentToolName → IncidentToolName → Bool
incident_tool_beq a b = nat_beq (incident_tool_tag a) (incident_tool_tag b)

pub incident_tool_beq_iff : (a b : IncidentToolName) → (incident_tool_beq a b ≡ true) ↔ (a ≡ b)
incident_tool_beq_iff a b = ground arith

instance abbrev pub incident_tool_eq : Eq IncidentToolName
incident_tool_eq = record { same = incident_tool_beq; same_iff = incident_tool_beq_iff }

abbrev pub incident_tool_text : IncidentToolName → String
incident_tool_text IncidentToolName.get_service_status = "get_service_status"
incident_tool_text IncidentToolName.read_service_logs = "read_service_logs"
incident_tool_text IncidentToolName.inspect_service_config = "inspect_service_config"
incident_tool_text IncidentToolName.request_approval = "request_approval"
incident_tool_text IncidentToolName.set_feature_flag = "set_feature_flag"
incident_tool_text IncidentToolName.restart_simulated_service = "restart_simulated_service"
incident_tool_text IncidentToolName.acknowledge_incident = "acknowledge_incident"
incident_tool_text IncidentToolName.escalate_incident = "escalate_incident"

pub data ServiceState : Type 0 where
  healthy degraded stuck down : ServiceState

abbrev service_tag : ServiceState → ℕ
service_tag ServiceState.healthy = 0
service_tag ServiceState.degraded = 1
service_tag ServiceState.stuck = 2
service_tag ServiceState.down = 3

abbrev pub service_beq : ServiceState → ServiceState → Bool
service_beq a b = nat_beq (service_tag a) (service_tag b)

pub service_beq_iff : (a b : ServiceState) → (service_beq a b ≡ true) ↔ (a ≡ b)
service_beq_iff a b = ground arith

instance abbrev pub service_eq : Eq ServiceState
service_eq = record { same = service_beq; same_iff = service_beq_iff }

abbrev pub service_text : ServiceState → String
service_text ServiceState.healthy = "healthy"
service_text ServiceState.degraded = "degraded"
service_text ServiceState.stuck = "stuck"
service_text ServiceState.down = "down"

-- `opened` is the status "open".
pub data IncidentStatus : Type 0 where
  opened mitigated resolved acknowledged escalated : IncidentStatus

abbrev status_tag : IncidentStatus → ℕ
status_tag IncidentStatus.opened = 0
status_tag IncidentStatus.mitigated = 1
status_tag IncidentStatus.resolved = 2
status_tag IncidentStatus.acknowledged = 3
status_tag IncidentStatus.escalated = 4

abbrev pub status_beq : IncidentStatus → IncidentStatus → Bool
status_beq a b = nat_beq (status_tag a) (status_tag b)

pub status_beq_iff : (a b : IncidentStatus) → (status_beq a b ≡ true) ↔ (a ≡ b)
status_beq_iff a b = ground arith

instance abbrev pub status_eq : Eq IncidentStatus
status_eq = record { same = status_beq; same_iff = status_beq_iff }

abbrev pub status_text : IncidentStatus → String
status_text IncidentStatus.opened = "open"
status_text IncidentStatus.mitigated = "mitigated"
status_text IncidentStatus.resolved = "resolved"
status_text IncidentStatus.acknowledged = "acknowledged"
status_text IncidentStatus.escalated = "escalated"

pub data AuditCategory : Type 0 where
  observation approval execution acknowledgement escalation : AuditCategory

abbrev audit_category_tag : AuditCategory → ℕ
audit_category_tag AuditCategory.observation = 0
audit_category_tag AuditCategory.approval = 1
audit_category_tag AuditCategory.execution = 2
audit_category_tag AuditCategory.acknowledgement = 3
audit_category_tag AuditCategory.escalation = 4

abbrev pub audit_category_beq : AuditCategory → AuditCategory → Bool
audit_category_beq a b = nat_beq (audit_category_tag a) (audit_category_tag b)

pub audit_category_beq_iff : (a b : AuditCategory) → (audit_category_beq a b ≡ true) ↔ (a ≡ b)
audit_category_beq_iff a b = ground arith

instance abbrev pub audit_category_eq : Eq AuditCategory
audit_category_eq = record { same = audit_category_beq; same_iff = audit_category_beq_iff }

pub data AuditDecision : Type 0 where
  requested approved denied executed rejected acknowledged escalated : AuditDecision

abbrev decision_tag : AuditDecision → ℕ
decision_tag AuditDecision.requested = 0
decision_tag AuditDecision.approved = 1
decision_tag AuditDecision.denied = 2
decision_tag AuditDecision.executed = 3
decision_tag AuditDecision.rejected = 4
decision_tag AuditDecision.acknowledged = 5
decision_tag AuditDecision.escalated = 6

abbrev pub decision_beq : AuditDecision → AuditDecision → Bool
decision_beq a b = nat_beq (decision_tag a) (decision_tag b)

pub decision_beq_iff : (a b : AuditDecision) → (decision_beq a b ≡ true) ↔ (a ≡ b)
decision_beq_iff a b = ground arith

instance abbrev pub decision_eq : Eq AuditDecision
decision_eq = record { same = decision_beq; same_iff = decision_beq_iff }
