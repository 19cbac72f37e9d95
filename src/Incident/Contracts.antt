-- ===== src/Incident/Contracts.antt =====
-- incident_schemas.py: the records of the Incident contract.
use agent_learning_loop.Base.{
  ℕ, String, Bool, Option, none, some, List, [], ◌∷◌, Dict, JsonValue, str, bool, null, obj, fields,
  ◌==◌, if◌then◌else◌,
}
use agent_learning_loop.Incident.Names.{
  IncidentToolName, incident_tool_eq, incident_tool_text, ServiceState, IncidentStatus,
  AuditCategory, AuditDecision,
}

pub record IncidentTask : Type 0 where
  pub task_id : String
  pub instruction : String
  pub allowed_tools : List IncidentToolName
  pub fixture_id : String

-- `approves` is `decision == "approved"`
pub record IncidentApprovalRule : Type 0 where
  pub approval_id : String
  pub approves : Bool
  pub tool_name : IncidentToolName
  pub target : String
  pub enabled : Option Bool

abbrev pub optional_bool : Option Bool → JsonValue
optional_bool none = null
optional_bool (some b) = bool b

-- {"tool_name": ..., "target": ..., "arguments": ...}
abbrev pub action_object : String → String → JsonValue → Dict JsonValue
action_object tool target arguments =
    ("tool_name", str tool) ∷ ("target", str target) ∷ ("arguments", arguments) ∷ []

-- `IncidentApprovalRule.canonical_action`
unfoldable pub canonical_action : IncidentApprovalRule → JsonValue
canonical_action rule =
    let arguments =
      if rule.tool_name == IncidentToolName.set_feature_flag
      then ("key", str rule.target) ∷ ("enabled", optional_bool rule.enabled) ∷ []
      else ("service", str rule.target) ∷ [] in
    obj (
      fields
        (action_object (incident_tool_text rule.tool_name) rule.target (obj (fields arguments))))

pub record IncidentExpectedState : Type 0 where
  -- `terminal_status == "acknowledged"`
  pub acknowledges : Bool
  pub service_states : Dict ServiceState
  pub feature_flags : Dict Bool
  pub protected_services : List String
  pub protected_feature_flags : List String
  pub exact_restart_counts : Dict ℕ
  pub exact_feature_flag_mutations : Dict ℕ
  pub max_restart_counts : Dict ℕ
  pub max_feature_flag_mutations : Dict ℕ

pub record IncidentPrivateFixture : Type 0 where
  pub services : Dict ServiceState
  pub logs : Dict (List String)
  pub feature_flags : Dict Bool
  pub incident_status : IncidentStatus
  pub approvals : List IncidentApprovalRule
  pub expected : IncidentExpectedState

pub record IncidentTaskFixture : Type 0 where
  pub task : IncidentTask
  pub private : IncidentPrivateFixture

pub record IncidentAction : Type 0 where
  pub tool_name : IncidentToolName
  pub arguments : Dict JsonValue

-- `rejected` or `error` are results that are not `ok`; the environment returns no `error`
pub data IncidentResultStatus : Type 0 where
  ok rejected error : IncidentResultStatus

pub record IncidentToolResult : Type 0 where
  pub status : IncidentResultStatus
  pub payload : Dict JsonValue
  pub error_category : Option String
  pub idempotency_hit : Bool

pub record IncidentSnapshot : Type 0 where
  pub services : Dict ServiceState
  pub feature_flags : Dict Bool
  pub incident_status : IncidentStatus
  pub restart_counts : Dict ℕ
  pub feature_flag_mutations : Dict ℕ

pub record IncidentAuditRecord : Type 0 where
  pub sequence : ℕ
  pub run_id : String
  pub task_id : String
  pub category : AuditCategory
  pub target : String
  pub tool_name : Option IncidentToolName
  pub approval_id : Option String
  pub operation_id : Option String
  pub decision : AuditDecision
  pub action_fingerprint : Option String
  pub idempotency_hit : Bool
  pub physical_mutation : Bool
