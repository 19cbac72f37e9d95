-- ===== src/Incident/Environment.antt =====
-- incident_environment.py: the state of the simulator, its audit, and the tools that only observe.
use Prim.Native.String.{String}
use agent_learning_loop.Base.{
  ℕ, Bool, false, Option, none, some, List, [], ◌∷◌, ◌++◌, Dict, lookup, length, JsonValue, str,
  string_eq, ◌!=◌, if◌then◌else◌,
}
use agent_learning_loop.Incident.Names.{
  IncidentToolName, ServiceState, IncidentStatus, status_eq, AuditCategory, AuditDecision,
}
use agent_learning_loop.Incident.Contracts.{
  IncidentTaskFixture, IncidentApprovalRule, IncidentAction, IncidentToolResult,
  IncidentResultStatus, IncidentAuditRecord, IncidentSnapshot,
}

-- `_Operation`
pub record Operation : Type 0 where
  pub fingerprint : String
  pub result : IncidentToolResult

-- `_Grant`
pub record Grant : Type 0 where
  pub rule : IncidentApprovalRule
  pub fingerprint : String
  pub run_id : String
  pub task_id : String

pub record IncidentEnvironment : Type 0 where
  pub fixture : IncidentTaskFixture
  pub run_id : String
  pub services : Dict ServiceState
  pub feature_flags : Dict Bool
  pub incident_status : IncidentStatus
  pub restart_counts : Dict ℕ
  pub feature_flag_mutations : Dict ℕ
  pub audit : List IncidentAuditRecord
  pub operations : Dict Operation
  pub grants : Dict Grant

abbrev pub zeros {ℓ} : {V : Type ℓ} → Dict V → Dict ℕ
zeros [] = []
zeros ((k, _) ∷ d) = (k, 0) ∷ zeros d

-- `IncidentEnvironment.__init__`; the run's id is not empty, since `IncidentAuditRecord` refuses an
-- empty one, and then no action can be recorded
unfoldable pub start : IncidentTaskFixture → String → IncidentEnvironment
start fixture run_id = record {
  fixture = fixture;
  run_id = run_id;
  services = fixture.private.services;
  feature_flags = fixture.private.feature_flags;
  incident_status = fixture.private.incident_status;
  restart_counts = zeros fixture.private.services;
  feature_flag_mutations = zeros fixture.private.feature_flags;
  audit = [];
  operations = [];
  grants = [];
}

-- `snapshot`
unfoldable pub snapshot : IncidentEnvironment → IncidentSnapshot
snapshot e = record {
  services = e.services;
  feature_flags = e.feature_flags;
  incident_status = e.incident_status;
  restart_counts = e.restart_counts;
  feature_flag_mutations = e.feature_flag_mutations;
}

-- A tool's result and the state after it; `none` is an exception.
abbrev pub Answer : Type 0
Answer = Option IncidentToolResult × IncidentEnvironment

-- `isinstance(value, str)`
abbrev pub as_text : Option JsonValue → Option String
as_text (some (str s)) = some s
as_text _ = none

abbrev nonempty : Option String → Option String
nonempty none = none
nonempty (some s) = if s != "" then some s else none

-- `isinstance(value, str) and value`
abbrev pub as_nonempty : Option JsonValue → Option String
as_nonempty v = nonempty (as_text v)

-- `d.get(k, other)`
abbrev first {ℓ} : {A : Type ℓ} → Option A → Option A → Option A
first none other = other
first (some a) other = some a

abbrev or_task : Option String → String
or_task none = "task"
or_task (some s) = s

-- `_target`
unfoldable pub target_of : IncidentAction → String
unfolding lookup
target_of action = or_task (
    as_nonempty (
      first (lookup "service" action.arguments) (
        first (lookup "target" action.arguments)
          (first (lookup "key" action.arguments) (some (str "task"))))))

-- The arguments of `_record`.
pub record Entry : Type 0 where
  pub category : AuditCategory
  pub decision : AuditDecision
  pub tool_name : IncidentToolName
  pub target : String
  pub approval_id : Option String
  pub operation_id : Option String
  pub fingerprint : Option String
  pub idempotency_hit : Bool
  pub physical_mutation : Bool

-- The arguments that most calls of `_record` leave out.
abbrev pub plain_entry : AuditCategory → AuditDecision → IncidentToolName → String → Entry
plain_entry category decision tool target = record {
  category = category;
  decision = decision;
  tool_name = tool;
  target = target;
  approval_id = none;
  operation_id = none;
  fingerprint = none;
  idempotency_hit = false;
  physical_mutation = false;
}

-- the `IncidentAuditRecord` that `_record` makes, for a run whose id is not empty
abbrev pub audit_record : Entry → IncidentEnvironment → IncidentAuditRecord
audit_record entry e = record {
  sequence = length e.audit;
  run_id = e.run_id;
  task_id = e.fixture.task.task_id;
  category = entry.category;
  target = entry.target;
  tool_name = some entry.tool_name;
  approval_id = entry.approval_id;
  operation_id = entry.operation_id;
  decision = entry.decision;
  action_fingerprint = entry.fingerprint;
  idempotency_hit = entry.idempotency_hit;
  physical_mutation = entry.physical_mutation;
}

-- `_record`
unfoldable pub add_record : Entry → IncidentEnvironment → IncidentEnvironment
add_record entry e = record e { audit = e.audit ++ audit_record entry e ∷ [] }

abbrev pub rejection : String → IncidentToolResult
rejection category = record {
  status = IncidentResultStatus.rejected;
  payload = [];
  error_category = some category;
  idempotency_hit = false;
}

abbrev pub success : Dict JsonValue → IncidentToolResult
success payload = record {
  status = IncidentResultStatus.ok;
  payload = payload;
  error_category = none;
  idempotency_hit = false;
}

-- `_reject`, with the arguments of `_record` that it passes on
unfoldable pub reject_with :
    IncidentAction
    → String
    → String
    → Option String
    → Option String
    → Option String
    → IncidentEnvironment
    → Answer
unfolding add_record
reject_with action category target approval operation fingerprint e = (
  some (rejection category),
  add_record
      (record (plain_entry AuditCategory.execution AuditDecision.rejected action.tool_name target) {
        approval_id = approval;
        operation_id = operation;
        fingerprint = fingerprint;
      })
      e,
)

abbrev pub reject : IncidentAction → String → String → IncidentEnvironment → Answer
reject action category target = reject_with action category target none none none
