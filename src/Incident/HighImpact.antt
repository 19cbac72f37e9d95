-- ===== src/Incident/HighImpact.antt =====
-- incident_environment.py: `_high_impact`, the guards of the tools that change the simulated system:
-- an approval, an operation id, and the replay of an operation that has run.
use agent_learning_loop.Base.{
  String, Bool, true, false, not, ◌||◌, Option, none, some, [], ◌∷◌, Dict, lookup, insert, filterb,
  contains, JsonValue, str, obj, fields, string_eq, ◌!=◌, Stdlib, canonical_sha256, if◌then◌else◌,
}
use agent_learning_loop.Incident.Names.{
  incident_tool_eq, incident_tool_text, status_eq, AuditCategory, AuditDecision,
}
use agent_learning_loop.Incident.Contracts.{action_object, IncidentAction, IncidentToolResult}
use agent_learning_loop.Incident.Environment.{
  IncidentEnvironment, Grant, Operation, Answer, as_nonempty, Entry, add_record, reject,
  reject_with,
}
use agent_learning_loop.Incident.Approvals.{is_closed}

-- What a call asks for, once its two identifiers are there.
pub record Request : Type 0 where
  pub action : IncidentAction
  pub target : String
  pub approval_id : String
  pub operation_id : String

abbrev pub names_request : String × JsonValue → Bool
names_request (key, _) = contains ("approval_id" ∷ "operation_id" ∷ []) key

-- `approved_request`
abbrev pub approved_request : Request → Dict JsonValue
approved_request r =
    action_object (incident_tool_text r.action.tool_name) r.target
      (obj (fields (filterb (λ entry. not (names_request entry)) r.action.arguments)))

unfoldable pub approval_fingerprint : Stdlib → Request → String
unfolding canonical_sha256
approval_fingerprint lib r = canonical_sha256 lib (obj (fields (approved_request r)))

-- `canonical_sha256({**approved_request, "approval_id": approval_id})`
unfoldable pub operation_fingerprint : Stdlib → Request → String
unfolding canonical_sha256 insert
operation_fingerprint lib r =
    canonical_sha256 lib
      (obj (fields (insert "approval_id" (str r.approval_id) (approved_request r))))

abbrev pub refuse : Stdlib → Request → String → IncidentEnvironment → Answer
refuse lib r category e =
    reject_with r.action category r.target (some r.approval_id) (some r.operation_id)
      (some (approval_fingerprint lib r)) e

-- the audit entry of an execution, physical or replayed
abbrev pub executed_entry : Stdlib → Request → Bool → Entry
executed_entry lib r physical = record {
  category = AuditCategory.execution;
  decision = AuditDecision.executed;
  tool_name = r.action.tool_name;
  target = r.target;
  approval_id = some r.approval_id;
  operation_id = some r.operation_id;
  fingerprint = some (approval_fingerprint lib r);
  idempotency_hit = not physical;
  physical_mutation = physical;
}

abbrev pub replay : Stdlib → Request → Operation → IncidentEnvironment → Answer
replay lib r previous e =
    if previous.fingerprint != operation_fingerprint lib r
    then refuse lib r "idempotency_conflict" e
    else (
      some (record previous.result { idempotency_hit = true }),
      add_record (executed_entry lib r false) e,
    )

-- the grant that an approval id has
abbrev pub permits : Stdlib → Request → IncidentEnvironment → Option Grant → Bool
permits lib r e none = false
permits lib r e (some grant) = not (
    grant.rule.tool_name != r.action.tool_name
    || grant.rule.target != r.target
    || grant.fingerprint != approval_fingerprint lib r
    || grant.run_id != e.run_id
    || grant.task_id != e.fixture.task.task_id)

-- the record of a mutation, and the operation that is remembered
abbrev pub commit :
    Stdlib → Request → IncidentToolResult → IncidentEnvironment → IncidentEnvironment
commit lib r result e =
    let e' = add_record (executed_entry lib r true) e in
    record e' {
      operations =
          insert r.operation_id
            (record { fingerprint = operation_fingerprint lib r; result = result }) e'.operations;
    }

abbrev pub mutated : Stdlib → Request → Answer → Answer
mutated lib r (none, e) = (none, e)
mutated lib r (some result, e) = (some result, commit lib r result e)

-- no operation of this id has run: the guards, and the mutation
unfoldable pub run_new :
    Stdlib → Request → (IncidentEnvironment → Answer) → IncidentEnvironment → Answer
unfolding lookup insert add_record reject_with
run_new lib r mutation e =
    if is_closed e.incident_status
    then refuse lib r "incident_terminal" e
    else if not (permits lib r e (lookup r.approval_id e.grants))
    then refuse lib r "approval_mismatch" e
    else mutated lib r (mutation e)

abbrev pub run_request :
    Stdlib
    → Request
    → Option Operation
    → (IncidentEnvironment → Answer)
    → IncidentEnvironment
    → Answer
run_request lib r (some previous) mutation e = replay lib r previous e
run_request lib r none mutation e = run_new lib r mutation e

abbrev pub with_identifiers :
    Stdlib
    → IncidentAction
    → String
    → Option String
    → Option String
    → (IncidentEnvironment → Answer)
    → IncidentEnvironment
    → Answer
with_identifiers lib action target none operation mutation e =
    reject action "approval_required" target e
with_identifiers lib action target (some approval) none mutation e =
    reject_with action "operation_required" target (some approval) none none e
with_identifiers lib action target (some approval) (some operation) mutation e =
    run_request lib
      (record {
        action = action;
        target = target;
        approval_id = approval;
        operation_id = operation;
      })
      (lookup operation e.operations) mutation e

-- `_high_impact`
unfoldable pub high_impact :
    Stdlib → IncidentAction → String → (IncidentEnvironment → Answer) → IncidentEnvironment → Answer
unfolding reject_with add_record
high_impact lib action target mutation e =
    with_identifiers lib action target (as_nonempty (lookup "approval_id" action.arguments))
      (as_nonempty (lookup "operation_id" action.arguments)) mutation e
