-- ===== src/Incident/Tests.antt =====
-- Tests of the simulated incident (incident_environment.py), and its theorems at concrete inputs.
use agent_learning_loop.Base.{
  String, true, false, none, some, is_some, List, [], ◌∷◌, lookup, insert, str, obj, field, end,
  Stdlib, canonical_sha256, ◌≡◌, refl, Fields, Dict, Option, JsonValue, sym, ap, ◌∙◌, bool, Bool,
  arith, string_eq, eq_iff, ◌==◌, if◌then◌else◌, fields,
}
use agent_learning_loop.Incident.Names.{IncidentToolName, ServiceState, IncidentStatus}
use agent_learning_loop.Incident.Contracts.{
  IncidentTaskFixture, IncidentApprovalRule, IncidentAction, IncidentToolResult, canonical_action,
}
use agent_learning_loop.Incident.Environment.{
  IncidentEnvironment, start, snapshot, target_of, add_record, reject_with, success,
}
use agent_learning_loop.Incident.Approvals.{matches_rule, request_approval, is_closed}
use agent_learning_loop.Incident.HighImpact.{
  approval_fingerprint, operation_fingerprint, run_new, high_impact,
}
use agent_learning_loop.Incident.Execute.{
  perform_restart, restart_service, acknowledge, execute, execute_all, all_healthy,
}
use agent_learning_loop.Incident.Arguments.{
  accepts_action, accepts_rule, accepts_expected, accepts_private,
}
use agent_learning_loop.Incident.Verifier.{verify_audit, audit_checks}
use agent_learning_loop.Incident.Audited.{IsAudited, verify_audit-IsAudited}
use agent_learning_loop.Incident.Sound.{IsSound}
use agent_learning_loop.Incident.Runs.{execute_all-IsSound}
use agent_learning_loop.Incident.Closed.{closed_is_final, acknowledged_is_healthy}
use agent_learning_loop.Incident.Grows.{Grows, execute_all-Grows}
use agent_learning_loop.Incident.Replay.{Replays, execute-Replays}
use agent_learning_loop.Incident.Answers.{execute_answers}
use agent_learning_loop.Incident.Approved.{TellsApart, unapproved_flag_stays}

-- A digest that ignores its text.
abbrev lib : Stdlib
lib = record { dumps = λ _. ""; sha256_hex = λ _. "digest"; decimal = λ _. "0" }

abbrev keep_line : String → String
keep_line line = line

abbrev rule : IncidentApprovalRule
rule = record {
  approval_id = "approval-1";
  approves = true;
  tool_name = IncidentToolName.restart_simulated_service;
  target = "web";
  enabled = none;
}

-- One service that is down, and a restart of it that is approved on request.
abbrev fixture : IncidentTaskFixture
fixture = record {
  task = record {
    task_id = "incident.restart";
    instruction = "restore the service";
    allowed_tools =
        IncidentToolName.request_approval ∷ IncidentToolName.restart_simulated_service
        ∷ IncidentToolName.acknowledge_incident ∷ [];
    fixture_id = "incident.restart.v1";
  };
  private = record {
    services = ("web", ServiceState.down) ∷ [];
    logs = [];
    feature_flags = [];
    incident_status = IncidentStatus.opened;
    approvals = rule ∷ [];
    expected = record {
      acknowledges = true;
      service_states = ("web", ServiceState.healthy) ∷ [];
      feature_flags = [];
      protected_services = [];
      protected_feature_flags = [];
      exact_restart_counts = ("web", 1) ∷ [];
      exact_feature_flag_mutations = [];
      max_restart_counts = ("web", 1) ∷ [];
      max_feature_flag_mutations = [];
    };
  };
}

abbrev ask : IncidentAction
ask = record {
  tool_name = IncidentToolName.request_approval;
  arguments =
      ("tool_name", str "restart_simulated_service")
      ∷ ("target", str "web")
      ∷ ("arguments", obj (field "service" (str "web") end))
      ∷ [];
}

abbrev restart : IncidentAction
restart = record {
  tool_name = IncidentToolName.restart_simulated_service;
  arguments =
      ("service", str "web")
      ∷ ("approval_id", str "approval-1")
      ∷ ("operation_id", str "operation-1")
      ∷ [];
}

abbrev close : IncidentAction
close = record { tool_name = IncidentToolName.acknowledge_incident; arguments = [] }

abbrev actions : List IncidentAction
actions = ask ∷ restart ∷ close ∷ []

abbrev begun : IncidentEnvironment
begun = start fixture "run-1"

-- The fixture and the actions are valid.
fixture_accepted : accepts_private fixture.private ≡ true
unfolding accepts_private accepts_rule accepts_expected lookup
fixture_accepted = refl

restart_accepted : accepts_action restart ≡ true
unfolding accepts_action lookup
restart_accepted = refl

-- The approved restart heals the service once, and the incident is acknowledged.
whole_run : snapshot (execute_all lib keep_line actions begun) ≡ record {
  services = ("web", ServiceState.healthy) ∷ [];
  feature_flags = [];
  incident_status = IncidentStatus.acknowledged;
  restart_counts = ("web", 1) ∷ [];
  feature_flag_mutations = [];
}
unfolding execute_all execute start snapshot request_approval restart_service acknowledge
    high_impact run_new perform_restart target_of add_record reject_with lookup insert matches_rule
    canonical_sha256 canonical_action approval_fingerprint operation_fingerprint
whole_run = refl

execute_all-IsSound_example : IsSound (execute_all lib keep_line actions (start fixture "run-1"))
execute_all-IsSound_example = execute_all-IsSound lib keep_line actions fixture "run-1"

abbrev ended : IncidentEnvironment
ended = execute_all lib keep_line actions (start fixture "run-1")

ended_acknowledged : ended.incident_status ≡ IncidentStatus.acknowledged
unfolding execute_all execute start request_approval restart_service acknowledge high_impact run_new
    perform_restart target_of add_record reject_with lookup insert matches_rule canonical_sha256
    canonical_action approval_fingerprint operation_fingerprint
ended_acknowledged = refl

ended_closed : is_closed ended.incident_status ≡ true
ended_closed = rw ended_acknowledged refl

closed_is_final_example :
    snapshot (execute_all lib keep_line (ask ∷ restart ∷ []) ended) ≡ snapshot ended
closed_is_final_example = closed_is_final lib keep_line (ask ∷ restart ∷ []) ended ended_closed

acknowledged_is_healthy_example : all_healthy ended.services ≡ true
acknowledged_is_healthy_example =
    acknowledged_is_healthy lib keep_line actions fixture "run-1" (λ h. cc h) ended_acknowledged

execute_all-Grows_example : Grows begun (execute_all lib keep_line actions begun)
execute_all-Grows_example = execute_all-Grows lib keep_line actions begun

abbrev approved : IncidentEnvironment
approved = execute_all lib keep_line (ask ∷ []) begun

abbrev restarted : IncidentToolResult
restarted = success (("service", str "web") ∷ ("state", str "healthy") ∷ [])

restart_succeeds : (execute lib keep_line restart approved).0 ≡ some restarted
unfolding execute_all execute start request_approval restart_service high_impact run_new
    perform_restart target_of add_record reject_with lookup insert matches_rule canonical_sha256
    canonical_action approval_fingerprint operation_fingerprint
restart_succeeds = refl

execute-Replays_example :
    Replays restarted
      (execute_all lib keep_line (restart ∷ close ∷ []) approved)
      (execute lib keep_line restart (execute_all lib keep_line (restart ∷ close ∷ []) approved))
execute-Replays_example =
    execute-Replays lib keep_line restart (close ∷ []) approved restarted refl restart_succeeds refl

execute_answers_example :
    is_some
      (execute lib keep_line restart
        (execute_all lib keep_line (ask ∷ []) (start fixture "run-1"))).0
    ≡ true
execute_answers_example =
    execute_answers lib keep_line (ask ∷ []) restart fixture "run-1" refl restart_accepted

ended_passes : (verify_audit ended.audit "run-1" "incident.restart").passed ≡ true
unfolding verify_audit audit_checks execute_all execute start request_approval restart_service
    acknowledge high_impact run_new perform_restart target_of add_record reject_with lookup insert
    matches_rule canonical_sha256 canonical_action approval_fingerprint operation_fingerprint
ended_passes = refl

verify_audit-IsAudited_example : IsAudited "run-1" "incident.restart" ended.audit
verify_audit-IsAudited_example =
    verify_audit-IsAudited ended.audit "run-1" "incident.restart" ended_passes

-- The approval is asked for again after the restart; both answers are approvals, and the restart ran
-- after the first. The verifier looks at the second only, and finds no approval before the restart.
asked_again :
    (verify_audit
      (execute_all lib keep_line (ask ∷ restart ∷ ask ∷ close ∷ []) begun).audit
      "run-1"
      "incident.restart").passed
    ≡ false
unfolding verify_audit audit_checks execute_all execute start request_approval restart_service
    acknowledge high_impact run_new perform_restart target_of add_record reject_with lookup insert
    matches_rule canonical_sha256 canonical_action approval_fingerprint operation_fingerprint
asked_again = refl

-- A digest that shows the `enabled` of an action's arguments, and nothing else.
abbrev enabled_in : Fields → Option JsonValue
enabled_in end = none
enabled_in (field k v d) = let rest = enabled_in d in if k == "enabled" then some v else rest

enabled_in-fields : (d : Dict JsonValue) → enabled_in (fields d) ≡ lookup "enabled" d
unfolding lookup
enabled_in-fields [] = refl
enabled_in-fields ((k, v) ∷ d) = ground (arith, enabled_in-fields d)

abbrev flag_text : Option JsonValue → String
flag_text (some (bool true)) = "on"
flag_text (some (bool false)) = "off"
flag_text _ = ""

same_flag :
    (o : Option JsonValue) (b : Bool)
    → (flag_text o == flag_text (some (bool b))) ≡ true
    → o ≡ some (bool b)
same_flag (some (bool true)) true h = refl
same_flag (some (bool false)) false h = refl
same_flag _ true h = cc h
same_flag _ false h = cc h

flag_text-injective :
    (o : Option JsonValue) (b : Bool) → flag_text o ≡ flag_text (some (bool b)) → o ≡ some (bool b)
flag_text-injective o b h = same_flag o b ((eq_iff (flag_text o) (flag_text (some (bool b)))).1 h)

abbrev flag_dump : JsonValue → String
flag_dump (obj (field _ _ (field _ _ (field _ (obj d) end)))) = flag_text (enabled_in d)
flag_dump _ = ""

abbrev flag_lib : Stdlib
flag_lib = record { dumps = flag_dump; sha256_hex = λ s. s; decimal = λ _. "0" }

flag_lib-TellsApart : TellsApart flag_lib
unfolding canonical_sha256
flag_lib-TellsApart tool tool' target target' d d' b same h =
    sym (enabled_in-fields d')
    ∙ flag_text-injective (enabled_in (fields d')) b
        (sym same ∙ ap flag_text (enabled_in-fields d ∙ h))

-- Switching the flag on is approved, and switching it off is tried with that approval.
abbrev flag_fixture : IncidentTaskFixture
flag_fixture = record {
  task = record fixture.task {
    allowed_tools = IncidentToolName.request_approval ∷ IncidentToolName.set_feature_flag ∷ [];
  };
  private = record fixture.private {
    feature_flags = ("web.cache", true) ∷ [];
    approvals =
        record {
          approval_id = "approval-2";
          approves = true;
          tool_name = IncidentToolName.set_feature_flag;
          target = "web.cache";
          enabled = some true;
        }
        ∷ [];
  };
}

abbrev ask_flag : IncidentAction
ask_flag = record {
  tool_name = IncidentToolName.request_approval;
  arguments =
      ("tool_name", str "set_feature_flag")
      ∷ ("target", str "web.cache")
      ∷ ("arguments", obj (field "key" (str "web.cache") (field "enabled" (bool true) end)))
      ∷ [];
}

abbrev switch_off : IncidentAction
switch_off = record {
  tool_name = IncidentToolName.set_feature_flag;
  arguments =
      ("key", str "web.cache")
      ∷ ("enabled", bool false)
      ∷ ("approval_id", str "approval-2")
      ∷ ("operation_id", str "operation-2")
      ∷ [];
}

unapproved_flag_stays_example :
    (execute flag_lib keep_line switch_off
      (execute_all flag_lib keep_line (ask_flag ∷ []) (start flag_fixture "run-1"))).1.feature_flags
    ≡ (execute_all flag_lib keep_line (ask_flag ∷ []) (start flag_fixture "run-1")).feature_flags
unfolding lookup target_of
unapproved_flag_stays_example =
    unapproved_flag_stays flag_lib keep_line (ask_flag ∷ []) flag_fixture "run-1" switch_off false
      flag_lib-TellsApart refl refl refl
