-- ===== src/Incident/Replay.antt =====
-- incident_environment.py: an operation that has run is replayed.
use agent_learning_loop.Base.{
  String, Bool, true, false, not, Option, none, some, List, [], ◌∷◌, lookup, has_key, contains,
  lookup-insert, eq_iff, ap, string_eq, ◌!=◌, JsonValue, bool, Stdlib, ◌≡◌, refl, arith, if_intro,
  if◌then◌else◌,
}
use agent_learning_loop.Incident.Names.{IncidentToolName, incident_tool_eq}
use agent_learning_loop.Incident.Contracts.{
  IncidentAction, IncidentToolResult, IncidentResultStatus,
}
use agent_learning_loop.Incident.Environment.{
  IncidentEnvironment, Answer, Operation, snapshot, add_record, reject_with, target_of,
}
use agent_learning_loop.Incident.Approvals.{is_closed}
use agent_learning_loop.Incident.HighImpact.{
  Request, operation_fingerprint, refuse, permits, mutated, run_new, run_request, with_identifiers,
  high_impact,
}
use agent_learning_loop.Incident.Execute.{
  perform_restart, restart_service, perform_flag, flag_request, set_feature_flag, dispatch, execute,
  execute_all,
}
use agent_learning_loop.Incident.Stepped.{execute-Steps}
use agent_learning_loop.Incident.Grows.{Grows, Grows-trans, step-Grows, execute_all-Grows}

abbrev pub changes_system : IncidentToolName → Bool
changes_system tool =
    contains (IncidentToolName.restart_simulated_service ∷ IncidentToolName.set_feature_flag ∷ [])
      tool

-- The environment remembers a request with a result.
record Recalls (lib : Stdlib) (r : Request) (result : IncidentToolResult) (e : IncidentEnvironment)
    : Type 0 where
  previous : Operation
  found : lookup r.operation_id e.operations ≡ some previous
  same_request : previous.fingerprint ≡ operation_fingerprint lib r
  same_result :
      record previous.result { idempotency_hit = true } ≡ record result { idempotency_hit = true }

-- A successful answer leaves an environment that remembers the request.
abbrev Remembers : Stdlib → Request → IncidentToolResult → Answer → Type 0
Remembers lib r result x =
    x.0 ≡ some result → result.status ≡ IncidentResultStatus.ok → Recalls lib r result x.1

-- An answer that repeats a result and leaves what the snapshot shows.
abbrev pub Replays : IncidentToolResult → IncidentEnvironment → Answer → Type 0
Replays result e x =
    (x.0 ≡ some (record result { idempotency_hit = true })) × (snapshot x.1 ≡ snapshot e)

refuse-Remembers :
    (lib : Stdlib) (r : Request) (category : String) (result : IncidentToolResult)
    (e : IncidentEnvironment)
    → Remembers lib r result (refuse lib r category e)
unfolding reject_with
refuse-Remembers lib r category result e h ok = cc

mutated-Remembers :
    (lib : Stdlib) (r : Request) (result : IncidentToolResult) (x : Answer)
    → Remembers lib r result (mutated lib r x)
unfolding add_record
mutated-Remembers lib r result (none, e) h ok = cc
mutated-Remembers lib r result (some made, e) h ok = record {
  previous = record { fingerprint = operation_fingerprint lib r; result = made };
  found =
      rw (lookup-insert r.operation_id r.operation_id _ e.operations)
        (ground (arith, eq_iff r.operation_id r.operation_id));
  same_request = refl;
  same_result = cc;
}

run_request-Remembers :
    (lib : Stdlib) (r : Request) (result : IncidentToolResult) (previous : Option Operation)
    (mutation : IncidentEnvironment → Answer) (e : IncidentEnvironment)
    → lookup r.operation_id e.operations ≡ previous
    → Remembers lib r result (run_request lib r previous mutation e)
unfolding run_new add_record
run_request-Remembers lib r result none mutation e fresh =
    if_intro (Remembers lib r result) (is_closed e.incident_status) _ _
      (λ _. refuse-Remembers lib r "incident_terminal" result e)
      (λ _.
        if_intro (Remembers lib r result) (not (permits lib r e (lookup r.approval_id e.grants))) _
          _ (λ _. refuse-Remembers lib r "approval_mismatch" result e)
          (λ _. mutated-Remembers lib r result (mutation e)))
run_request-Remembers lib r result (some previous) mutation e found =
    if_intro (Remembers lib r result) (previous.fingerprint != operation_fingerprint lib r) _ _
      (λ _. refuse-Remembers lib r "idempotency_conflict" result e)
      (λ same h ok. record {
        previous = previous;
        found = found;
        same_request =
            ground (arith, eq_iff previous.fingerprint (operation_fingerprint lib r), same);
        same_result = cc;
      })

equal_texts : (a b : String) → a ≡ b → (a != b) ≡ false
equal_texts a b h = ground (arith, eq_iff a b)

replay_recalled :
    (lib : Stdlib) (r : Request) (result : IncidentToolResult)
    (mutation : IncidentEnvironment → Answer) (e : IncidentEnvironment)
    → Recalls lib r result e
    → Replays result e (run_request lib r (lookup r.operation_id e.operations) mutation e)
unfolding add_record snapshot
replay_recalled lib r result mutation e h =
    rw (h.found, equal_texts h.previous.fingerprint (operation_fingerprint lib r) h.same_request)
      (ap some h.same_result, refl)

-- a remembered request is remembered later
Recalls-Grows :
    {lib : Stdlib} {r : Request} {result : IncidentToolResult} {e e' : IncidentEnvironment}
    → Recalls lib r result e
    → Grows e e'
    → Recalls lib r result e'
Recalls-Grows {r = r} h g = record {
  previous = h.previous;
  found = g.operations_kept r.operation_id h.previous h.found;
  same_request = h.same_request;
  same_result = h.same_result;
}

module _ (lib : Stdlib) (result : IncidentToolResult) (ok : result.status ≡ IncidentResultStatus.ok)
    (e e' : IncidentEnvironment) where
  -- If the first answer is the success, and the environment comes later, the second repeats it.
  abbrev Later : Answer → Answer → Type 0
  Later x y = x.0 ≡ some result → Grows x.1 e' → Replays result e' y

  abbrev Again : (IncidentEnvironment → Answer) → Type 0
  Again call = Later (call e) (call e')

  if-Later :
      (b b' : Bool) (x x' y y' : Answer)
      → (b ≡ true → b' ≡ true)
      → Later x y
      → ((z : Answer) → x'.0 ≡ some result → Replays result e' z)
      → Later (if b then x else x') (if b' then y else y')
  if-Later true true x x' y y' kept h r = h
  if-Later true false x x' y y' kept h r = cc (kept refl)
  if-Later false b' x x' y y' kept h r = λ s _. r _ s

  rejected_again :
      (action : IncidentAction) (category target : String)
      (approval operation fingerprint : Option String) (x : Answer)
      → (reject_with action category target approval operation fingerprint e).0 ≡ some result
      → Replays result e' x
  unfolding reject_with
  rejected_again action category target approval operation fingerprint x h = cc

  with_identifiers-Again :
      (action : IncidentAction) (target : String) (approval operation : Option String)
      (mutation : IncidentEnvironment → Answer)
      → Again (with_identifiers lib action target approval operation mutation)
  with_identifiers-Again action target none operation mutation h g =
      rejected_again action "approval_required" target none none none _ h
  with_identifiers-Again action target (some approval) none mutation h g =
      rejected_again action "operation_required" target (some approval) none none _ h
  with_identifiers-Again action target (some approval) (some operation) mutation h g =
      replay_recalled lib _ result mutation e' (
        Recalls-Grows
          (run_request-Remembers lib _ result (lookup operation e.operations) mutation e refl h ok)
          g)

  high_impact-Again :
      (action : IncidentAction) (target : String) (mutation : IncidentEnvironment → Answer)
      → Again (high_impact lib action target mutation)
  unfolding high_impact
  high_impact-Again action target mutation h g =
      with_identifiers-Again action target _ _ mutation h g

  restart_service-Again :
      (action : IncidentAction)
      → (has_key (target_of action) e.services ≡ true
          → has_key (target_of action) e'.services ≡ true)
      → Again (restart_service lib action)
  unfolding restart_service
  restart_service-Again action kept =
      if-Later (has_key (target_of action) e.services) (has_key (target_of action) e'.services) _ _
        _ _ kept (high_impact-Again action (target_of action) (perform_restart (target_of action)))
        (rejected_again action "unknown_service" (target_of action) none none none)

  flag_request-Again :
      (action : IncidentAction) (target : String) (known known' : Bool) (value : Option JsonValue)
      → (known ≡ true → known' ≡ true)
      → Later
          (flag_request lib action target known value e)
          (flag_request lib action target known' value e')
  flag_request-Again action target true true (some (bool enabled)) kept =
      high_impact-Again action target (perform_flag target enabled)
  flag_request-Again action target true false (some (bool enabled)) kept = cc (kept refl)
  flag_request-Again action target _ known' _ kept =
      λ h _. rejected_again action "invalid_config_mutation" target none none none _ h

  set_feature_flag-Again :
      (action : IncidentAction)
      → (has_key (target_of action) e.feature_flags ≡ true
          → has_key (target_of action) e'.feature_flags ≡ true)
      → Again (set_feature_flag lib action)
  unfolding set_feature_flag
  set_feature_flag-Again action kept = flag_request-Again action (target_of action) _ _ _ kept

  -- the tools that change the simulated system
  dispatch-Again :
      (redact : String → String) (tool : IncidentToolName) (action : IncidentAction)
      → changes_system tool ≡ true
      → Grows e e'
      → Again (dispatch lib redact tool action)
  dispatch-Again redact IncidentToolName.restart_simulated_service action m g =
      restart_service-Again action (g.services_kept (target_of action))
  dispatch-Again redact IncidentToolName.set_feature_flag action m g =
      set_feature_flag-Again action (g.flags_kept (target_of action))
  dispatch-Again redact _ action m g = cc m

  execute-Again :
      (redact : String → String) (action : IncidentAction)
      → changes_system action.tool_name ≡ true
      → Grows e e'
      → Again (execute lib redact action)
  unfolding execute
  execute-Again redact action m g =
      if-Later (contains e.fixture.task.allowed_tools action.tool_name)
        (contains e'.fixture.task.allowed_tools action.tool_name) _ _ _ _ (λ h. rw g.fixture_kept h)
        (dispatch-Again redact action.tool_name action m g)
        (rejected_again action "tool_not_allowed" "task" none none none)

-- A restart or a flag change that succeeded may be called again, after any further actions, even on a
-- closed incident: it returns the same result, marked as an idempotency hit, and changes nothing that
-- the snapshot shows.
pub execute-Replays :
    (lib : Stdlib) (redact : String → String) (action : IncidentAction)
    (later : List IncidentAction) (e : IncidentEnvironment) (result : IncidentToolResult)
    → changes_system action.tool_name ≡ true
    → (execute lib redact action e).0 ≡ some result
    → result.status ≡ IncidentResultStatus.ok
    → Replays result
        (execute_all lib redact (action ∷ later) e)
        (execute lib redact action (execute_all lib redact (action ∷ later) e))
unfolding execute_all
execute-Replays lib redact action later e result m h ok =
    let e1 = (execute lib redact action e).1 in
    let grown = execute_all-Grows lib redact later e1 in
    execute-Again lib result ok e (execute_all lib redact later e1) redact action m
      (Grows-trans (step-Grows (execute-Steps lib e redact action)) grown) h grown
