-- ===== src/Runtime/Act.antt =====
-- runtime.py: the rest of a round of the `while` loop, from the selected action to its observation.
use agent_learning_loop.Base.{
  ℕ, not, Option, none, some, contains, Flow, next, stop, leave, gets, when, ◌>>=◌, ◌>>◌, pure,
  if◌then◌else◌,
}
use agent_learning_loop.Schemas.{
  ToolName, tool_eq, Action, ToolResult, Observation, ErrorCategory, ErrorPhase, ErrorRecord,
  RuntimeState,
}
use agent_learning_loop.Schedules.{tool_metadata}
use agent_learning_loop.Runtime.Store.{ToolInvocation, request_fingerprint, idempotency_key}
use agent_learning_loop.Runtime.Session.{Host, RunInput, Call, Decision}
use agent_learning_loop.Runtime.Exits.{Exit, finished}
use agent_learning_loop.Runtime.Retry.{execute_tool_attempts}
use agent_learning_loop.Runtime.Frame.{broke, thrown, Statement, transit, set_error, break_with}
use agent_learning_loop.Runtime.Round.{begin_round, decide, finish_round, timeout_unless_failed}

-- the `ToolInvocation` that is built for an action at a step
unfoldable pub make_invocation : RunInput → Action → ℕ → ToolInvocation
unfolding request_fingerprint
make_invocation input action steps =
    let fingerprint = request_fingerprint input.lib action in
    record {
      action = action;
      idempotency_key =
          if (tool_metadata action.tool_name).side_effecting
          then some (idempotency_key input.lib input.fixture.task.task_id steps fingerprint)
          else none;
      request_fingerprint = fingerprint;
    }

module _ (host : Host) (input : RunInput) where
  abbrev Run : Type 0 → Type 0
  Run A = Statement host input A

  -- `tool_result, error, last_attempt = ...`, or an exception that goes on
  abbrev keep_outcome : Flow Exit (Unit {0}) → Run (Option ToolResult)
  keep_outcome (stop (finished o)) fr =
      (next o.result, record fr { error = o.error; last_attempt = o.attempt })
  keep_outcome _ fr = (stop thrown, fr)

  unfoldable pub call_tool : Action → Run (Option ToolResult)
  unfolding make_invocation
  call_tool action fr =
      let s = fr.session in
      let (r, s') =
        execute_tool_attempts host input (tool_metadata action.tool_name)
          (make_invocation input action s.counters.steps) s in
      keep_outcome r (record fr { session = s' })

  abbrev keep_observation : Call Observation → ToolName → Run (Unit {0})
  keep_observation (Call.returned o) tool fr = (next tt, record fr { observation = some o })
  keep_observation Call.failed tool fr =
      set_error host input ErrorCategory.environment_error ErrorPhase.observing fr.last_attempt
        (some tool) "Workspace observation failed" fr
  keep_observation Call.raised tool fr = (stop thrown, fr)

  abbrev ask_environment : ToolResult → Run (Call Observation)
  ask_environment result fr =
      let (a, w) =
        host.observe input.fixture.task.task_id fr.session.counters.steps (some result)
          fr.session.world in
      (next a, record fr { session = record fr.session { world = w } })

  -- the `try` around `environment.observe`
  unfoldable pub look : ToolResult → ToolName → Run (Unit {0})
  unfolding set_error
  look result tool = do answer ← ask_environment result; keep_observation answer tool

  -- from `transition(RuntimeState.OBSERVING)` to the end of the loop body; with no result the
  -- assertion fails
  unfoldable pub observe_result : Option ToolResult → ToolName → Run (Unit {0})
  unfolding transit look timeout_unless_failed
  observe_result none tool = leave thrown
  observe_result (some result) tool = do
    transit host input RuntimeState.observing
    look result tool
    error ← gets (λ fr. fr.error)
    attempt ← gets (λ fr. fr.last_attempt)
    timeout_unless_failed host input error ErrorPhase.observing attempt (some tool)
        "Runtime deadline was exhausted during observation"

  -- `if action.tool_name not in fixture.task.allowed_tools: ...`
  unfoldable pub check_allowed : Action → Run (Unit {0})
  unfolding break_with
  check_allowed action = when (not (contains input.fixture.task.allowed_tools action.tool_name)) (
      break_with host input ErrorCategory.policy_rejection ErrorPhase.validating_action 0
        (some action.tool_name) "Policy selected a tool outside the task allowlist")

  -- `if error is not None: break`
  unfoldable pub stop_on_error : Option ErrorRecord → Run (Unit {0})
  stop_on_error none = pure tt
  stop_on_error (some _) = leave broke

  unfoldable pub execute_action : Action → Run (Unit {0})
  execute_action action = do
    check_allowed action
    transit host input RuntimeState.executing_tool
    result ← call_tool action
    error ← gets (λ fr. fr.error)
    stop_on_error error
    observe_result result action.tool_name

  unfoldable pub act_on : Decision → Run (Unit {0})
  unfolding break_with transit
  act_on Decision.no_action = finish_round host input
  act_on Decision.invalid_action = do
    transit host input RuntimeState.validating_action
    break_with host input ErrorCategory.schema_validation ErrorPhase.validating_action 0 none
        "Policy returned an invalid structured action"
  act_on (Decision.chosen action) = do
    transit host input RuntimeState.validating_action
    execute_action action

  -- the body of the loop
  unfoldable pub round : Observation → Run (Unit {0})
  unfolding transit
  round observation = do
    begin_round host input
    transit host input RuntimeState.deciding
    decision ← decide host input observation
    act_on decision
