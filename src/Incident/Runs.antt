-- ===== src/Incident/Runs.antt =====
-- incident_environment.py: every sequence of actions keeps the invariant of the environment.
use agent_learning_loop.Base.{String, List, [], ◌∷◌, contains, Stdlib, ◌≡◌, refl, if_intro}
use agent_learning_loop.Incident.Names.{IncidentToolName, incident_tool_eq}
use agent_learning_loop.Incident.Contracts.{IncidentAction, IncidentTaskFixture}
use agent_learning_loop.Incident.Environment.{IncidentEnvironment, Answer, start}
use agent_learning_loop.Incident.Execute.{dispatch, execute, execute_all}
use agent_learning_loop.Incident.Sound.{IsSound, start-IsSound}
use agent_learning_loop.Incident.Kept.{
  reject-IsSound, get_service_status-IsSound, read_service_logs-IsSound,
  inspect_service_config-IsSound, request_approval-IsSound, acknowledge-IsSound, escalate-IsSound,
}
use agent_learning_loop.Incident.Mutated.{restart_service-IsSound, set_feature_flag-IsSound}

module _ (lib : Stdlib) (redact : String → String) where
  dispatch-IsSound :
      (tool : IncidentToolName) (action : IncidentAction) (e : IncidentEnvironment)
      → action.tool_name ≡ tool
      → IsSound e
      → IsSound (dispatch lib redact tool action e).1
  dispatch-IsSound IncidentToolName.get_service_status a e t h = get_service_status-IsSound a e h
  dispatch-IsSound IncidentToolName.read_service_logs a e t h =
      read_service_logs-IsSound redact a e h
  dispatch-IsSound IncidentToolName.inspect_service_config a e t h =
      inspect_service_config-IsSound a e h
  dispatch-IsSound IncidentToolName.request_approval a e t h = request_approval-IsSound lib a e h
  dispatch-IsSound IncidentToolName.set_feature_flag a e t h = set_feature_flag-IsSound lib a e t h
  dispatch-IsSound IncidentToolName.restart_simulated_service a e t h =
      restart_service-IsSound lib a e t h
  dispatch-IsSound IncidentToolName.acknowledge_incident a e t h = acknowledge-IsSound a e h
  dispatch-IsSound IncidentToolName.escalate_incident a e t h = escalate-IsSound a e h

  execute-IsSound :
      (action : IncidentAction) (e : IncidentEnvironment)
      → IsSound e
      → IsSound (execute lib redact action e).1
  unfolding execute
  execute-IsSound action e h =
      if_intro (λ (x : Answer). IsSound x.1)
        (contains e.fixture.task.allowed_tools action.tool_name) _ _
        (λ _. dispatch-IsSound action.tool_name action e refl h)
        (λ _. reject-IsSound action _ "task" e h)

  runs-IsSound :
      (actions : List IncidentAction) (e : IncidentEnvironment)
      → IsSound e
      → IsSound (execute_all lib redact actions e)
  unfolding execute_all
  runs-IsSound [] e h = h
  runs-IsSound (action ∷ actions) e h = runs-IsSound actions _ (execute-IsSound action e h)

-- After any sequence of actions from the start of an incident, whether they are accepted, rejected or
-- raise an exception: the audit is numbered from 0, all of one run and task; each physical mutation
-- has an approval of the same approval id, tool, target and action fingerprint before it; an operation
-- id is remembered exactly if it mutated, and then it mutated once; and each counter is the number of
-- physical mutations at its service or flag.
pub execute_all-IsSound :
    (lib : Stdlib) (redact : String → String) (actions : List IncidentAction)
    (fixture : IncidentTaskFixture) (run_id : String)
    → IsSound (execute_all lib redact actions (start fixture run_id))
execute_all-IsSound lib redact actions fixture run_id =
    runs-IsSound lib redact actions _ (start-IsSound fixture run_id)
