-- ===== src/Runtime/Tests.antt =====
-- Tests of the Runtime (runtime.py), and its theorems at concrete inputs.
use Prim.Native.Nat.{◌*◌}
use agent_learning_loop.Base.{
  ℕ, ◌+◌, String, true, false, Option, none, some, arith, [], ◌∷◌, lookup, insert, ◌==◌, nat_eq,
  str, pos, Stdlib, ◌≡◌, refl, Ends, ◌>>=◌, if◌then◌else◌,
}
use agent_learning_loop.Schemas.{
  write_text, read_text, Action, ToolStatus, Observation, WorkspaceTaskFixture, VerifierResult,
  ErrorCategory, safeguarded, for_mode, accepts_config,
}
use agent_learning_loop.Schedules.{
  FailureSchedule, FailureKind, InjectionPhase, tool_metadata, fingerprint_schedule,
}
use agent_learning_loop.Runtime.Session.{Host, RunInput, Session, Call, Decision}
use agent_learning_loop.Runtime.Store.{
  ToolInvocation, idempotency_key, save, find_saved, find_saved-save,
}
use agent_learning_loop.Runtime.Exits.{check_deadline, check_call_budget}
use agent_learning_loop.Runtime.Attempts.{start_attempt, replay_saved, inject}
use agent_learning_loop.Runtime.Retry.{
  inject_or_execute, retry_or_stop, attempts, attempt_once, execute_tool_attempts,
}
use agent_learning_loop.Runtime.Round.{begin_round, decide, finish_round}
use agent_learning_loop.Runtime.Act.{
  call_tool, check_allowed, stop_on_error, observe_result, execute_action, act_on, round,
}
use agent_learning_loop.Runtime.Run.{prepare, loop, conclude, try_body, handle, guarded_run}
use agent_learning_loop.Runtime.Idempotence.{execute_tool_attempts_once}
use agent_learning_loop.Runtime.Bounds.{IsBounded, execute_tool_attempts-IsBounded}
use agent_learning_loop.Runtime.Outcomes.{EndsProperly, execute_tool_attempts-IsProper}
use agent_learning_loop.Runtime.Task.{
  Arguments, Printer, TaskEnd, returned, check_arguments, run_input, start_frame, finish_task,
  execute_runtime_task,
}
use agent_learning_loop.Runtime.Escape.{Escapes, execute_runtime_task-Escapes}
use agent_learning_loop.Runtime.Trace.{IsNumbered-one, IsAppended, execute_tool_attempts-IsAppended}
use agent_learning_loop.Runtime.Finished.{Finishes, execute_runtime_task-Finishes}

-- A digest that ignores its text: the packaged fingerprint of the lost-write schedule.
abbrev digest : String
digest = "6720ea76647c9a8ec587852bd18f78919ae3d5ce0baf0d27c5637bf6d333f5ce"

abbrev lib : Stdlib
lib = record { dumps = λ _. ""; sha256_hex = λ _. digest; decimal = λ _. "0" }

abbrev printer : Printer
printer = record { event_json = λ _. "{}"; result_json = λ _. "{}" }

abbrev lost_write : FailureSchedule
lost_write = record {
  schedule_id = "workspace.lost-write-result.v1";
  task_id = "workspace.fix-config";
  seed = pos 7;
  rule = record {
    target_tool = write_text;
    occurrence = 1;
    injection_phase = InjectionPhase.after_success;
    failure_kind = FailureKind.result_lost;
    error_category = ErrorCategory.tool_transient;
    retryable = true;
  };
  provenance = "project-authored";
}

abbrev fixture : WorkspaceTaskFixture
fixture = record {
  task = record {
    task_id = "workspace.fix-config";
    instruction = "fix the configuration";
    allowed_tools = read_text ∷ write_text ∷ [];
    fixture_id = "workspace.fix-config.v1";
    provenance = "project-authored";
  };
  setup_files = ("app.conf", "port=0") ∷ [];
  expected = record {
    required_files = [];
    unchanged_files = [];
    allowed_mutations = "app.conf" ∷ [];
    forbidden_paths = [];
  };
}

abbrev args : Arguments
args = record {
  fixture = fixture;
  run_id = "run-1";
  config = for_mode safeguarded "workspace.lost-write-result.v1" (pos 7) none 8 12 30 none;
  schedule = lost_write;
  idempotency_store = none;
  occupied = false;
}

abbrev write_action : Action
write_action = record {
  tool_name = write_text;
  arguments = ("path", str "app.conf") ∷ ("content", str "port=80") ∷ [];
}

abbrev seen : ℕ → Observation
seen n = record {
  task_id = "workspace.fix-config";
  step_index = n;
  visible_paths = "app.conf" ∷ [];
  last_tool_result = none;
}

abbrev passed_verdict : VerifierResult
passed_verdict = record { passed = true; score = 1; checks = [] }

-- A world that only counts the writes: the policy writes once and then stops.
abbrev host : Host
host = record {
  World = ℕ;
  monotonic = λ w. (0, w);
  sleep = λ _ w. w;
  decide = λ _ o w. (
    Call.returned (if o.step_index == 0 then Decision.chosen write_action else Decision.no_action),
    w,
  );
  reset = λ _ _ w. (Call.returned (seen 0), w);
  observe = λ _ n _ w. (Call.returned (seen n), w);
  snapshot = λ w. (Call.returned (record { files = [] }), w);
  execute_tool = λ _ _ w. (Call.returned (record { status = ToolStatus.ok; payload = [] }), w + 1);
  verify = λ _ _ _ w. (Call.returned passed_verdict, w);
  close = λ w. w;
}

abbrev world_of : (h : Host) → TaskEnd h.World → Option h.World
world_of h (returned _ _ w) = some w
world_of h _ = none

abbrev input : RunInput
input = run_input host lib printer args 0

abbrev invocation : ToolInvocation
invocation = record {
  action = write_action;
  idempotency_key = some "key";
  request_fingerprint = digest;
}

abbrev session : Session ℕ
session = (start_frame host lib printer args 0 0).session

-- The theorem on a whole run, at the run above.
execute_runtime_task-Finishes_example :
    Finishes host lib printer args (execute_runtime_task host lib printer args 0)
unfolding check_arguments for_mode
execute_runtime_task-Finishes_example =
    execute_runtime_task-Finishes host lib printer args 0
      (record { snapshot = λ w e. cc e; verify = λ i f x w e. cc e }) refl refl

-- The write whose result is lost is retried, and answered from the store: it is made once.
run_writes_once : world_of host (execute_runtime_task host lib printer args 0) ≡ some 1
unfolding execute_runtime_task finish_task check_arguments for_mode guarded_run prepare loop round
    begin_round decide finish_round conclude handle execute_action check_allowed act_on call_tool
    idempotency_key stop_on_error observe_result execute_tool_attempts attempts attempt_once
    check_deadline check_call_budget start_attempt replay_saved inject inject_or_execute
    retry_or_stop try_body lookup insert ◌>>=◌
run_writes_once = refl

execute_tool_attempts_once_example :
    (execute_tool_attempts host input
      (tool_metadata write_text)
      invocation
      session).1.counters.duplicate_side_effects
    ≡ 0
unfolding for_mode start_frame
execute_tool_attempts_once_example =
    execute_tool_attempts_once host input (tool_metadata write_text) invocation session refl

execute_tool_attempts-IsBounded_example :
    IsBounded 12
      (execute_tool_attempts host input (tool_metadata write_text) invocation session).1.counters
unfolding for_mode start_frame
execute_tool_attempts-IsBounded_example =
    execute_tool_attempts-IsBounded host input (tool_metadata write_text) invocation session
      (omega arith)

execute_tool_attempts-IsProper_example :
    Ends
      (λ _ _. ⊥)
      (λ e _. EndsProperly 2 e)
      (execute_tool_attempts host input (tool_metadata write_text) invocation session)
unfolding for_mode accepts_config fingerprint_schedule
execute_tool_attempts-IsProper_example =
    execute_tool_attempts-IsProper host input (tool_metadata write_text) invocation
      (record { accepted = refl; keyed = refl }) session

find_saved-save_example :
    find_saved invocation
      (record { entries = ("key", (digest, record { status = ToolStatus.ok; payload = [] })) ∷ [] })
    ≡ record { result = some (record { status = ToolStatus.ok; payload = [] }); conflict = false }
unfolding save insert
find_saved-save_example =
    find_saved-save invocation (record { status = ToolStatus.ok; payload = [] })
      (record { entries = [] }) _ refl

execute_tool_attempts-IsAppended_example :
    IsAppended session
      (execute_tool_attempts host input (tool_metadata write_text) invocation session).1
unfolding start_frame
execute_tool_attempts-IsAppended_example =
    execute_tool_attempts-IsAppended host input (tool_metadata write_text) invocation session
      (IsNumbered-one _ refl)

-- The same components, with a clock that goes on by 40 s at each reading, and a verifier that raises.
abbrev late_host : Host
late_host = record {
  World = ℕ;
  monotonic = λ w. (40 * w, w + 1);
  sleep = λ _ w. w;
  decide = λ _ _ w. (Call.returned Decision.no_action, w);
  reset = λ _ _ w. (Call.returned (seen 0), w);
  observe = λ _ n _ w. (Call.returned (seen n), w);
  snapshot = λ w. (Call.returned (record { files = [] }), w);
  execute_tool = λ _ _ w. (Call.raised, w);
  verify = λ _ _ _ w. (Call.raised, w);
  close = λ w. w;
}

execute_runtime_task-Escapes_example : Escapes (execute_runtime_task late_host lib printer args 0)
unfolding check_arguments for_mode
execute_runtime_task-Escapes_example =
    execute_runtime_task-Escapes late_host lib printer args 0
      (record {
        observation = seen 0;
        resets = λ w. refl;
        files = record { files = [] };
        snapshots = λ w. refl;
        raises = λ i f e w. refl;
      })
      (omega arith) refl refl
