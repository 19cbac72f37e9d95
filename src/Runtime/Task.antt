-- ===== src/Runtime/Task.antt =====
-- runtime.py: `execute_runtime_task` from the checks of its arguments to the files that it writes.
use Prim.Native.String.{◌++◌}
use agent_learning_loop.Base.{
  ℕ, ◌+◌, String, Bool, false, ◌||◌, Option, none, some, List, [], ◌∷◌, Dict, ◌==◌, ◌!=◌, string_eq,
  int_eq, option_eq, str, int, bool, Flow, next, stop, Stdlib, if◌then◌else◌, not,
}
use agent_learning_loop.Schemas.{
  WorkspaceTaskFixture, VerifierResult, ErrorRecord, BudgetUsage, RuntimeConfig, accepts_config,
  mode_text, RuntimeState, state_text,
}
use agent_learning_loop.Schedules.{
  FailureSchedule, fingerprint_schedule, validate_schedule_for_task,
}
use agent_learning_loop.Runtime.Store.{InMemoryIdempotencyStore}
use agent_learning_loop.Runtime.Session.{
  Host, RunInput, Session, RuntimeEvent, RuntimeEventKind, emit, elapsed, public,
}
use agent_learning_loop.Runtime.Frame.{Frame, Leave, execution_failure_verifier}
use agent_learning_loop.Runtime.Run.{guarded_run}

-- `RuntimeResult`
pub record RuntimeResult : Type 0 where
  pub run_id : String
  pub task_id : String
  pub terminal_state : RuntimeState
  pub config : RuntimeConfig
  pub error : Option ErrorRecord
  pub verifier : VerifierResult
  pub usage : BudgetUsage
  pub schedule_id : String
  pub schedule_fingerprint : String

-- pydantic's `model_dump_json` of an event, and of a result with `indent=2`
pub record Printer : Type 0 where
  pub event_json : RuntimeEvent → String
  pub result_json : RuntimeResult → String

-- The arguments of `execute_runtime_task`, but for the components that `Host` stands for.
pub record Arguments : Type 0 where
  pub fixture : WorkspaceTaskFixture
  pub run_id : String
  pub config : RuntimeConfig
  pub schedule : FailureSchedule
  pub idempotency_store : Option InMemoryIdempotencyStore
  -- the run directory exists and holds something
  pub occupied : Bool

pub data Refusal : Type 0 where
  output_exists_error failure_schedule_mismatch_error validation_error : Refusal

-- How the function ends: an exception before the run, an exception out of the run, or a result,
-- with the files that were written.
pub data TaskEnd (W : Type 0) : Type 0 where
  refused : Refusal → TaskEnd W
  escaped : W → TaskEnd W
  returned : RuntimeResult → Dict String → W → TaskEnd W

-- `effective_config`, before its validation
abbrev pub effective_config : Stdlib → Arguments → RuntimeConfig
effective_config lib args = record args.config {
  schedule_fingerprint = some (fingerprint_schedule lib args.schedule);
}

-- the checks before the run, in their order
unfoldable pub check_arguments : Stdlib → Arguments → Option Refusal
unfolding validate_schedule_for_task accepts_config
check_arguments lib args =
    let config = args.config in
    let schedule = args.schedule in
    let fingerprint = fingerprint_schedule lib schedule in
    if args.occupied
    then some output_exists_error
    else if not (validate_schedule_for_task lib schedule args.fixture.task.task_id)
    then some failure_schedule_mismatch_error
    else if config.schedule_id != schedule.schedule_id || config.seed != schedule.seed
    then some failure_schedule_mismatch_error
    else if not
        (config.schedule_fingerprint == none || config.schedule_fingerprint == some fingerprint)
    then some failure_schedule_mismatch_error
    else if not (accepts_config (effective_config lib args))
    then some validation_error
    else none

abbrev given_or_new : Option InMemoryIdempotencyStore → InMemoryIdempotencyStore
given_or_new none = record { entries = [] }
given_or_new (some store) = store

abbrev lines : Printer → List RuntimeEvent → String
lines p [] = ""
lines p (e ∷ es) = p.event_json e ++ "\n" ++ lines p es

-- `_write_outputs`: the two files
unfoldable pub write_outputs : Printer → List RuntimeEvent → RuntimeResult → Dict String
write_outputs p events result =
    ("events.jsonl", lines p events) ∷ ("result.json", p.result_json result ++ "\n") ∷ []

module _ (host : Host) (lib : Stdlib) (printer : Printer) (args : Arguments) where
  -- the closures' shared variables, after `start_time` has been read
  abbrev pub run_input : ℕ → RunInput
  run_input start_time = record {
    lib = lib;
    run_id = args.run_id;
    fixture = args.fixture;
    config = effective_config lib args;
    schedule = args.schedule;
    start_time = start_time;
  }

  abbrev new_session : host.World → Session host.World
  new_session w = record {
    world = w;
    machine = record { state = RuntimeState.created };
    counters = record {
      steps = 0;
      tool_calls = 0;
      physical_executions = 0;
      side_effect_executions = 0;
      duplicate_side_effects = 0;
      retries = 0;
      idempotency_hits = 0;
      backoff_seconds = 0;
    };
    tracker = record { schedule = args.schedule; occurrences = []; injection_count = 0 };
    store = given_or_new args.idempotency_store;
    events = [];
  }

  -- the local variables before the `try`, the `run_started` event emitted
  unfoldable pub start_frame : ℕ → host.World → Frame host.World
  unfolding emit
  start_frame start_time w = record {
    session =
        emit (run_input start_time) RuntimeEventKind.run_started
          (("mode", str (mode_text args.config.mode))
            ∷ ("schedule_id", str args.schedule.schedule_id)
            ∷ ("schedule_fingerprint", str (fingerprint_schedule lib args.schedule))
            ∷ ("seed", int args.schedule.seed)
            ∷ [])
          0 (new_session w);
    error = none;
    verifier_result = execution_failure_verifier;
    initial = none;
    observation = none;
    verification_attempted = false;
    last_attempt = 0;
  }

  -- from the `run_finished` event to the end
  unfoldable pub finish_task : ℕ → Frame host.World → TaskEnd host.World
  unfolding emit elapsed public
  finish_task start_time fr =
      let s =
        emit (run_input start_time) RuntimeEventKind.run_finished
          (("terminal_state", str (state_text fr.session.machine.state))
            ∷ ("verifier_passed", bool fr.verifier_result.passed)
            ∷ [])
          0 fr.session in
      let (t, s') = elapsed host (run_input start_time) s in
      let result : RuntimeResult = record {
        run_id = args.run_id;
        task_id = args.fixture.task.task_id;
        terminal_state = s.machine.state;
        config = effective_config lib args;
        error = fr.error;
        verifier = fr.verifier_result;
        usage = public s.counters t;
        schedule_id = args.schedule.schedule_id;
        schedule_fingerprint = fingerprint_schedule lib args.schedule;
      } in
      returned result (write_outputs printer s.events result) s'.world

  abbrev closed : Frame host.World → Frame host.World
  closed fr = record fr { session = record fr.session { world = host.close fr.session.world } }

  -- `finally: environment.close()`, and what follows if nothing was raised
  unfoldable pub after_try : ℕ → Flow Leave (Unit {0}) × Frame host.World → TaskEnd host.World
  after_try start_time (next _, fr) = finish_task start_time (closed fr)
  after_try start_time (stop _, fr) = escaped (host.close fr.session.world)

  -- `RuntimeEvent` refuses an empty `run_id`, so the first `emit` raises, before the `try`
  abbrev run_checked : Option Refusal → host.World → TaskEnd host.World
  run_checked (some r) w = refused r
  run_checked none w =
      let (start_time, w') = host.monotonic w in
      if args.run_id == ""
      then escaped w'
      else after_try start_time (
          guarded_run host (run_input start_time) (args.config.max_steps + 1)
            (start_frame start_time w'))

  -- `execute_runtime_task`; a run makes at most `max_steps` rounds, and one more finds it out
  unfoldable pub execute_runtime_task : host.World → TaskEnd host.World
  unfolding start_frame after_try
  execute_runtime_task w = run_checked (check_arguments lib args) w
