-- ===== src/Runtime/Session.antt =====
-- runtime.py: the state of one run, its counters and events, and the components that a run calls.
use agent_learning_loop.Base.{
  ℕ, ◌-◌, String, Bool, Option, List, [], ◌∷◌, ◌++◌, Dict, JsonValue, length, Stdlib,
}
use agent_learning_loop.Schemas.{
  ToolName, Task, Action, ToolResult, Observation, WorkspaceSnapshot, WorkspaceExpectedState,
  WorkspaceTaskFixture, VerifierResult, ErrorCategory, ErrorPhase, ErrorRecord, BudgetUsage,
  RuntimeConfig,
}
use agent_learning_loop.Schedules.{FailureSchedule}
use agent_learning_loop.Machine.{RuntimeStateMachine}
use agent_learning_loop.Runtime.Store.{InMemoryIdempotencyStore, FailureTracker}

-- `_Counters`
pub record Counters : Type 0 where
  pub steps : ℕ
  pub tool_calls : ℕ
  pub physical_executions : ℕ
  pub side_effect_executions : ℕ
  pub duplicate_side_effects : ℕ
  pub retries : ℕ
  pub idempotency_hits : ℕ
  pub backoff_seconds : ℕ

-- `_Counters.public`
unfoldable pub public : Counters → ℕ → BudgetUsage
public c elapsed = record {
  steps = c.steps;
  tool_calls = c.tool_calls;
  physical_executions = c.physical_executions;
  side_effect_executions = c.side_effect_executions;
  duplicate_side_effects = c.duplicate_side_effects;
  retries = c.retries;
  idempotency_hits = c.idempotency_hits;
  backoff_seconds = c.backoff_seconds;
  elapsed_seconds = elapsed;
}

pub data RuntimeEventKind : Type 0 where
  run_started runtime_state_changed attempt_started attempt_completed failure_injected :
      RuntimeEventKind
  retry_scheduled idempotency_hit idempotency_conflict run_finished : RuntimeEventKind

pub record RuntimeEvent : Type 0 where
  pub run_id : String
  pub task_id : String
  pub sequence : ℕ
  pub step_index : ℕ
  pub attempt : ℕ
  pub event_kind : RuntimeEventKind
  pub payload : Dict JsonValue

-- How a call of another component ends: `failed` is an exception that the Runtime handles where it
-- makes the call, `raised` is any other.
pub data Call (A : Type 0) : Type 0 where
  returned : A → Call A
  failed : Call A
  raised : Call A

-- What the policy answers: `None`, an action, or an object that `Action.model_validate` refuses.
pub data Decision : Type 0 where
  no_action invalid_action : Decision
  chosen : Action → Decision

-- The components behind their protocols (clock, policy, environment, tools, verifier), which share
-- one world. Reading the clock, sleeping and `close` raise nothing, and the clock is monotonic: a
-- reading is never before `start_time`.
pub record Host : Type 1 where
  pub World : Type 0
  pub monotonic : World → ℕ × World
  pub sleep : ℕ → World → World
  pub decide : Task → Observation → World → Call Decision × World
  pub reset : Dict String → String → World → Call Observation × World
  pub observe : String → ℕ → Option ToolResult → World → Call Observation × World
  pub snapshot : World → Call WorkspaceSnapshot × World
  pub execute_tool : ToolName → Action → World → Call ToolResult × World
  pub verify :
      WorkspaceSnapshot
      → WorkspaceSnapshot
      → WorkspaceExpectedState
      → World
      → Call VerifierResult × World
  pub close : World → World

-- What a run is called with, after `schedule_fingerprint` has been set in the configuration.
pub record RunInput : Type 0 where
  pub lib : Stdlib
  pub run_id : String
  pub fixture : WorkspaceTaskFixture
  pub config : RuntimeConfig
  pub schedule : FailureSchedule
  pub start_time : ℕ

-- The local variables that the closures of `execute_runtime_task` share.
pub record Session (W : Type 0) : Type 0 where
  pub world : W
  pub machine : RuntimeStateMachine
  pub counters : Counters
  pub tracker : FailureTracker
  pub store : InMemoryIdempotencyStore
  pub events : List RuntimeEvent

-- `_error`
unfoldable pub make_error :
    ErrorCategory → ErrorPhase → Bool → Counters → ℕ → Option ToolName → String → ErrorRecord
make_error category phase retryable counters attempt tool_name detail = record {
  category = category;
  phase = phase;
  retryable = retryable;
  step_index = counters.steps;
  attempt = attempt;
  tool_name = tool_name;
  detail = detail;
}

module _ {W : Type 0} (input : RunInput) where
  -- `emit`; `RuntimeEvent` refuses an empty `run_id`, with which `execute_runtime_task` gets no
  -- further than its first event
  unfoldable pub emit : RuntimeEventKind → Dict JsonValue → ℕ → Session W → Session W
  emit kind payload attempt s = record s {
    events =
        s.events
        ++ record {
          run_id = input.run_id;
          task_id = input.fixture.task.task_id;
          sequence = length s.events;
          step_index = s.counters.steps;
          attempt = attempt;
          event_kind = kind;
          payload = payload;
        }
          ∷ [];
  }

module _ (host : Host) (input : RunInput) where
  -- `elapsed`
  unfoldable pub elapsed : Session host.World → ℕ × Session host.World
  elapsed s =
      let (now, w) = host.monotonic s.world in (now - input.start_time, record s { world = w })
