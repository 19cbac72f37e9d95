-- ===== src/Runtime/Retry.antt =====
-- runtime.py: the rest of `_execute_tool_attempts`: the physical execution of an attempt, the
-- decision to retry, and the loop over the attempts.
use agent_learning_loop.Base.{
  ℕ, zero, suc, ◌+◌, ◌-◌, String, Bool, false, not, Option, none, some, [], ◌∷◌, ltb, leb,
  get_elem?, int, str, float, pos, next, leave, modify, gets, when, ◌>>=◌, ◌>>◌, pure,
  if◌then◌else◌,
}
use agent_learning_loop.Schemas.{
  tool_text, ToolResult, ToolStatus, ErrorCategory, ErrorPhase, ErrorRecord,
}
use agent_learning_loop.Schedules.{InjectionPhase, ToolMetadata}
use agent_learning_loop.Runtime.Store.{ToolInvocation, InMemoryIdempotencyStore, save}
use agent_learning_loop.Runtime.Session.{
  Host, RunInput, RuntimeEventKind, Call, make_error, elapsed,
}
use agent_learning_loop.Runtime.Exits.{
  finished, escaped, broken, Exec, is_retry_allowed, note, completed, fail_attempt, past_deadline,
  check_deadline, check_call_budget,
}
use agent_learning_loop.Runtime.Attempts.{start_attempt, replay_saved, inject}

module _ (host : Host) (input : RunInput) (metadata : ToolMetadata)
    (invocation : ToolInvocation) where
  abbrev Step : Type 0 → Type 0
  Step A = Exec host input metadata invocation A

  abbrev log_completed : String → ℕ → Step (Unit {0})
  log_completed = completed host input metadata invocation

  abbrev fail : ErrorCategory → ErrorPhase → ℕ → String → Step (Unit {0})
  fail = fail_attempt host input metadata invocation

  abbrev or_escape : {A : Type 0} → Call A → Step A
  or_escape (Call.returned a) = pure a
  or_escape _ = leave escaped

  -- `counters.physical_executions += 1` and `tool.execute(environment, invocation.action)`
  unfoldable pub run_tool : Step ToolResult
  run_tool s =
      let (answer, w) = host.execute_tool metadata.name invocation.action s.world in
      or_escape answer (record s {
        world = w;
        counters = record s.counters { physical_executions = s.counters.physical_executions + 1 };
      })

  abbrev keep_store : Option InMemoryIdempotencyStore → Step (Unit {0})
  keep_store none = leave broken
  keep_store (some store) = modify (λ s. record s { store = store })

  -- the counters and the store after a successful side effect
  unfoldable pub count_side_effect : ToolResult → ℕ → Step ℕ
  unfolding save
  count_side_effect result successful = do
    modify (λ s. record s {
      counters = record s.counters {
        side_effect_executions = s.counters.side_effect_executions + 1;
        duplicate_side_effects =
            s.counters.duplicate_side_effects + (if ltb 1 (successful + 1) then 1 else 0);
      };
    })
    when input.config.idempotency_enabled (λ s. keep_store (save invocation result s.store) s)
    pure (successful + 1)

  -- `if result.status == "error": ... else: ...`
  unfoldable pub account : ToolStatus → ToolResult → ℕ → Step ℕ
  unfolding count_side_effect
  account ToolStatus.error result successful = pure successful
  account ToolStatus.ok result successful =
      if metadata.side_effecting then count_side_effect result successful else pure successful

  abbrev permanent_error : ℕ → Step ErrorRecord
  permanent_error attempt = gets (λ s.
      make_error ErrorCategory.tool_permanent ErrorPhase.executing_tool false s.counters attempt
        (some metadata.name) "Validated Workspace tool rejected the action")

  -- an injected loss of the result, or `return result, None, attempt`
  unfoldable pub lose_or_succeed : Option ErrorRecord → ToolResult → ℕ → Step ErrorRecord
  unfolding completed
  lose_or_succeed (some error) result attempt = pure error
  lose_or_succeed none result attempt = do
    log_completed "ok" attempt
    leave (finished (record { result = some result; error = none; attempt = attempt }))

  unfoldable pub settle : ToolStatus → ToolResult → ℕ → ℕ → Step ErrorRecord
  unfolding inject lose_or_succeed make_error
  settle ToolStatus.error result attempt occurrence = permanent_error attempt
  settle ToolStatus.ok result attempt occurrence = do
    lost ← inject host input metadata invocation attempt occurrence InjectionPhase.after_success
    lose_or_succeed lost result attempt

  -- `if tool_boundary_timed_out: ...`
  unfoldable pub stop_if_late : Bool → ℕ → Step (Unit {0})
  unfolding completed fail_attempt
  stop_if_late late attempt = when late (do
    log_completed "error" attempt
    fail ErrorCategory.timeout ErrorPhase.executing_tool attempt
        "Runtime deadline was exhausted during tool execution")

  -- the `else` branch that executes; its error and the number of successful side effects
  unfoldable pub execute_once : ℕ → ℕ → ℕ → Step (ErrorRecord × ℕ)
  unfolding run_tool past_deadline account stop_if_late settle
  execute_once attempt occurrence successful = do
    result ← run_tool
    late ← past_deadline host input metadata invocation
    successful' ← account result.status result successful
    stop_if_late late attempt
    error ← settle result.status result attempt occurrence
    pure (error, successful')

  unfoldable pub inject_or_execute : Option ErrorRecord → ℕ → ℕ → ℕ → Step (ErrorRecord × ℕ)
  unfolding execute_once
  inject_or_execute (some error) attempt occurrence successful = pure (error, successful)
  inject_or_execute none attempt occurrence successful = execute_once attempt occurrence successful

  abbrev delay_before : Option ℕ → Step ℕ
  delay_before none = leave broken
  delay_before (some delay) = pure delay

  -- `counters.retries += 1` up to `clock.sleep(delay)`
  unfoldable pub schedule_retry : ℕ → ℕ → Step (Unit {0})
  unfolding note
  schedule_retry attempt delay = do
    modify (λ s. record s {
      counters = record s.counters {
        retries = s.counters.retries + 1;
        backoff_seconds = s.counters.backoff_seconds + delay;
      };
    })
    note host input metadata invocation RuntimeEventKind.retry_scheduled
        (("tool_name", str (tool_text metadata.name))
          ∷ ("failed_attempt", int (pos attempt))
          ∷ ("next_attempt", int (pos (attempt + 1)))
          ∷ ("backoff", float (pos delay))
          ∷ [])
        attempt
    modify (λ s. record s { world = host.sleep delay s.world })

  unfoldable pub measure : Step ℕ
  unfolding elapsed
  measure s = let (t, s') = elapsed host input s in (next t, s')

  -- from the `attempt_completed` event of a failed attempt to the end of the loop body
  unfoldable pub retry_or_stop : ErrorRecord → ℕ → Step (Unit {0})
  unfolding completed is_retry_allowed check_call_budget measure fail_attempt schedule_retry
      check_deadline
  retry_or_stop error attempt = do
    log_completed "error" attempt
    when (not (is_retry_allowed error metadata invocation input.config attempt))
        (leave (finished (record { result = none; error = some error; attempt = attempt })))
    check_call_budget host input metadata invocation attempt
        "tool-call budget was exhausted before retry"
    delay ← delay_before (get_elem? input.config.retry_backoff_seconds (attempt - 1))
    t ← measure
    when (leb (input.config.timeout_seconds - t) delay) (
        fail ErrorCategory.timeout ErrorPhase.executing_tool attempt
          "Runtime deadline would be exhausted by retry backoff")
    schedule_retry attempt delay
    check_deadline host input metadata invocation attempt
        "Runtime deadline was exhausted during retry backoff"

  -- one round of the loop; the number of successful side effects after it
  unfoldable pub attempt_once : ℕ → ℕ → Step ℕ
  attempt_once attempt successful = do
    check_deadline host input metadata invocation attempt
        "Runtime deadline was exhausted before tool execution"
    check_call_budget host input metadata invocation attempt
        "tool-call budget was exhausted before execution"
    occurrence ← start_attempt host input metadata invocation attempt
    replay_saved host input metadata invocation attempt
    injected ←
        inject host input metadata invocation attempt occurrence InjectionPhase.before_execution
    (error, successful') ← inject_or_execute injected attempt occurrence successful
    retry_or_stop error attempt
    pure successful'

  -- `for attempt in range(1, config.max_attempts + 1)`, with the rounds left
  unfoldable pub attempts : ℕ → ℕ → ℕ → Step (Unit {0})
  attempts zero attempt successful =
      fail ErrorCategory.internal_error ErrorPhase.internal input.config.max_attempts
        "retry loop ended without a terminal attempt result"
  attempts (suc rounds) attempt successful = do
    successful' ← attempt_once attempt successful
    attempts rounds (attempt + 1) successful'

  -- `_execute_tool_attempts`
  unfoldable pub execute_tool_attempts : Step (Unit {0})
  execute_tool_attempts = attempts input.config.max_attempts 1 0
