-- ===== src/Runtime/Exits.antt =====
-- runtime.py: how one call of `_execute_tool_attempts` ends early, its guards and its retry policy.
-- An early `return` is `stop`.
use agent_learning_loop.Base.{
  ℕ, String, Bool, true, false, not, ◌&&◌, ◌||◌, Option, none, some, [], ◌∷◌, nat_eq, leb, contains,
  is_some, JsonValue, int, str, pos, Dict, Body, next, stop, modify, gets, when, ◌>>=◌,
  if◌then◌else◌,
}
use agent_learning_loop.Schemas.{
  tool_text, ToolResult, ErrorCategory, category_eq, ErrorPhase, ErrorRecord, RuntimeConfig,
}
use agent_learning_loop.Schedules.{FailureSchedule, FailureKind, ToolMetadata}
use agent_learning_loop.Runtime.Store.{ToolInvocation}
use agent_learning_loop.Runtime.Session.{
  Host, RunInput, Session, Counters, RuntimeEventKind, make_error, emit, elapsed,
}

-- The triple that `_execute_tool_attempts` returns.
pub record Outcome : Type 0 where
  pub result : Option ToolResult
  pub error : Option ErrorRecord
  pub attempt : ℕ

-- `escaped` is an exception of a tool that leaves the function, `broken` one of its own code: the
-- `IndexError` of a backoff plan that is too short, or the `ValueError` of a save without a key.
pub data Exit : Type 0 where
  finished : Outcome → Exit
  escaped broken : Exit

-- `is_retry_allowed`
unfoldable pub is_retry_allowed :
    ErrorRecord → ToolMetadata → ToolInvocation → RuntimeConfig → ℕ → Bool
is_retry_allowed error metadata invocation config attempt =
    if not config.retry_enabled || leb config.max_attempts attempt
    then false
    else if not error.retryable || not (contains metadata.retryable_categories error.category)
    then false
    else if metadata.side_effecting && not (is_some invocation.idempotency_key)
    then false
    else true

abbrev injected_detail : FailureKind → String
injected_detail FailureKind.transient = "controlled transient tool failure"
injected_detail FailureKind.logical_timeout = "controlled logical tool timeout"
injected_detail FailureKind.result_lost = "controlled tool result loss after successful execution"

-- `_injected_error`
unfoldable pub injected_error : FailureSchedule → Counters → ℕ → ErrorRecord
unfolding make_error
injected_error schedule counters attempt =
    let rule = schedule.rule in
    make_error rule.error_category ErrorPhase.executing_tool rule.retryable counters attempt
      (some rule.target_tool) (injected_detail rule.failure_kind)

module _ (host : Host) (input : RunInput) (metadata : ToolMetadata)
    (invocation : ToolInvocation) where
  abbrev pub Exec : Type 0 → Type 0
  Exec A = Body (Session host.World) Exit A

  abbrev common : ℕ → Dict JsonValue
  common attempt =
      ("tool_name", str (tool_text metadata.name)) ∷ ("attempt", int (pos attempt)) ∷ []

  unfoldable pub note : RuntimeEventKind → Dict JsonValue → ℕ → Exec (Unit {0})
  unfolding emit
  note kind payload attempt = modify (emit input kind payload attempt)

  unfoldable pub completed : String → ℕ → Exec (Unit {0})
  unfolding note
  completed status attempt =
      note RuntimeEventKind.attempt_completed
        (("tool_name", str (tool_text metadata.name))
          ∷ ("attempt", int (pos attempt))
          ∷ ("status", str status)
          ∷ [])
        attempt

  -- `return None, _error(...), attempt`
  unfoldable pub fail_attempt : ErrorCategory → ErrorPhase → ℕ → String → Exec (Unit {0})
  unfolding make_error
  fail_attempt category phase attempt detail s = (
    stop (
        finished (record {
          result = none;
          error =
              some (make_error category phase false s.counters attempt (some metadata.name) detail);
          attempt = attempt;
        })),
    s,
  )

  unfoldable pub past_deadline : Exec Bool
  unfolding elapsed
  past_deadline s =
      let (t, s') = elapsed host input s in (next (leb input.config.timeout_seconds t), s')

  unfoldable pub check_deadline : ℕ → String → Exec (Unit {0})
  unfolding past_deadline fail_attempt
  check_deadline attempt detail = do
    late ← past_deadline
    when late (fail_attempt ErrorCategory.timeout ErrorPhase.executing_tool attempt detail)

  unfoldable pub check_call_budget : ℕ → String → Exec (Unit {0})
  unfolding fail_attempt
  check_call_budget attempt detail = do
    spent ← gets (λ s. leb input.config.max_tool_calls s.counters.tool_calls)
    when spent
        (fail_attempt ErrorCategory.budget_exhausted ErrorPhase.executing_tool attempt detail)
