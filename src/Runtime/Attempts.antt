-- ===== src/Runtime/Attempts.antt =====
-- runtime.py: `_execute_tool_attempts`, one tool call with its injected failure, idempotent replay
-- and bounded retry. Each block of the loop body is a function.
use agent_learning_loop.Base.{
  ℕ, ◌+◌, String, ◌&&◌, Option, none, some, [], ◌∷◌, nat_eq, JsonValue, int, str, bool, pos, Dict,
  next, leave, modify, when, ◌>>◌, pure, if◌then◌else◌,
}
use agent_learning_loop.Schemas.{
  tool_text, ToolResult, ErrorCategory, category_eq, category_text, ErrorPhase, ErrorRecord,
}
use agent_learning_loop.Schedules.{InjectionPhase, phase_text, kind_text, ToolMetadata}
use agent_learning_loop.Runtime.Store.{ToolInvocation, find_saved, begin_attempt, claim_injection}
use agent_learning_loop.Runtime.Session.{Host, RunInput, Session, RuntimeEventKind, emit}
use agent_learning_loop.Runtime.Exits.{
  finished, Exec, injected_error, note, completed, fail_attempt,
}

module _ (host : Host) (input : RunInput) (metadata : ToolMetadata)
    (invocation : ToolInvocation) where
  abbrev Step : Type 0 → Type 0
  Step A = Exec host input metadata invocation A

  abbrev log : RuntimeEventKind → Dict JsonValue → ℕ → Step (Unit {0})
  log = note host input metadata invocation

  abbrev log_completed : String → ℕ → Step (Unit {0})
  log_completed = completed host input metadata invocation

  abbrev attempt_payload : ℕ → Dict JsonValue
  attempt_payload attempt =
      ("tool_name", str (tool_text metadata.name)) ∷ ("attempt", int (pos attempt)) ∷ []

  -- `counters.tool_calls += 1` up to the `attempt_started` event; the occurrence is returned
  unfoldable pub start_attempt : ℕ → Step ℕ
  unfolding emit begin_attempt
  start_attempt attempt s =
      let (occurrence, tracker) = begin_attempt metadata.name s.tracker in
      (
        next occurrence,
        emit input RuntimeEventKind.attempt_started
            (("tool_name", str (tool_text metadata.name))
              ∷ ("attempt", int (pos attempt))
              ∷ ("occurrence", int (pos occurrence))
              ∷ [])
            attempt
            (record s {
              counters = record s.counters { tool_calls = s.counters.tool_calls + 1 };
              tracker = tracker;
            }),
      )

  -- `return result, None, attempt`
  abbrev succeed : ToolResult → ℕ → Step (Unit {0})
  succeed result attempt =
      leave (finished (record { result = some result; error = none; attempt = attempt }))

  abbrev count_hit : Step (Unit {0})
  count_hit = modify (λ s. record s {
    counters = record s.counters { idempotency_hits = s.counters.idempotency_hits + 1 };
  })

  replay_result : Option ToolResult → ℕ → Step (Unit {0})
  unfolding note completed
  replay_result none attempt = pure tt
  replay_result (some result) attempt = do
    count_hit
    log RuntimeEventKind.idempotency_hit (attempt_payload attempt) attempt
    log_completed "ok" attempt
    succeed result attempt

  -- the lookup of a saved result, where the switch is on and the tool has side effects
  unfoldable pub replay_saved : ℕ → Step (Unit {0})
  unfolding note fail_attempt replay_result find_saved
  replay_saved attempt s =
      let found = find_saved invocation s.store in
      when (input.config.idempotency_enabled && metadata.side_effecting)
        (do
          when found.conflict (do
            log RuntimeEventKind.idempotency_conflict (attempt_payload attempt) attempt
            fail_attempt host input metadata invocation ErrorCategory.idempotency_conflict
                ErrorPhase.executing_tool attempt
                "idempotency key was reused with different arguments")
          replay_result found.result attempt)
        s

  injection_payload : ℕ → InjectionPhase → Dict JsonValue
  injection_payload attempt phase =
      let rule = input.schedule.rule in
      ("tool_name", str (tool_text metadata.name))
      ∷ ("attempt", int (pos attempt))
      ∷ ("failure_kind", str (kind_text rule.failure_kind))
      ∷ ("injection_phase", str (phase_text phase))
      ∷ ("error_category", str (category_text rule.error_category))
      ∷ ("retryable", bool rule.retryable)
      ∷ []

  -- `claim_injection`, and if it matches the injected error and its event
  unfoldable pub inject : ℕ → ℕ → InjectionPhase → Step (Option ErrorRecord)
  unfolding claim_injection injected_error emit injection_payload
  inject attempt occurrence phase s =
      let (matches, tracker) = claim_injection metadata.name occurrence phase s.tracker in
      let s' : Session host.World = record s { tracker = tracker } in
      if matches
      then (
        next (some (injected_error input.schedule s.counters attempt)),
        emit input RuntimeEventKind.failure_injected (injection_payload attempt phase) attempt s',
      )
      else (next none, s')
