-- ===== src/Runtime/Bounds.antt =====
-- The counters of a run under `_execute_tool_attempts` (runtime.py).
use Prim.Native.Nat.{min}
use agent_learning_loop.Base.{
  ℕ, zero, suc, ◌+◌, ◌≤◌, ◌<◌, Option, none, some, arith, String, ◌>>=◌, Ends, Ends-bind, Ends-next,
  Ends-state,
}
use agent_learning_loop.Schemas.{ErrorRecord}
use agent_learning_loop.Schedules.{ToolMetadata, InjectionPhase}
use agent_learning_loop.Runtime.Store.{ToolInvocation}
use agent_learning_loop.Runtime.Session.{Host, RunInput, Session, Counters}
use agent_learning_loop.Runtime.Exits.{Exit, check_deadline, check_call_budget, fail_attempt}
use agent_learning_loop.Runtime.Attempts.{start_attempt, replay_saved, inject}
use agent_learning_loop.Runtime.Retry.{
  execute_once, inject_or_execute, retry_or_stop, attempt_once, attempts, execute_tool_attempts,
}

-- The budgets that hold whenever a tool call has ended, however it ended.
pub record IsBounded (limit : ℕ) (c : Counters) : Type 0 where
  pub calls : c.tool_calls ≤ limit
  pub spent : c.physical_executions + c.idempotency_hits ≤ c.tool_calls
  pub effects : c.side_effect_executions ≤ c.physical_executions
  pub duplicates : c.duplicate_side_effects ≤ c.retries

-- The same where an attempt begins, `successful` side effects having succeeded before.
record CanBegin (limit successful : ℕ) (c : Counters) : Type 0 where
  bounded : IsBounded limit c
  retried : c.duplicate_side_effects + min successful 1 ≤ c.retries

-- The same after `attempt_started`, with one call not yet spent.
record CanExecute (limit successful : ℕ) (c : Counters) : Type 0 where
  calls : c.tool_calls ≤ limit
  room : c.physical_executions + c.idempotency_hits < c.tool_calls
  effects : c.side_effect_executions ≤ c.physical_executions
  retried : c.duplicate_side_effects + min successful 1 ≤ c.retries

module _ (host : Host) (input : RunInput) (metadata : ToolMetadata)
    (invocation : ToolInvocation) where
  abbrev limit : ℕ
  limit = input.config.max_tool_calls

  abbrev Left : Exit → Session host.World → Type 0
  Left _ s = IsBounded limit s.counters

  check_deadline-CanBegin :
      (attempt k : ℕ) (detail : String) (s : Session host.World)
      → CanBegin limit k s.counters
      → Ends
          (λ _ s'. CanBegin limit k s'.counters)
          Left
          (check_deadline host input metadata invocation attempt detail s)
  unfolding check_deadline Ends ◌>>=◌
  check_deadline-CanBegin attempt k detail s h = ground arith

  check_call_budget-CanBegin :
      (attempt k : ℕ) (detail : String) (s : Session host.World)
      → CanBegin limit k s.counters
      → Ends
          (λ _ s'. CanBegin limit k s'.counters × (s'.counters.tool_calls < limit))
          Left
          (check_call_budget host input metadata invocation attempt detail s)
  unfolding check_call_budget Ends ◌>>=◌
  check_call_budget-CanBegin attempt k detail s h = ground arith

  start_attempt-CanExecute :
      (attempt k : ℕ) (s : Session host.World)
      → CanBegin limit k s.counters × (s.counters.tool_calls < limit)
      → Ends
          (λ _ s'. CanExecute limit k s'.counters)
          Left
          (start_attempt host input metadata invocation attempt s)
  unfolding start_attempt Ends
  start_attempt-CanExecute attempt k s h = ground arith

  replay_saved-CanExecute :
      (attempt k : ℕ) (s : Session host.World)
      → CanExecute limit k s.counters
      → Ends
          (λ _ s'. CanExecute limit k s'.counters)
          Left
          (replay_saved host input metadata invocation attempt s)
  unfolding replay_saved Ends ◌>>=◌
  replay_saved-CanExecute attempt k s h = ground arith

  inject-CanExecute :
      (attempt occurrence k : ℕ) (phase : InjectionPhase) (s : Session host.World)
      → CanExecute limit k s.counters
      → Ends
          (λ _ s'. CanExecute limit k s'.counters)
          Left
          (inject host input metadata invocation attempt occurrence phase s)
  unfolding inject Ends ◌>>=◌
  inject-CanExecute attempt occurrence k phase s h = ground arith

  execute_once-IsBounded :
      (attempt occurrence k : ℕ) (s : Session host.World)
      → CanExecute limit k s.counters
      → Ends
          (λ _ s'. IsBounded limit s'.counters)
          Left
          (execute_once host input metadata invocation attempt occurrence k s)
  unfolding execute_once Ends ◌>>=◌
  execute_once-IsBounded attempt occurrence k s h = ground arith

  inject_or_execute-IsBounded :
      (injected : Option ErrorRecord) (attempt occurrence k : ℕ) (s : Session host.World)
      → CanExecute limit k s.counters
      → Ends
          (λ _ s'. IsBounded limit s'.counters)
          Left
          (inject_or_execute host input metadata invocation injected attempt occurrence k s)
  unfolding inject_or_execute Ends
  inject_or_execute-IsBounded none attempt occurrence k s h =
      execute_once-IsBounded attempt occurrence k s h
  inject_or_execute-IsBounded (some e) attempt occurrence k s h = ground arith

  retry_or_stop-CanBegin :
      (error : ErrorRecord) (attempt k : ℕ) (s : Session host.World)
      → IsBounded limit s.counters
      → Ends
          (λ _ s'. CanBegin limit k s'.counters)
          Left
          (retry_or_stop host input metadata invocation error attempt s)
  unfolding retry_or_stop Ends ◌>>=◌
  retry_or_stop-CanBegin error attempt k s h = ground arith

  attempt_once-CanBegin :
      (attempt k : ℕ) (s : Session host.World)
      → CanBegin limit k s.counters
      → Ends
          (λ k' s'. CanBegin limit k' s'.counters)
          Left
          (attempt_once host input metadata invocation attempt k s)
  unfolding attempt_once
  attempt_once-CanBegin attempt k s h =
      Ends-bind _ _ _ _ _ (check_deadline-CanBegin attempt k _ s h) λ _ s₁ h₁.
        Ends-bind _ _ _ _ _ (check_call_budget-CanBegin attempt k _ s₁ h₁) λ _ s₂ h₂.
          Ends-bind _ _ _ _ _ (start_attempt-CanExecute attempt k s₂ h₂) λ occurrence s₃ h₃.
            Ends-bind _ _ _ _ _ (replay_saved-CanExecute attempt k s₃ h₃) λ _ s₄ h₄.
              Ends-bind _ _ _ _ _ (inject-CanExecute attempt occurrence k _ s₄ h₄) λ injected s₅ h₅.
                Ends-bind _ _ _ _ _
                  (inject_or_execute-IsBounded injected attempt occurrence k s₅ h₅)
                  λ r s₆ h₆.
                    Ends-bind _ _ _ _ _ (retry_or_stop-CanBegin r.0 attempt r.1 s₆ h₆)
                      λ _ s₇ h₇. Ends-next _ _ _ _ h₇

  attempts-IsBounded :
      (rounds attempt k : ℕ) (s : Session host.World)
      → CanBegin limit k s.counters
      → Ends
          (λ _ s'. IsBounded limit s'.counters)
          Left
          (attempts host input metadata invocation rounds attempt k s)
  unfolding attempts
  attempts-IsBounded zero attempt k s h = unfold Ends fail_attempt in h.bounded
  attempts-IsBounded (suc rounds) attempt k s h =
      Ends-bind _ _ _ _ _ (attempt_once-CanBegin attempt k s h)
        λ k' s' h'. attempts-IsBounded rounds (attempt + 1) k' s' h'

  -- One tool call, however it ends, keeps the budgets: no more calls than configured, no more
  -- executions and idempotency hits than calls, no more side effects than executions, and no more
  -- duplicated side effects than retries.
  pub execute_tool_attempts-IsBounded :
      (s : Session host.World)
      → IsBounded limit s.counters
      → IsBounded limit (execute_tool_attempts host input metadata invocation s).1.counters
  unfolding execute_tool_attempts
  execute_tool_attempts-IsBounded s h =
      Ends-state (λ s'. IsBounded limit s'.counters) _
        (attempts-IsBounded input.config.max_attempts 1 0 s
          (record { bounded = h; retried = omega (arith, h.duplicates) }))
