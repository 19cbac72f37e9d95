-- ===== src/Runtime/Trace.antt =====
-- What `_execute_tool_attempts` (runtime.py) does to the run's event list and state machine.
use agent_learning_loop.Base.{
  ℕ, zero, suc, ◌+◌, String, Option, none, some, arith, List, [], ◌∷◌, ◌++◌, length, ◌≡◌, refl,
  ◌>>=◌, Ends, Ends-bind, Ends-next, Ends-state,
}
use agent_learning_loop.Schemas.{ErrorRecord}
use agent_learning_loop.Schedules.{ToolMetadata, InjectionPhase}
use agent_learning_loop.Runtime.Store.{ToolInvocation}
use agent_learning_loop.Runtime.Session.{Host, RunInput, Session, RuntimeEvent, RuntimeEventKind}
use agent_learning_loop.Runtime.Exits.{Exit, fail_attempt, check_deadline, check_call_budget}
use agent_learning_loop.Runtime.Attempts.{start_attempt, replay_saved, inject}
use agent_learning_loop.Runtime.Retry.{
  execute_once, inject_or_execute, retry_or_stop, attempt_once, attempts, execute_tool_attempts,
}

-- The events carry the numbers from `n` on, in order.
pub IsNumbered : ℕ → List RuntimeEvent → Type 0
IsNumbered n [] = Unit
IsNumbered n (e ∷ es) = (e.sequence ≡ n) × IsNumbered (suc n) es

pub IsNumbered-one : (e : RuntimeEvent) → e.sequence ≡ 0 → IsNumbered 0 (e ∷ [])
unfolding IsNumbered
IsNumbered-one e h = (h, tt)

pub IsNumbered-append :
    (n : ℕ) (es : List RuntimeEvent) (e : RuntimeEvent)
    → IsNumbered n es
    → e.sequence ≡ n + length es
    → IsNumbered n (es ++ e ∷ [])
unfolding IsNumbered
IsNumbered-append n [] e h q = (omega arith, tt)
IsNumbered-append n (x ∷ es) e h q = (h.0, IsNumbered-append (suc n) es e h.1 (omega arith))

-- The same at the end of a list that is numbered from zero.
pub IsNumbered-emit :
    (es : List RuntimeEvent) (e : RuntimeEvent)
    → IsNumbered 0 es
    → e.sequence ≡ length es
    → IsNumbered 0 (es ++ e ∷ [])
IsNumbered-emit es e h q = IsNumbered-append 0 es e h (omega arith)

-- The second list begins with the first.
pub Extends : List RuntimeEvent → List RuntimeEvent → Type 0
Extends [] es = Unit
Extends (x ∷ xs) [] = ⊥
Extends (x ∷ xs) (e ∷ es) = (x ≡ e) × Extends xs es

Extends-refl : (es : List RuntimeEvent) → Extends es es
unfolding Extends
Extends-refl [] = tt
Extends-refl (e ∷ es) = (refl, Extends-refl es)

Extends-append :
    (xs es : List RuntimeEvent) (e : RuntimeEvent) → Extends xs es → Extends xs (es ++ e ∷ [])
unfolding Extends
Extends-append [] es e h = tt
Extends-append (x ∷ xs) [] e h = absurd h
Extends-append (x ∷ xs) (y ∷ es) e h = (h.0, Extends-append xs es e h.1)

abbrev pub is_start : RuntimeEventKind → ℕ
is_start RuntimeEventKind.attempt_started = 1
is_start _ = 0

abbrev pub is_retry : RuntimeEventKind → ℕ
is_retry RuntimeEventKind.retry_scheduled = 1
is_retry _ = 0

abbrev pub is_hit : RuntimeEventKind → ℕ
is_hit RuntimeEventKind.idempotency_hit = 1
is_hit _ = 0

-- how many events are of a kind
pub tally : (RuntimeEventKind → ℕ) → List RuntimeEvent → ℕ
tally kind [] = 0
tally kind (e ∷ es) = kind e.event_kind + tally kind es

tally-append :
    (kind : RuntimeEventKind → ℕ) (es : List RuntimeEvent) (e : RuntimeEvent)
    → tally kind (es ++ e ∷ []) ≡ tally kind es + kind e.event_kind
unfolding tally
tally-append kind [] e = omega arith
tally-append kind (x ∷ es) e = omega (arith, tally-append kind es e)

-- What a tool call does to the events: those before it stay, and those that it appends carry on the
-- numbering, with one `attempt_started` for each tool call that is counted, one `retry_scheduled` for
-- each retry and one `idempotency_hit` for each hit.
pub record IsAppended {W : Type 0} (before after : Session W) : Type 0 where
  pub machine : after.machine ≡ before.machine
  pub stepped : after.counters.steps ≡ before.counters.steps
  pub numbered : IsNumbered 0 after.events
  pub extends : Extends before.events after.events
  pub starts :
      tally is_start after.events + before.counters.tool_calls
      ≡ tally is_start before.events + after.counters.tool_calls
  pub retries :
      tally is_retry after.events + before.counters.retries
      ≡ tally is_retry before.events + after.counters.retries
  pub hits :
      tally is_hit after.events + before.counters.idempotency_hits
      ≡ tally is_hit before.events + after.counters.idempotency_hits

module _ (host : Host) (input : RunInput) (metadata : ToolMetadata) (invocation : ToolInvocation)
    (s0 : Session host.World) where
  abbrev Left : Exit → Session host.World → Type 0
  Left _ s = IsAppended s0 s

  check_deadline-IsAppended :
      (attempt : ℕ) (detail : String) (s : Session host.World)
      → IsAppended s0 s
      → Ends
          (λ _ s'. IsAppended s0 s')
          Left
          (check_deadline host input metadata invocation attempt detail s)
  unfolding check_deadline Ends ◌>>=◌
  check_deadline-IsAppended attempt detail s h = ground arith

  check_call_budget-IsAppended :
      (attempt : ℕ) (detail : String) (s : Session host.World)
      → IsAppended s0 s
      → Ends
          (λ _ s'. IsAppended s0 s')
          Left
          (check_call_budget host input metadata invocation attempt detail s)
  unfolding check_call_budget Ends ◌>>=◌
  check_call_budget-IsAppended attempt detail s h = ground arith

  start_attempt-IsAppended :
      (attempt : ℕ) (s : Session host.World)
      → IsAppended s0 s
      → Ends
          (λ _ s'. IsAppended s0 s')
          Left
          (start_attempt host input metadata invocation attempt s)
  unfolding start_attempt Ends
  start_attempt-IsAppended attempt s h =
      grind (arith, IsNumbered-emit, Extends-append, tally-append)

  replay_saved-IsAppended :
      (attempt : ℕ) (s : Session host.World)
      → IsAppended s0 s
      → Ends (λ _ s'. IsAppended s0 s') Left (replay_saved host input metadata invocation attempt s)
  unfolding replay_saved Ends ◌>>=◌
  replay_saved-IsAppended attempt s h = grind (arith, IsNumbered-emit, Extends-append, tally-append)

  inject-IsAppended :
      (attempt occurrence : ℕ) (phase : InjectionPhase) (s : Session host.World)
      → IsAppended s0 s
      → Ends
          (λ _ s'. IsAppended s0 s')
          Left
          (inject host input metadata invocation attempt occurrence phase s)
  unfolding inject Ends ◌>>=◌
  inject-IsAppended attempt occurrence phase s h =
      grind (arith, IsNumbered-emit, Extends-append, tally-append)

  execute_once-IsAppended :
      (attempt occurrence k : ℕ) (s : Session host.World)
      → IsAppended s0 s
      → Ends
          (λ _ s'. IsAppended s0 s')
          Left
          (execute_once host input metadata invocation attempt occurrence k s)
  unfolding execute_once Ends ◌>>=◌
  execute_once-IsAppended attempt occurrence k s h =
      grind (arith, IsNumbered-emit, Extends-append, tally-append)

  retry_or_stop-IsAppended :
      (error : ErrorRecord) (attempt : ℕ) (s : Session host.World)
      → IsAppended s0 s
      → Ends
          (λ _ s'. IsAppended s0 s')
          Left
          (retry_or_stop host input metadata invocation error attempt s)
  unfolding retry_or_stop Ends ◌>>=◌
  retry_or_stop-IsAppended error attempt s h =
      grind (arith, IsNumbered-emit, Extends-append, tally-append)

  inject_or_execute-IsAppended :
      (injected : Option ErrorRecord) (attempt occurrence k : ℕ) (s : Session host.World)
      → IsAppended s0 s
      → Ends
          (λ _ s'. IsAppended s0 s')
          Left
          (inject_or_execute host input metadata invocation injected attempt occurrence k s)
  unfolding inject_or_execute
  inject_or_execute-IsAppended none attempt occurrence k s h =
      execute_once-IsAppended attempt occurrence k s h
  inject_or_execute-IsAppended (some e) attempt occurrence k s h = Ends-next _ _ _ _ h

  attempt_once-IsAppended :
      (attempt k : ℕ) (s : Session host.World)
      → IsAppended s0 s
      → Ends
          (λ _ s'. IsAppended s0 s')
          Left
          (attempt_once host input metadata invocation attempt k s)
  unfolding attempt_once
  attempt_once-IsAppended attempt k s h =
      Ends-bind _ _ _ _ _ (check_deadline-IsAppended attempt _ s h) λ _ s₁ h₁.
        Ends-bind _ _ _ _ _ (check_call_budget-IsAppended attempt _ s₁ h₁) λ _ s₂ h₂.
          Ends-bind _ _ _ _ _ (start_attempt-IsAppended attempt s₂ h₂) λ occurrence s₃ h₃.
            Ends-bind _ _ _ _ _ (replay_saved-IsAppended attempt s₃ h₃) λ _ s₄ h₄.
              Ends-bind _ _ _ _ _ (inject-IsAppended attempt occurrence _ s₄ h₄) λ injected s₅ h₅.
                Ends-bind _ _ _ _ _
                  (inject_or_execute-IsAppended injected attempt occurrence k s₅ h₅)
                  λ r s₆ h₆.
                    Ends-bind _ _ _ _ _ (retry_or_stop-IsAppended r.0 attempt s₆ h₆)
                      λ _ s₇ h₇. Ends-next _ _ _ _ h₇

  attempts-IsAppended :
      (rounds attempt k : ℕ) (s : Session host.World)
      → IsAppended s0 s
      → Ends
          (λ _ s'. IsAppended s0 s')
          Left
          (attempts host input metadata invocation rounds attempt k s)
  unfolding attempts
  attempts-IsAppended zero attempt k s h = unfold Ends fail_attempt in h
  attempts-IsAppended (suc rounds) attempt k s h =
      Ends-bind _ _ _ _ _ (attempt_once-IsAppended attempt k s h)
        λ k' s' h'. attempts-IsAppended rounds (attempt + 1) k' s' h'

-- Where the events so far are numbered from 0, one tool call leaves the state machine and the step
-- count where they were and keeps the events before it. The events that it appends carry on the
-- numbering; the `attempt_started`, `retry_scheduled` and `idempotency_hit` events among them are as
-- many as the tool calls, retries and idempotency hits that it adds to the counters.
pub execute_tool_attempts-IsAppended :
    (host : Host) (input : RunInput) (metadata : ToolMetadata) (invocation : ToolInvocation)
    (s : Session host.World)
    → IsNumbered 0 s.events
    → IsAppended s (execute_tool_attempts host input metadata invocation s).1
unfolding execute_tool_attempts
execute_tool_attempts-IsAppended host input metadata invocation s h =
    Ends-state (λ s'. IsAppended s s') _
      (attempts-IsAppended host input metadata invocation s input.config.max_attempts 1 0 s
        (record {
          machine = refl;
          stepped = refl;
          numbered = h;
          extends = Extends-refl s.events;
          starts = refl;
          retries = refl;
          hits = refl;
        }))
