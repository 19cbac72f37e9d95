-- ===== src/Runtime/Outcomes.antt =====
-- How `_execute_tool_attempts` (runtime.py) ends.
use agent_learning_loop.Base.{
  List, [], ◌∷◌, Bool, true, false, not, ◌&&◌, ltb, ◌-◌, length, get_elem?, is_some, ℕ, zero, suc,
  ◌+◌, ◌≤◌, ◌<◌, String, Option, none, some, arith, ◌≡◌, refl, ◌>>=◌, Ends, Ends-bind, Ends-next,
}
use agent_learning_loop.Schemas.{
  ErrorRecord, ErrorPhase, ToolResult, ToolStatus, RuntimeConfig, accepts_config,
}
use agent_learning_loop.Schedules.{ToolMetadata, InjectionPhase}
use agent_learning_loop.Runtime.Store.{ToolInvocation, save}
use agent_learning_loop.Runtime.Session.{Host, RunInput, Session}
use agent_learning_loop.Runtime.Exits.{
  Outcome, Exit, finished, escaped, broken, past_deadline, check_deadline, check_call_budget,
}
use agent_learning_loop.Runtime.Attempts.{start_attempt, replay_saved, inject}
use agent_learning_loop.Runtime.Retry.{
  run_tool, count_side_effect, account, lose_or_succeed, settle, stop_if_late, execute_once,
  inject_or_execute, retry_or_stop, attempt_once, attempts, execute_tool_attempts,
}

-- A result and no error, or no result and an error of the tool phase.
abbrev pub IsDecided : Option ToolResult → Option ErrorRecord → Type 0
IsDecided (some _) none = Unit
IsDecided none (some e) = e.phase ≡ ErrorPhase.executing_tool
IsDecided _ _ = ⊥

-- A decided outcome of an attempt that the configuration permits.
pub record IsProper (max_attempts : ℕ) (o : Outcome) : Type 0 where
  pub first : 1 ≤ o.attempt
  pub last : o.attempt ≤ max_attempts
  pub decided : IsDecided o.result o.error

abbrev pub EndsProperly : ℕ → Exit → Type 0
EndsProperly n (finished o) = IsProper n o
EndsProperly n escaped = Unit
EndsProperly n broken = ⊥

-- What the rest of the program gives a tool call: an accepted configuration, and a key for each
-- invocation whose result is to be saved.
pub record IsPrepared (config : RuntimeConfig) (metadata : ToolMetadata)
    (invocation : ToolInvocation) : Type 0 where
  pub accepted : accepts_config config ≡ true
  pub keyed :
      (config.idempotency_enabled
        && metadata.side_effecting
        && not (is_some invocation.idempotency_key))
      ≡ false

-- the backoff plan has a delay for every retry
accepts_config-plan :
    (c : RuntimeConfig)
    → accepts_config c ≡ true
    → (1 ≤ c.max_attempts)
      × ((c.retry_enabled && ltb (length c.retry_backoff_seconds) (c.max_attempts - 1)) ≡ false)
unfolding accepts_config
accepts_config-plan c h = ground (arith, h)

past_end : (xs : List ℕ) (i : ℕ) → get_elem? xs i ≡ none → length xs ≤ i
past_end [] i h = omega arith
past_end (x ∷ xs) zero h = cc h
past_end (x ∷ xs) (suc i) h = omega (arith, past_end xs i h)

module _ (host : Host) (input : RunInput) (metadata : ToolMetadata) (invocation : ToolInvocation)
    (p : IsPrepared input.config metadata invocation) where
  abbrev most : ℕ
  most = input.config.max_attempts

  abbrev Left : Exit → Session host.World → Type 0
  Left e _ = EndsProperly most e

  check_deadline-IsProper :
      (attempt : ℕ) (detail : String) (s : Session host.World)
      → 1 ≤ attempt
      → attempt ≤ most
      → Ends (λ _ _. Unit) Left (check_deadline host input metadata invocation attempt detail s)
  unfolding check_deadline Ends ◌>>=◌
  check_deadline-IsProper attempt detail s lo hi = ground arith

  check_call_budget-IsProper :
      (attempt : ℕ) (detail : String) (s : Session host.World)
      → 1 ≤ attempt
      → attempt ≤ most
      → Ends (λ _ _. Unit) Left (check_call_budget host input metadata invocation attempt detail s)
  unfolding check_call_budget Ends ◌>>=◌
  check_call_budget-IsProper attempt detail s lo hi = ground arith

  start_attempt-IsProper :
      (attempt : ℕ) (s : Session host.World)
      → Ends (λ _ _. Unit) Left (start_attempt host input metadata invocation attempt s)
  unfolding start_attempt Ends
  start_attempt-IsProper attempt s = tt

  replay_saved-IsProper :
      (attempt : ℕ) (s : Session host.World)
      → 1 ≤ attempt
      → attempt ≤ most
      → Ends (λ _ _. Unit) Left (replay_saved host input metadata invocation attempt s)
  unfolding replay_saved Ends ◌>>=◌
  replay_saved-IsProper attempt s lo hi = ground arith

  abbrev OfTool : Option ErrorRecord → Type 0
  OfTool none = Unit
  OfTool (some e) = e.phase ≡ ErrorPhase.executing_tool

  inject-IsProper :
      (attempt occurrence : ℕ) (phase : InjectionPhase) (s : Session host.World)
      → Ends
          (λ r _. OfTool r)
          Left
          (inject host input metadata invocation attempt occurrence phase s)
  unfolding inject Ends ◌>>=◌
  inject-IsProper attempt occurrence phase s = ground arith

  run_tool-IsProper :
      (s : Session host.World) → Ends (λ _ _. Unit) Left (run_tool host input metadata invocation s)
  unfolding run_tool Ends
  run_tool-IsProper s = ground arith

  past_deadline-IsProper :
      (s : Session host.World)
      → Ends (λ _ _. Unit) Left (past_deadline host input metadata invocation s)
  unfolding past_deadline Ends
  past_deadline-IsProper s = tt

  -- a result is saved under a key, so the store does not refuse it
  count_side_effect-IsProper :
      (result : ToolResult) (k : ℕ) (s : Session host.World)
      → metadata.side_effecting ≡ true
      → Ends (λ _ _. Unit) Left (count_side_effect host input metadata invocation result k s)
  unfolding count_side_effect save Ends ◌>>=◌
  count_side_effect-IsProper result k s e = ground (arith, e, p.keyed)

  account-IsProper :
      (status : ToolStatus) (result : ToolResult) (k : ℕ) (s : Session host.World)
      → Ends (λ _ _. Unit) Left (account host input metadata invocation status result k s)
  unfolding account Ends
  account-IsProper ToolStatus.error result k s = tt
  account-IsProper ToolStatus.ok result k s = ground (arith, count_side_effect-IsProper result k s)

  stop_if_late-IsProper :
      (late : Bool) (attempt : ℕ) (s : Session host.World)
      → 1 ≤ attempt
      → attempt ≤ most
      → Ends (λ _ _. Unit) Left (stop_if_late host input metadata invocation late attempt s)
  unfolding stop_if_late Ends ◌>>=◌
  stop_if_late-IsProper late attempt s lo hi = ground arith

  lose_or_succeed-IsProper :
      (lost : Option ErrorRecord) (result : ToolResult) (attempt : ℕ) (s : Session host.World)
      → 1 ≤ attempt
      → attempt ≤ most
      → OfTool lost
      → Ends
          (λ e _. e.phase ≡ ErrorPhase.executing_tool)
          Left
          (lose_or_succeed host input metadata invocation lost result attempt s)
  unfolding lose_or_succeed Ends ◌>>=◌
  lose_or_succeed-IsProper none result attempt s lo hi h = ground arith
  lose_or_succeed-IsProper (some e) result attempt s lo hi h = h

  settle-IsProper :
      (status : ToolStatus) (result : ToolResult) (attempt occurrence : ℕ) (s : Session host.World)
      → 1 ≤ attempt
      → attempt ≤ most
      → Ends
          (λ e _. e.phase ≡ ErrorPhase.executing_tool)
          Left
          (settle host input metadata invocation status result attempt occurrence s)
  unfolding settle
  settle-IsProper ToolStatus.error result attempt occurrence s lo hi = Ends-next _ _ _ _ refl
  settle-IsProper ToolStatus.ok result attempt occurrence s lo hi =
      Ends-bind _ _ _ _ _ (inject-IsProper attempt occurrence _ s)
        λ lost s' h. lose_or_succeed-IsProper lost result attempt s' lo hi h

  execute_once-IsProper :
      (attempt occurrence k : ℕ) (s : Session host.World)
      → 1 ≤ attempt
      → attempt ≤ most
      → Ends
          (λ r _. r.0.phase ≡ ErrorPhase.executing_tool)
          Left
          (execute_once host input metadata invocation attempt occurrence k s)
  unfolding execute_once
  execute_once-IsProper attempt occurrence k s lo hi =
      Ends-bind _ _ _ _ _ (run_tool-IsProper s) λ result s₁ h₁.
        Ends-bind _ _ _ _ _ (past_deadline-IsProper s₁) λ late s₂ h₂.
          Ends-bind _ _ _ _ _ (account-IsProper result.status result k s₂) λ k' s₃ h₃.
            Ends-bind _ _ _ _ _ (stop_if_late-IsProper late attempt s₃ lo hi) λ _ s₄ h₄.
              Ends-bind _ _ _ _ _ (settle-IsProper result.status result attempt occurrence s₄ lo hi)
                λ e s₅ h₅. Ends-next _ _ _ _ h₅

  inject_or_execute-IsProper :
      (injected : Option ErrorRecord) (attempt occurrence k : ℕ) (s : Session host.World)
      → 1 ≤ attempt
      → attempt ≤ most
      → OfTool injected
      → Ends
          (λ r _. r.0.phase ≡ ErrorPhase.executing_tool)
          Left
          (inject_or_execute host input metadata invocation injected attempt occurrence k s)
  unfolding inject_or_execute
  inject_or_execute-IsProper none attempt occurrence k s lo hi h =
      execute_once-IsProper attempt occurrence k s lo hi
  inject_or_execute-IsProper (some e) attempt occurrence k s lo hi h = Ends-next _ _ _ _ h

  -- A retry goes on only while another attempt is permitted.
  retry_or_stop-IsProper :
      (error : ErrorRecord) (attempt : ℕ) (s : Session host.World)
      → 1 ≤ attempt
      → attempt ≤ most
      → error.phase ≡ ErrorPhase.executing_tool
      → Ends
          (λ _ _. attempt < most)
          Left
          (retry_or_stop host input metadata invocation error attempt s)
  unfolding retry_or_stop Ends ◌>>=◌
  retry_or_stop-IsProper error attempt s lo hi h = ground (
    arith,
    accepts_config-plan input.config p.accepted,
    past_end input.config.retry_backoff_seconds (attempt - 1),
  )

  attempt_once-IsProper :
      (attempt k : ℕ) (s : Session host.World)
      → 1 ≤ attempt
      → attempt ≤ most
      → Ends (λ _ _. attempt < most) Left (attempt_once host input metadata invocation attempt k s)
  unfolding attempt_once
  attempt_once-IsProper attempt k s lo hi =
      Ends-bind _ _ _ _ _ (check_deadline-IsProper attempt _ s lo hi) λ _ s₁ h₁.
        Ends-bind _ _ _ _ _ (check_call_budget-IsProper attempt _ s₁ lo hi) λ _ s₂ h₂.
          Ends-bind _ _ _ _ _ (start_attempt-IsProper attempt s₂) λ occurrence s₃ h₃.
            Ends-bind _ _ _ _ _ (replay_saved-IsProper attempt s₃ lo hi) λ _ s₄ h₄.
              Ends-bind _ _ _ _ _ (inject-IsProper attempt occurrence _ s₄) λ injected s₅ h₅.
                Ends-bind _ _ _ _ _
                  (inject_or_execute-IsProper injected attempt occurrence k s₅ lo hi h₅)
                  λ r s₆ h₆.
                    Ends-bind _ _ _ _ _ (retry_or_stop-IsProper r.0 attempt s₆ lo hi h₆)
                      λ _ s₇ h₇. Ends-next _ _ _ _ h₇

  attempts-IsProper :
      (rounds attempt k : ℕ) (s : Session host.World)
      → 1 ≤ attempt
      → attempt ≤ most
      → rounds + attempt ≡ most + 1
      → Ends (λ _ _. ⊥) Left (attempts host input metadata invocation rounds attempt k s)
  unfolding attempts
  attempts-IsProper zero attempt k s lo hi e = absurd (omega arith)
  attempts-IsProper (suc rounds) attempt k s lo hi e =
      Ends-bind _ _ _ _ _ (attempt_once-IsProper attempt k s lo hi) λ k' s' more.
        attempts-IsProper rounds (attempt + 1) k' s' (omega arith) (omega arith) (omega arith)

  -- With a configuration that its validators accept, and a key where a result is to be saved, a tool
  -- call always ends: with a result and no error, or with no result and an error of the tool phase, in
  -- an attempt that the configuration permits; or by an exception of the tool. Neither the error after
  -- the loop nor an exception of the function's own code is reached.
  pub execute_tool_attempts-IsProper :
      (s : Session host.World)
      → Ends
          (λ _ _. ⊥)
          (λ e _. EndsProperly input.config.max_attempts e)
          (execute_tool_attempts host input metadata invocation s)
  unfolding execute_tool_attempts
  execute_tool_attempts-IsProper s =
      let h = accepts_config-plan input.config p.accepted in
      attempts-IsProper most 1 0 s (omega arith) h.0 (omega arith)
