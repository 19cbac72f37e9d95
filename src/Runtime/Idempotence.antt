-- ===== src/Runtime/Idempotence.antt =====
-- Idempotent replay in `_execute_tool_attempts` (runtime.py): the side effect of one tool call is
-- not repeated by its retries.
use agent_learning_loop.Base.{
  ℕ, zero, suc, ◌+◌, Bool, true, false, Option, none, some, arith, is_some, ◌≡◌, refl, ◌⊎◌, inl,
  inr, Bool-cases, Option-cases, String, ◌>>=◌, Ends, Ends-bind, Ends-next, Ends-state,
}
use agent_learning_loop.Schemas.{ErrorRecord, ToolResult, ToolStatus}
use agent_learning_loop.Schedules.{ToolMetadata, InjectionPhase}
use agent_learning_loop.Runtime.Store.{
  ToolInvocation, InMemoryIdempotencyStore, find_saved, save, find_saved-save,
}
use agent_learning_loop.Runtime.Session.{Host, RunInput, Session}
use agent_learning_loop.Runtime.Exits.{
  Exit, fail_attempt, past_deadline, check_deadline, check_call_budget,
}
use agent_learning_loop.Runtime.Attempts.{start_attempt, replay_saved, inject}
use agent_learning_loop.Runtime.Retry.{
  run_tool, account, count_side_effect, stop_if_late, settle, execute_once, inject_or_execute,
  retry_or_stop, attempt_once, attempts, execute_tool_attempts,
}

module _ (host : Host) (input : RunInput) (metadata : ToolMetadata) (invocation : ToolInvocation)
    (enabled : input.config.idempotency_enabled ≡ true) (before : ℕ) where
  -- The store answers this invocation with a result.
  record IsSaved (store : InMemoryIdempotencyStore) : Type 0 where
    found : is_some (find_saved invocation store).result ≡ true
    agrees : (find_saved invocation store).conflict ≡ false

  abbrev Unrepeated : Session host.World → Type 0
  Unrepeated s = s.counters.duplicate_side_effects ≡ before

  abbrev Left : Exit → Session host.World → Type 0
  Left _ s = Unrepeated s

  -- `successful` side effects have succeeded: none, or the store has the result.
  record Covered (successful : ℕ) (s : Session host.World) : Type 0 where
    unrepeated : Unrepeated s
    saved : (successful ≡ 0) ⊎ ((metadata.side_effecting ≡ true) × IsSaved s.store)

  check_deadline-Covered :
      (attempt k : ℕ) (detail : String) (s : Session host.World)
      → Covered k s
      → Ends
          (λ _ s'. Covered k s')
          Left
          (check_deadline host input metadata invocation attempt detail s)
  unfolding check_deadline Ends ◌>>=◌
  check_deadline-Covered attempt k detail s h = ground arith

  check_call_budget-Covered :
      (attempt k : ℕ) (detail : String) (s : Session host.World)
      → Covered k s
      → Ends
          (λ _ s'. Covered k s')
          Left
          (check_call_budget host input metadata invocation attempt detail s)
  unfolding check_call_budget Ends ◌>>=◌
  check_call_budget-Covered attempt k detail s h = ground arith

  start_attempt-Covered :
      (attempt k : ℕ) (s : Session host.World)
      → Covered k s
      → Ends (λ _ s'. Covered k s') Left (start_attempt host input metadata invocation attempt s)
  unfolding start_attempt Ends
  start_attempt-Covered attempt k s h = ground arith

  -- Past the lookup no side effect of this call has succeeded yet.
  replay_saved-zero :
      (attempt k : ℕ) (s : Session host.World)
      → Covered k s
      → Ends
          (λ _ s'. Unrepeated s' × (k ≡ 0))
          Left
          (replay_saved host input metadata invocation attempt s)
  unfolding replay_saved Ends ◌>>=◌
  replay_saved-zero attempt k s h = ground arith

  inject-zero :
      (attempt occurrence k : ℕ) (phase : InjectionPhase) (s : Session host.World)
      → Unrepeated s × (k ≡ 0)
      → Ends
          (λ _ s'. Unrepeated s' × (k ≡ 0))
          Left
          (inject host input metadata invocation attempt occurrence phase s)
  unfolding inject Ends ◌>>=◌
  inject-zero attempt occurrence k phase s h = ground arith

  count_side_effect-Covered :
      (result : ToolResult) (s : Session host.World)
      → metadata.side_effecting ≡ true
      → Unrepeated s
      → Ends
          (λ k s'. Covered k s')
          Left
          (count_side_effect host input metadata invocation result 0 s)
  unfolding count_side_effect Ends ◌>>=◌
  count_side_effect-Covered result s effect h =
      elim (Option-cases (save invocation result s.store)) [
        | inl refused ↦ ground arith
        | inr (store, kept) ↦ ground (arith, find_saved-save invocation result s.store store)
      ]

  run_tool-Unrepeated :
      (s : Session host.World)
      → Unrepeated s
      → Ends (λ _ s'. Unrepeated s') Left (run_tool host input metadata invocation s)
  unfolding run_tool Ends
  run_tool-Unrepeated s h = ground arith

  past_deadline-Unrepeated :
      (s : Session host.World)
      → Unrepeated s
      → Ends (λ _ s'. Unrepeated s') Left (past_deadline host input metadata invocation s)
  unfolding past_deadline Ends
  past_deadline-Unrepeated s h = ground arith

  account-Covered :
      (status : ToolStatus) (result : ToolResult) (k : ℕ) (s : Session host.World)
      → Unrepeated s × (k ≡ 0)
      → Ends
          (λ k' s'. Covered k' s')
          Left
          (account host input metadata invocation status result k s)
  unfolding account
  account-Covered ToolStatus.error result k s h =
      Ends-next _ _ _ _ (record { unrepeated = h.0; saved = inl h.1 })
  account-Covered ToolStatus.ok result k s h = rw h.1 (elim (Bool-cases metadata.side_effecting) [
    | inl effect ↦ simp effect (count_side_effect-Covered result s effect h.0)
    | inr free ↦ simp free (Ends-next _ _ _ _ (record { unrepeated = h.0; saved = inl refl }))
  ])

  stop_if_late-Covered :
      (late : Bool) (attempt k : ℕ) (s : Session host.World)
      → Covered k s
      → Ends
          (λ _ s'. Covered k s')
          Left
          (stop_if_late host input metadata invocation late attempt s)
  unfolding stop_if_late Ends ◌>>=◌
  stop_if_late-Covered late attempt k s h = ground arith

  settle-Covered :
      (status : ToolStatus) (result : ToolResult) (attempt occurrence k : ℕ)
      (s : Session host.World)
      → Covered k s
      → Ends
          (λ _ s'. Covered k s')
          Left
          (settle host input metadata invocation status result attempt occurrence s)
  unfolding settle Ends ◌>>=◌
  settle-Covered ToolStatus.error result attempt occurrence k s h = ground arith
  settle-Covered ToolStatus.ok result attempt occurrence k s h = ground arith

  execute_once-Covered :
      (attempt occurrence k : ℕ) (s : Session host.World)
      → Unrepeated s × (k ≡ 0)
      → Ends
          (λ r s'. Covered r.1 s')
          Left
          (execute_once host input metadata invocation attempt occurrence k s)
  unfolding execute_once
  execute_once-Covered attempt occurrence k s h =
      Ends-bind _ _ _ _ _ (run_tool-Unrepeated s h.0) λ result s₁ h₁.
        Ends-bind _ _ _ _ _ (past_deadline-Unrepeated s₁ h₁) λ late s₂ h₂.
          Ends-bind _ _ _ _ _ (account-Covered result.status result k s₂ (h₂, h.1)) λ k' s₃ h₃.
            Ends-bind _ _ _ _ _ (stop_if_late-Covered late attempt k' s₃ h₃) λ _ s₄ h₄.
              Ends-bind _ _ _ _ _ (settle-Covered result.status result attempt occurrence k' s₄ h₄)
                λ error s₅ h₅. Ends-next _ _ _ _ h₅

  retry_or_stop-Covered :
      (error : ErrorRecord) (attempt k : ℕ) (s : Session host.World)
      → Covered k s
      → Ends
          (λ _ s'. Covered k s')
          Left
          (retry_or_stop host input metadata invocation error attempt s)
  unfolding retry_or_stop Ends ◌>>=◌
  retry_or_stop-Covered error attempt k s h = ground arith

  inject_or_execute-Covered :
      (injected : Option ErrorRecord) (attempt occurrence k : ℕ) (s : Session host.World)
      → Unrepeated s × (k ≡ 0)
      → Ends
          (λ r s'. Covered r.1 s')
          Left
          (inject_or_execute host input metadata invocation injected attempt occurrence k s)
  unfolding inject_or_execute
  inject_or_execute-Covered none attempt occurrence k s h =
      execute_once-Covered attempt occurrence k s h
  inject_or_execute-Covered (some e) attempt occurrence k s h =
      Ends-next _ _ _ _ (record { unrepeated = h.0; saved = inl h.1 })

  attempt_once-Covered :
      (attempt k : ℕ) (s : Session host.World)
      → Covered k s
      → Ends (λ k' s'. Covered k' s') Left (attempt_once host input metadata invocation attempt k s)
  unfolding attempt_once
  attempt_once-Covered attempt k s h =
      Ends-bind _ _ _ _ _ (check_deadline-Covered attempt k _ s h) λ _ s₁ h₁.
        Ends-bind _ _ _ _ _ (check_call_budget-Covered attempt k _ s₁ h₁) λ _ s₂ h₂.
          Ends-bind _ _ _ _ _ (start_attempt-Covered attempt k s₂ h₂) λ occurrence s₃ h₃.
            Ends-bind _ _ _ _ _ (replay_saved-zero attempt k s₃ h₃) λ _ s₄ h₄.
              Ends-bind _ _ _ _ _ (inject-zero attempt occurrence k _ s₄ h₄) λ injected s₅ h₅.
                Ends-bind _ _ _ _ _ (inject_or_execute-Covered injected attempt occurrence k s₅ h₅)
                  λ r s₆ h₆.
                    Ends-bind _ _ _ _ _ (retry_or_stop-Covered r.0 attempt r.1 s₆ h₆)
                      λ _ s₇ h₇. Ends-next _ _ _ _ h₇

  attempts-Unrepeated :
      (rounds attempt k : ℕ) (s : Session host.World)
      → Covered k s
      → Ends
          (λ _ s'. Unrepeated s')
          Left
          (attempts host input metadata invocation rounds attempt k s)
  unfolding attempts
  attempts-Unrepeated zero attempt k s h = unfold Ends fail_attempt in h.unrepeated
  attempts-Unrepeated (suc rounds) attempt k s h =
      Ends-bind _ _ _ _ _ (attempt_once-Covered attempt k s h)
        λ k' s' h'. attempts-Unrepeated rounds (attempt + 1) k' s' h'

module _ (host : Host) (input : RunInput) (metadata : ToolMetadata)
    (invocation : ToolInvocation) where
  -- With the idempotency switch on, one tool call adds no duplicated side effect, whatever is
  -- injected, lost and retried, and however the call ends.
  pub execute_tool_attempts_once :
      (s : Session host.World)
      → input.config.idempotency_enabled ≡ true
      → (execute_tool_attempts host input metadata invocation s).1.counters.duplicate_side_effects
        ≡ s.counters.duplicate_side_effects
  unfolding execute_tool_attempts
  execute_tool_attempts_once s enabled =
      let before = s.counters.duplicate_side_effects in
      Ends-state (λ s'. s'.counters.duplicate_side_effects ≡ before) _
        (attempts-Unrepeated host input metadata invocation enabled before input.config.max_attempts
          1 0 s (record { unrepeated = refl; saved = inl refl }))
