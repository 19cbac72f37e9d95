-- ===== src/Runtime/Stages.antt =====
-- The states in which the statements of `execute_runtime_task` (runtime.py) run, up to the end of a
-- round that selects no action.
use agent_learning_loop.Base.{
  ℕ, ◌+◌, ◌<◌, true, Option, none, some, is_some, arith, contains, ◌≡◌, ◌⊎◌, ◌>>=◌, Ends, Ends-bind,
  Ends-next, Ends-stop,
}
use agent_learning_loop.Schemas.{
  ErrorRecord, ErrorPhase, Observation, WorkspaceSnapshot, RuntimeState, state_eq,
}
use agent_learning_loop.Machine.{allowed_transitions}
use agent_learning_loop.Runtime.Session.{Host, RunInput}
use agent_learning_loop.Runtime.Trace.{IsNumbered, IsNumbered-emit}
use agent_learning_loop.Runtime.Frame.{Frame, Leave, broke, thrown, terminal_for_error, transit}
use agent_learning_loop.Runtime.Round.{
  begin_round, decide, check_injections, finish_round, verify_run, timeout_unless_failed,
}

-- The state may go to the terminal state that an error chooses.
unfoldable pub ErrorFits : RuntimeState → ErrorRecord → Type 0
unfolding terminal_for_error
ErrorFits s e = contains (allowed_transitions s) (terminal_for_error e) ≡ true

-- What the end of the `try` body can conclude from: VERIFYING, or an error that fits the state.
abbrev pub Fits : RuntimeState → Option ErrorRecord → Type 0
Fits s none = s ≡ RuntimeState.verifying
Fits s (some e) = ErrorFits s e

-- Where the loop tests its condition.
abbrev pub Waiting : RuntimeState → Option ErrorRecord → Option Observation → Type 0
Waiting s none o = ((s ≡ RuntimeState.ready) ⊎ (s ≡ RuntimeState.observing)) × (is_some o ≡ true)
Waiting s (some e) o = ErrorFits s e

module _ {W : Type 0} where
  pub record Settled (fr : Frame W) : Type 0 where
    pub numbered : IsNumbered 0 fr.session.events
    pub fits : Fits fr.session.machine.state fr.error

  -- the handler can go to FAILED
  pub record Handled (fr : Frame W) : Type 0 where
    pub numbered : IsNumbered 0 fr.session.events
    pub handled : contains (allowed_transitions fr.session.machine.state) RuntimeState.failed ≡ true

  pub record Waits (n : ℕ) (fr : Frame W) : Type 0 where
    pub numbered : IsNumbered 0 fr.session.events
    pub steps : fr.session.counters.steps ≡ n
    pub waiting : Waiting fr.session.machine.state fr.error fr.observation

  -- no error yet, in one of two states
  pub record At (n : ℕ) (s t : RuntimeState) (fr : Frame W) : Type 0 where
    pub numbered : IsNumbered 0 fr.session.events
    pub steps : fr.session.counters.steps ≡ n
    pub fresh : fr.error ≡ none
    pub reached : (fr.session.machine.state ≡ s) ⊎ (fr.session.machine.state ≡ t)

  abbrev pub Left : Leave → Frame W → Type 0
  Left broke fr = Settled fr
  Left thrown fr = Handled fr

module _ (host : Host) (input : RunInput) (n : ℕ) where
  pub begin_round-At :
      (fr : Frame host.World)
      → At n RuntimeState.ready RuntimeState.observing fr
      → Ends
          (λ _ fr'.
            At (n + 1) RuntimeState.ready RuntimeState.observing fr' × (n < input.config.max_steps))
          Left
          (begin_round host input fr)
  unfolding begin_round Ends ◌>>=◌ ErrorFits
  begin_round-At fr h = ground arith

  pub deciding-At :
      (fr : Frame host.World)
      → At n RuntimeState.ready RuntimeState.observing fr
      → Ends
          (λ _ fr'. At n RuntimeState.deciding RuntimeState.deciding fr')
          Left
          (transit host input RuntimeState.deciding fr)
  unfolding transit Ends
  deciding-At fr h = grind (arith, IsNumbered-emit)

  pub decide-At :
      (o : Observation) (fr : Frame host.World)
      → At n RuntimeState.deciding RuntimeState.deciding fr
      → Ends
          (λ _ fr'. At n RuntimeState.deciding RuntimeState.deciding fr')
          Left
          (decide host input o fr)
  unfolding decide Ends ◌>>=◌ ErrorFits
  decide-At o fr h = ground arith

  -- the injected failure has been counted, or the loop is left
  counted-At :
      (injections : ℕ) (fr : Frame host.World)
      → At n RuntimeState.deciding RuntimeState.deciding fr
      → Ends
          (λ _ fr'. At n RuntimeState.deciding RuntimeState.deciding fr')
          Left
          (check_injections host input injections fr)
  unfolding check_injections Ends ◌>>=◌ ErrorFits
  counted-At injections fr h = ground arith

  verifying-At :
      (fr : Frame host.World)
      → At n RuntimeState.deciding RuntimeState.deciding fr
      → Ends
          (λ _ fr'. At n RuntimeState.verifying RuntimeState.verifying fr')
          Left
          (transit host input RuntimeState.verifying fr)
  unfolding transit Ends
  verifying-At fr h = grind (arith, IsNumbered-emit)

  verify_run-Settled :
      (initial : Option WorkspaceSnapshot) (fr : Frame host.World)
      → At n RuntimeState.verifying RuntimeState.verifying fr
      → Ends
          (λ _ fr'. Settled fr' × (fr'.session.machine.state ≡ RuntimeState.verifying))
          Left
          (verify_run host input initial fr)
  unfolding verify_run Ends ◌>>=◌ ErrorFits
  verify_run-Settled none fr h = ground arith
  verify_run-Settled (some initial) fr h = ground arith

  verifying_late-Settled :
      (error : Option ErrorRecord) (fr : Frame host.World)
      → Settled fr × (fr.session.machine.state ≡ RuntimeState.verifying)
      → Ends
          (λ _ fr'. Settled fr')
          Left
          (timeout_unless_failed host input error ErrorPhase.verifying 0 none
            "Runtime deadline was exhausted during verification" fr)
  unfolding timeout_unless_failed Ends ◌>>=◌ ErrorFits
  verifying_late-Settled none fr h = ground arith
  verifying_late-Settled (some e) fr h = h.0

  pub finish_round-Settled :
      (fr : Frame host.World)
      → At n RuntimeState.deciding RuntimeState.deciding fr
      → Ends (λ _ fr'. Waits n fr') Left (finish_round host input fr)
  unfolding finish_round
  finish_round-Settled fr h = Ends-bind _ _ _ _ _ (Ends-next _ _ _ _ h) λ injections fr₁ h₁.
      Ends-bind _ _ _ _ _ (counted-At injections fr₁ h₁) λ _ fr₂ h₂.
        Ends-bind _ _ _ _ _ (verifying-At fr₂ h₂) λ _ fr₃ h₃.
          Ends-bind _ _ _ _ _ (Ends-next _ _ _ _ h₃) λ initial fr₄ h₄.
            Ends-bind _ _ _ _ _ (verify_run-Settled initial fr₄ h₄) λ _ fr₅ h₅.
              Ends-bind _ _ _ _ _ (Ends-next _ _ _ _ h₅) λ error fr₆ h₆.
                Ends-bind _ _ _ _ _ (verifying_late-Settled error fr₆ h₆)
                  λ _ fr₇ h₇. Ends-stop _ _ _ _ h₇
