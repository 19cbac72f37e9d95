-- ===== src/Runtime/Finish.antt =====
-- `execute_runtime_task` (runtime.py): the preparation of a run, and its loop.
use agent_learning_loop.Base.{
  ℕ, zero, suc, ◌+◌, ◌≤◌, ◌<◌, Bool, true, false, Option, none, some, is_some, arith, ◌≡◌, refl,
  ◌>>=◌, Ends, Ends-bind, Ends-next, Flow, next, stop,
}
use agent_learning_loop.Schemas.{ErrorRecord, Observation, RuntimeState, state_eq, is_terminal}
use agent_learning_loop.Runtime.Session.{Host, RunInput}
use agent_learning_loop.Runtime.Trace.{IsNumbered, IsNumbered-emit}
use agent_learning_loop.Runtime.Frame.{Frame, Leave, broke, thrown, terminal_for_error, transit}
use agent_learning_loop.Runtime.Act.{round}
use agent_learning_loop.Runtime.Run.{
  reset_environment, ready_unless_failed, prepare, after_round, while_ready, loop,
}
use agent_learning_loop.Runtime.Stages.{ErrorFits, Waiting, Settled, Handled, Waits, At, Left}
use agent_learning_loop.Runtime.Terminal.{round-Waits}

-- What decides the terminal state: the error, or with no error the verifier.
abbrev pub Verdict : Option ErrorRecord → Bool → RuntimeState → Type 0
Verdict none true s = s ≡ RuntimeState.succeeded
Verdict none false s = s ≡ RuntimeState.failed
Verdict (some e) passed s = s ≡ terminal_for_error e

module _ {W : Type 0} where
  -- A loop is left by its condition, by a `break`, or by an exception that the handler can take.
  abbrev pub Out : Leave → Frame W → Type 0
  Out broke fr = ⊥
  Out thrown fr = Handled fr

  -- A finished run: its terminal state is the one that its error and its verdict call for.
  pub record IsDone (fr : Frame W) : Type 0 where
    pub numbered : IsNumbered 0 fr.session.events
    pub terminal : is_terminal fr.session.machine.state ≡ true
    pub decided : Verdict fr.error fr.verifier_result.passed fr.session.machine.state

  -- before the run has done anything
  pub record IsFresh (fr : Frame W) : Type 0 where
    pub numbered : IsNumbered 0 fr.session.events
    pub steps : fr.session.counters.steps ≡ 0
    pub fresh : fr.error ≡ none
    pub created : fr.session.machine.state ≡ RuntimeState.created

module _ (host : Host) (input : RunInput) where
  abbrev most : ℕ
  most = input.config.max_steps

  after_round-Settled :
      (again : Frame host.World → Flow Leave (Unit {0}) × Frame host.World)
      (P : Frame host.World → Type 0) (x : Flow Leave (Unit {0}) × Frame host.World)
      → Ends (λ _ fr. P fr) Left x
      → ((fr : Frame host.World) → P fr → Ends (λ _ fr'. Settled fr') Out (again fr))
      → Ends (λ _ fr'. Settled fr') Out (after_round host input again x)
  unfolding Ends
  after_round-Settled again P (next u, fr) h k = k fr h
  after_round-Settled again P (stop broke, fr) h k = h
  after_round-Settled again P (stop thrown, fr) h k = h

  while_ready-Settled :
      (n : ℕ) (again : Frame host.World → Flow Leave (Unit {0}) × Frame host.World)
      (error : Option ErrorRecord) (o : Option Observation) (fr : Frame host.World)
      → fr.error ≡ error
      → fr.observation ≡ o
      → Waits n fr
      → ((fr' : Frame host.World)
          → Waits (n + 1) fr' × (n < most)
          → Ends (λ _ fr''. Settled fr'') Out (again fr'))
      → Ends (λ _ fr'. Settled fr') Out (while_ready host input error o again fr)
  while_ready-Settled n again none none fr e o h k =
      let w : Waiting fr.session.machine.state none none = rw (e, o) at h.waiting in cc (w.1)
  while_ready-Settled n again none (some x) fr e o h k =
      after_round-Settled again _ (round host input x fr)
        (round-Waits host input n x fr (record {
          numbered = h.numbered;
          steps = h.steps;
          fresh = e;
          reached =
              (let w : Waiting fr.session.machine.state none (some x) = rw (e, o) at h.waiting in
                w.0);
        }))
        k
  while_ready-Settled n again (some x) o fr e q h k =
      Ends-next _ _ _ _ (record { numbered = h.numbered; fits = rw e (rw e at h.waiting) })

  -- With fuel for every permitted step the loop is left by its condition, a `break` or an exception.
  pub loop-Settled :
      (fuel n : ℕ) (fr : Frame host.World)
      → n ≤ most
      → most < n + fuel
      → Waits n fr
      → Ends (λ _ fr'. Settled fr') Out (loop host input fuel fr)
  unfolding loop
  loop-Settled zero n fr le lt h = absurd (omega arith)
  loop-Settled (suc fuel) n fr le lt h =
      while_ready-Settled n (loop host input fuel) fr.error fr.observation fr refl refl h
        λ fr' h'. loop-Settled fuel (n + 1) fr' (omega (arith, h'.1)) (omega arith) h'.0

  resetting-At :
      (fr : Frame host.World)
      → IsFresh fr
      → Ends
          (λ _ fr'. At 0 RuntimeState.resetting RuntimeState.resetting fr')
          Out
          (transit host input RuntimeState.resetting fr)
  unfolding transit Ends
  resetting-At fr h = grind (arith, IsNumbered-emit)

  abbrev ResetGave : Option ErrorRecord → Option Observation → Type 0
  ResetGave none o = is_some o ≡ true
  ResetGave (some e) o = ErrorFits RuntimeState.resetting e

  record WasReset (fr : Frame host.World) : Type 0 where
    numbered : IsNumbered 0 fr.session.events
    steps : fr.session.counters.steps ≡ 0
    resetting : fr.session.machine.state ≡ RuntimeState.resetting
    gave : ResetGave fr.error fr.observation

  reset_environment-WasReset :
      (fr : Frame host.World)
      → At 0 RuntimeState.resetting RuntimeState.resetting fr
      → Ends (λ _ fr'. WasReset fr') Out (reset_environment host input fr)
  unfolding reset_environment Ends ◌>>=◌ ErrorFits
  reset_environment-WasReset fr h = ground arith

  ready-Waits :
      (fr : Frame host.World)
      → WasReset fr
      → fr.error ≡ none
      → Ends (λ _ fr'. Waits 0 fr') Out (transit host input RuntimeState.ready fr)
  unfolding transit Ends
  ready-Waits fr h e =
      let gave : ResetGave none fr.observation = rw e at h.gave in grind (arith, IsNumbered-emit)

  ready_unless_failed-Waits :
      (error : Option ErrorRecord) (fr : Frame host.World)
      → WasReset fr
      → fr.error ≡ error
      → Ends (λ _ fr'. Waits 0 fr') Out (ready_unless_failed host input error fr)
  unfolding ready_unless_failed
  ready_unless_failed-Waits none fr h e = ready-Waits fr h e
  ready_unless_failed-Waits (some x) fr h e = Ends-next _ _ _ _ (record {
    numbered = h.numbered;
    steps = h.steps;
    waiting = rw e (rw h.resetting (rw e at h.gave));
  })

  pub prepare-Waits :
      (fr : Frame host.World) → IsFresh fr → Ends (λ _ fr'. Waits 0 fr') Out (prepare host input fr)
  unfolding prepare
  prepare-Waits fr h = Ends-bind _ _ _ _ _ (resetting-At fr h) λ _ fr₁ h₁.
      Ends-bind _ _ _ _ _ (reset_environment-WasReset fr₁ h₁) λ _ fr₂ h₂.
        Ends-bind (λ _ fr'. Waits 0 fr') Out _ _ _
          (Ends-next (λ e fr'. WasReset fr' × (fr'.error ≡ e)) Out fr₂.error fr₂ (h₂, refl))
          λ error fr₃ h₃. ready_unless_failed-Waits error fr₃ h₃.0 h₃.1
