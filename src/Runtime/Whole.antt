-- ===== src/Runtime/Whole.antt =====
-- `execute_runtime_task` (runtime.py) as a whole: its `try` body and its handler end the run.
use agent_learning_loop.Base.{
  ℕ, ◌<◌, Bool, true, false, Option, none, some, arith, contains, ◌≡◌, ◌≢◌, refl, ◌>>=◌, Ends,
  Ends-bind, Ends-next, Ends-mono, Flow, next, stop, when, ◌==◌,
}
use agent_learning_loop.Schemas.{
  ErrorRecord, WorkspaceSnapshot, WorkspaceExpectedState, RuntimeState, state_eq, is_terminal,
}
use agent_learning_loop.Machine.{allowed_transitions}
use agent_learning_loop.Runtime.Session.{Host, RunInput, Call}
use agent_learning_loop.Runtime.Trace.{IsNumbered, IsNumbered-emit}
use agent_learning_loop.Runtime.Frame.{Frame, Leave, broke, thrown, terminal_for_error, transit}
use agent_learning_loop.Runtime.Run.{
  verify_after_error, conclude_verified, conclude, try_body, handle, guarded_run,
}
use agent_learning_loop.Runtime.Stages.{ErrorFits, Fits, Settled, Handled}
use agent_learning_loop.Runtime.Finish.{Verdict, Out, IsDone, IsFresh, prepare-Waits, loop-Settled}

-- The verifier, and the snapshot taken for it, raise no exception but those that the Runtime catches
-- where it calls them.
pub record IsQuiet (host : Host) : Type 0 where
  pub snapshot : (w : host.World) → (host.snapshot w).0 ≢ Call.raised
  pub verify :
      (initial final : WorkspaceSnapshot) (expected : WorkspaceExpectedState) (w : host.World)
      → (host.verify initial final expected w).0 ≢ Call.raised

module _ (host : Host) (input : RunInput) where
  abbrev Never : Leave → Frame host.World → Type 0
  Never _ _ = ⊥

  verify_after_error-Settled :
      (initial : Option WorkspaceSnapshot) (attempted : Bool) (e : Option ErrorRecord)
      (fr : Frame host.World)
      → IsQuiet host
      → Settled fr × (fr.error ≡ e)
      → Ends
          (λ _ fr'. Settled fr' × (fr'.error ≡ e))
          Never
          (verify_after_error host input initial attempted fr)
  unfolding verify_after_error Ends ◌>>=◌
  verify_after_error-Settled none attempted e fr q h = h
  verify_after_error-Settled (some initial) true e fr q h = h
  verify_after_error-Settled (some initial) false e fr q h = grind (arith, q.snapshot, q.verify)

  -- A terminal state that the table allows is entered.
  transit-IsDone :
      (s t : RuntimeState) (fr : Frame host.World)
      → IsNumbered 0 fr.session.events
      → fr.session.machine.state ≡ s
      → contains (allowed_transitions s) t ≡ true
      → is_terminal t ≡ true
      → Verdict fr.error fr.verifier_result.passed t
      → Ends (λ _ fr'. IsDone fr') Never (transit host input t fr)
  unfolding transit Ends
  transit-IsDone s t fr h e allowed terminal v = grind (arith, IsNumbered-emit)

  terminal_for_error-terminal : (e : ErrorRecord) → is_terminal (terminal_for_error e) ≡ true
  unfolding terminal_for_error
  terminal_for_error-terminal e = ground arith

  -- An error's terminal state is entered.
  terminal-IsDone :
      (e : ErrorRecord) (fr : Frame host.World)
      → Settled fr × (fr.error ≡ some e)
      → Ends (λ _ fr'. IsDone fr') Never (transit host input (terminal_for_error e) fr)
  unfolding ErrorFits
  terminal-IsDone e fr h =
      let fits : ErrorFits fr.session.machine.state e = rw h.1 at h.0.fits in
      transit-IsDone fr.session.machine.state (terminal_for_error e) fr h.0.numbered refl fits
        (terminal_for_error-terminal e) (rw h.1 refl)

  conclude_verified-IsDone :
      (fr : Frame host.World)
      → Settled fr
      → fr.session.machine.state ≡ RuntimeState.verifying
      → fr.error ≡ none
      → Ends (λ _ fr'. IsDone fr') Never (conclude_verified host input fr)
  unfolding conclude_verified terminal_for_error Ends ◌>>=◌
  conclude_verified-IsDone fr h v e = grind (arith, IsNumbered-emit)

  handle-IsDone :
      (fr : Frame host.World)
      → Handled fr
      → Ends (λ _ fr'. IsDone fr') Never (handle host input (stop thrown) fr)
  unfolding handle terminal_for_error Ends ◌>>=◌
  handle-IsDone fr h = grind (arith, IsNumbered-emit)

  conclude_when-IsDone :
      (b : Bool) (fr : Frame host.World)
      → b ≡ true
      → Settled fr
      → fr.session.machine.state ≡ RuntimeState.verifying
      → fr.error ≡ none
      → Ends (λ _ fr'. IsDone fr') Never (when b (conclude_verified host input) fr)
  conclude_when-IsDone true fr e h v n = conclude_verified-IsDone fr h v n
  conclude_when-IsDone false fr e h v n = absurd (cc e)

  is_verifying :
      (s : RuntimeState) → s ≡ RuntimeState.verifying → (s == RuntimeState.verifying) ≡ true
  is_verifying s e = rw e

  conclude-IsDone :
      (error : Option ErrorRecord) (fr : Frame host.World)
      → IsQuiet host
      → Settled fr
      → fr.error ≡ error
      → Ends (λ _ fr'. IsDone fr') Never (conclude host input error fr)
  unfolding conclude
  conclude-IsDone none fr q h e =
      let v : Fits fr.session.machine.state none = rw e at h.fits in
      Ends-bind (λ _ fr'. IsDone fr') Never _ _ _
        (Ends-next
          (λ b fr'.
            (b ≡ true)
            × Settled fr'
            × (fr'.session.machine.state ≡ RuntimeState.verifying)
            × (fr'.error ≡ none))
          Never (fr.session.machine.state == RuntimeState.verifying) fr
          (is_verifying fr.session.machine.state v, h, v, e))
        λ b fr' k. conclude_when-IsDone b fr' k.0 k.1 k.2 k.3
  conclude-IsDone (some x) fr q h e =
      Ends-bind _ _ _ _ _
        (Ends-next (λ _ fr'. Settled fr' × (fr'.error ≡ some x)) Never _ fr (h, e))
        λ initial fr₁ h₁. Ends-bind _ _ _ _ _ (Ends-next _ _ _ _ h₁) λ attempted fr₂ h₂.
          Ends-bind _ _ _ _ _ (verify_after_error-Settled initial attempted (some x) fr₂ q h₂)
            λ _ fr₃ h₃. terminal-IsDone x fr₃ h₃

  -- The `try` body ends the run, or raises where the handler can still go to FAILED.
  try_body-IsDone :
      (fuel : ℕ) (fr : Frame host.World)
      → IsQuiet host
      → IsFresh fr
      → input.config.max_steps < fuel
      → Ends (λ _ fr'. IsDone fr') Out (try_body host input fuel fr)
  unfolding try_body
  try_body-IsDone fuel fr q h lt = Ends-bind _ _ _ _ _ (prepare-Waits host input fr h) λ _ fr₁ h₁.
      Ends-bind _ _ _ _ _ (loop-Settled host input fuel 0 fr₁ (omega arith) (omega arith) h₁)
        λ _ fr₂ h₂.
          Ends-bind _ _ _ _ _
            (Ends-next (λ e fr'. Settled fr' × (fr'.error ≡ e)) Out fr₂.error fr₂ (h₂, refl))
            λ e fr₃ h₃.
              Ends-mono _ (conclude-IsDone e fr₃ q h₃.0 h₃.1) (λ _ fr' h'. h')
                (λ _ fr' h'. absurd h')

  handled-IsDone :
      (x : Flow Leave (Unit {0}) × Frame host.World)
      → Ends (λ _ fr'. IsDone fr') Out x
      → Ends (λ _ fr'. IsDone fr') Never (handle host input x.0 x.1)
  unfolding handle Ends
  handled-IsDone (next u, fr) h = h
  handled-IsDone (stop broke, fr) h = absurd h
  handled-IsDone (stop thrown, fr) h = unfold Ends in handle-IsDone fr h

-- A run ends in a terminal state, with its events numbered from 0 without a gap, whatever the model,
-- the environment and the tools answer: with fuel above the configured maximum of steps the loop is
-- left by its own means, and no exception leaves the handler. The verifier, and the snapshot taken
-- for it, are assumed to raise nothing but the exceptions that the call site catches.
pub guarded_run-IsDone :
    (host : Host) (input : RunInput) (fuel : ℕ) (fr : Frame host.World)
    → IsQuiet host
    → IsFresh fr
    → input.config.max_steps < fuel
    → Ends (λ _ fr'. IsDone fr') (λ _ _. ⊥) (guarded_run host input fuel fr)
unfolding guarded_run
guarded_run-IsDone host input fuel fr q h lt =
    handled-IsDone host input (try_body host input fuel fr)
      (try_body-IsDone host input fuel fr q h lt)
