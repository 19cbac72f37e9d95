-- ===== src/Runtime/Escape.antt =====
-- runtime.py: an exception that leaves `execute_runtime_task`, past its `except Exception`.
use agent_learning_loop.Base.{
  ℕ, zero, suc, ◌+◌, ◌≤◌, ◌==◌, string_eq, Stdlib, ◌-◌, is_some, Option, none, some, arith, ◌≡◌,
  refl, ◌>>=◌, true, false, Ends, Ends-bind, Ends-next, Flow, next, stop,
}
use agent_learning_loop.Schemas.{
  WorkspaceTaskFixture, ErrorRecord, Observation, WorkspaceSnapshot, WorkspaceExpectedState,
  RuntimeState, state_eq,
}
use agent_learning_loop.Runtime.Session.{Host, RunInput, Call}
use agent_learning_loop.Runtime.Frame.{Frame, Leave, broke, thrown, transit}
use agent_learning_loop.Runtime.Round.{begin_round}
use agent_learning_loop.Runtime.Act.{round}
use agent_learning_loop.Runtime.Run.{
  reset_environment, ready_unless_failed, prepare, after_round, while_ready, loop, conclude,
  try_body, handle, guarded_run,
}
use agent_learning_loop.Runtime.Task.{
  Arguments, Printer, TaskEnd, escaped, check_arguments, run_input, start_frame, after_try,
  execute_runtime_task,
}

-- The deadline is over once the environment has been reset in this world, and its snapshot taken.
abbrev pub ResetsTooLong : (host : Host) → RunInput → host.World → Type 0
ResetsTooLong host input w =
    let w₁ = (host.reset input.fixture.setup_files input.fixture.task.task_id w).1 in
    let w₂ = (host.snapshot w₁).1 in
    input.config.timeout_seconds ≤ (host.monotonic w₂).0 - input.start_time

-- An environment whose reset and snapshots are answered, and a verifier that raises an exception that
-- its call site does not catch.
pub record IsLoud (host : Host) (fixture : WorkspaceTaskFixture) : Type 0 where
  pub observation : Observation
  pub resets :
      (w : host.World)
      → (host.reset fixture.setup_files fixture.task.task_id w).0 ≡ Call.returned observation
  pub files : WorkspaceSnapshot
  pub snapshots : (w : host.World) → (host.snapshot w).0 ≡ Call.returned files
  pub raises :
      (initial final : WorkspaceSnapshot) (expected : WorkspaceExpectedState) (w : host.World)
      → (host.verify initial final expected w).0 ≡ Call.raised

module _ {W : Type 0} where
  record Plain (LateAt : W → Type 0) (state : RuntimeState) (fr : Frame W) : Type 0 where
    reached : fr.session.machine.state ≡ state
    fresh : fr.error ≡ none
    unverified : fr.verification_attempted ≡ false
    late : LateAt fr.session.world

  record InState (LateAt : W → Type 0) (o : Observation) (files : WorkspaceSnapshot)
      (state : RuntimeState) (fr : Frame W) : Type 0 where
    plain : Plain LateAt state fr
    initial : fr.initial ≡ some files
    observed : fr.observation ≡ some o

  -- still READY, with an error
  record Late (files : WorkspaceSnapshot) (fr : Frame W) : Type 0 where
    reached : fr.session.machine.state ≡ RuntimeState.ready
    failed : is_some fr.error ≡ true
    initial : fr.initial ≡ some files
    unverified : fr.verification_attempted ≡ false

  -- an exception in the state READY
  abbrev Raised : Leave → Frame W → Type 0
  Raised broke fr = ⊥
  Raised thrown fr = fr.session.machine.state ≡ RuntimeState.ready

  abbrev Broken : WorkspaceSnapshot → Leave → Frame W → Type 0
  Broken files broke fr = Late files fr
  Broken files thrown fr = ⊥

module _ (host : Host) (input : RunInput) (h : IsLoud host input.fixture) where
  abbrev Over : host.World → Type 0
  Over w = input.config.timeout_seconds ≤ (host.monotonic w).0 - input.start_time

  resetting-Plain :
      (fr : Frame host.World)
      → Plain (ResetsTooLong host input) RuntimeState.created fr
      → Ends
          (λ _ fr'. Plain (ResetsTooLong host input) RuntimeState.resetting fr')
          Raised
          (transit host input RuntimeState.resetting fr)
  unfolding transit Ends
  resetting-Plain fr p = ground arith

  reset_environment-InState :
      (fr : Frame host.World)
      → Plain (ResetsTooLong host input) RuntimeState.resetting fr
      → Ends
          (λ _ fr'. InState Over h.observation h.files RuntimeState.resetting fr')
          Raised
          (reset_environment host input fr)
  unfolding reset_environment Ends ◌>>=◌
  reset_environment-InState fr p = grind (arith, h.resets, h.snapshots)

  ready-InState :
      (error : Option ErrorRecord) (fr : Frame host.World)
      → InState Over h.observation h.files RuntimeState.resetting fr × (error ≡ none)
      → Ends
          (λ _ fr'. InState Over h.observation h.files RuntimeState.ready fr')
          Raised
          (ready_unless_failed host input error fr)
  unfolding ready_unless_failed transit Ends
  ready-InState error fr p = ground arith

  prepare-InState :
      (fr : Frame host.World)
      → Plain (ResetsTooLong host input) RuntimeState.created fr
      → Ends
          (λ _ fr'. InState Over h.observation h.files RuntimeState.ready fr')
          Raised
          (prepare host input fr)
  unfolding prepare
  prepare-InState fr p = Ends-bind _ _ _ _ _ (resetting-Plain fr p) λ _ fr₁ h₁.
      Ends-bind _ _ _ _ _ (reset_environment-InState fr₁ h₁) λ _ fr₂ h₂.
        Ends-bind (λ _ fr'. InState Over h.observation h.files RuntimeState.ready fr') Raised _ _ _
          (Ends-next
            (λ e fr'. InState Over h.observation h.files RuntimeState.resetting fr' × (e ≡ none))
            Raised fr₂.error fr₂ (h₂, h₂.plain.fresh))
          λ error fr₃ h₃. ready-InState error fr₃ h₃

  begin_round-Late :
      (fr : Frame host.World)
      → InState Over h.observation h.files RuntimeState.ready fr
      → Ends (λ _ _. ⊥) (Broken h.files) (begin_round host input fr)
  unfolding begin_round Ends ◌>>=◌
  begin_round-Late fr p = ground (arith, p.plain.late)

  round-Late :
      (o : Observation) (fr : Frame host.World)
      → InState Over h.observation h.files RuntimeState.ready fr
      → Ends (λ _ _. ⊥) (Broken h.files) (round host input o fr)
  unfolding round
  round-Late o fr p = Ends-bind _ _ _ _ _ (begin_round-Late fr p) λ _ fr' f. absurd f

  after_round-Late :
      (again : Frame host.World → Flow Leave (Unit {0}) × Frame host.World)
      (x : Flow Leave (Unit {0}) × Frame host.World)
      → Ends (λ _ _. ⊥) (Broken h.files) x
      → Ends (λ _ fr'. Late h.files fr') Raised (after_round host input again x)
  unfolding Ends
  after_round-Late again (next u, fr) r = absurd r
  after_round-Late again (stop broke, fr) r = r
  after_round-Late again (stop thrown, fr) r = absurd r

  while_ready-Late :
      (again : Frame host.World → Flow Leave (Unit {0}) × Frame host.World)
      (error : Option ErrorRecord) (o : Option Observation) (fr : Frame host.World)
      → (error ≡ none) × (o ≡ some h.observation)
      → InState Over h.observation h.files RuntimeState.ready fr
      → Ends (λ _ fr'. Late h.files fr') Raised (while_ready host input error o again fr)
  while_ready-Late again (some e) o fr q p = absurd (cc (q.0))
  while_ready-Late again none none fr q p = absurd (cc (q.1))
  while_ready-Late again none (some o) fr q p =
      after_round-Late again (round host input o fr) (round-Late o fr p)

  loop-Late :
      (fuel : ℕ) (fr : Frame host.World)
      → 1 ≤ fuel
      → InState Over h.observation h.files RuntimeState.ready fr
      → Ends (λ _ fr'. Late h.files fr') Raised (loop host input fuel fr)
  unfolding loop
  loop-Late zero fr l p = absurd (omega arith)
  loop-Late (suc fuel) fr l p =
      while_ready-Late (loop host input fuel) fr.error fr.observation fr (p.plain.fresh, p.observed)
        p

  conclude-Raised :
      (error : Option ErrorRecord) (fr : Frame host.World)
      → Late h.files fr × (fr.error ≡ error)
      → Ends (λ _ _. ⊥) Raised (conclude host input error fr)
  unfolding conclude Ends ◌>>=◌
  conclude-Raised none fr p = ground arith
  conclude-Raised (some e) fr p = grind (arith, h.snapshots, h.raises)

  handle-escapes :
      (x : Flow Leave (Unit {0}) × Frame host.World)
      → Ends (λ _ _. ⊥) Raised x
      → (handle host input x.0 x.1).0 ≡ stop thrown
  unfolding handle Ends ◌>>=◌
  handle-escapes (next u, fr) r = absurd r
  handle-escapes (stop broke, fr) r = absurd r
  handle-escapes (stop thrown, fr) r = ground arith

guarded_run_escapes :
    (host : Host) (input : RunInput) (fuel : ℕ) (fr : Frame host.World)
    → 1 ≤ fuel
    → IsLoud host input.fixture
    → ResetsTooLong host input fr.session.world
    → fr.session.machine.state ≡ RuntimeState.created
    → fr.error ≡ none
    → fr.verification_attempted ≡ false
    → (guarded_run host input fuel fr).0 ≡ stop thrown
unfolding guarded_run try_body
guarded_run_escapes host input fuel fr more h l c e u =
    handle-escapes host input h (try_body host input fuel fr) (
      Ends-bind _ _ _ _ _
        (prepare-InState host input h fr
          (record { reached = c; fresh = e; unverified = u; late = l }))
        λ _ fr₁ h₁. Ends-bind _ _ _ _ _ (loop-Late host input h fuel fr₁ more h₁) λ _ fr₂ h₂.
          Ends-bind (λ _ _. ⊥) Raised _ _ _
            (Ends-next (λ e fr'. Late h.files fr' × (fr'.error ≡ e)) Raised fr₂.error fr₂
              (h₂, refl))
            λ error fr₃ h₃. conclude-Raised host input h error fr₃ h₃)

-- No result: an exception left the run.
abbrev pub Escapes : {W : Type 0} → TaskEnd W → Type 0
Escapes (escaped _) = Unit
Escapes _ = ⊥

module _ (host : Host) (lib : Stdlib) (printer : Printer) (args : Arguments) where
  after_try-Escapes :
      (start_time : ℕ) (x : Flow Leave (Unit {0}) × Frame host.World)
      → x.0 ≡ stop thrown
      → Escapes (after_try host lib printer args start_time x)
  unfolding after_try
  after_try-Escapes start_time (next _, fr) e = absurd (cc e)
  after_try-Escapes start_time (stop _, fr) e = tt

  -- With arguments that pass the checks and a run id that is not empty, a run whose environment
  -- answers each reset and snapshot, whose time is over once the environment has been reset, and whose
  -- verifier raises an exception that is none of those caught where it is called, gives no result: an
  -- exception leaves it, since the handler asks for FAILED, which READY does not permit.
  pub execute_runtime_task-Escapes :
      (w : host.World)
      → IsLoud host args.fixture
      → (let (start_time, w') = host.monotonic w in
          ResetsTooLong host (run_input host lib printer args start_time) w')
      → check_arguments lib args ≡ none
      → (args.run_id == "") ≡ false
      → Escapes (execute_runtime_task host lib printer args w)
  unfolding execute_runtime_task start_frame
  execute_runtime_task-Escapes w loud late checked named =
      let (start_time, w') = host.monotonic w in
      let fr = start_frame host lib printer args start_time w' in
      let input = run_input host lib printer args start_time in
      rw (checked, named)
        (after_try-Escapes start_time (guarded_run host input (args.config.max_steps + 1) fr) (
          guarded_run_escapes host input (args.config.max_steps + 1) fr (omega arith) loud late refl
            refl refl))
