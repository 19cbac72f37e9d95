-- ===== src/Runtime/Finished.antt =====
-- What `execute_runtime_task` (runtime.py) promises of its result and of the files it writes.
use agent_learning_loop.Base.{
  ℕ, ◌+◌, true, false, ◌==◌, string_eq, none, arith, List, ◌≡◌, refl, Flow, next, stop, Stdlib,
  Ends,
}
use agent_learning_loop.Schemas.{is_terminal}
use agent_learning_loop.Runtime.Session.{Host, RuntimeEvent}
use agent_learning_loop.Runtime.Trace.{IsNumbered, IsNumbered-one, IsNumbered-emit}
use agent_learning_loop.Runtime.Frame.{Frame, Leave}
use agent_learning_loop.Runtime.Finish.{Verdict, IsDone, IsFresh}
use agent_learning_loop.Runtime.Whole.{IsQuiet, guarded_run-IsDone}
use agent_learning_loop.Runtime.Task.{
  Printer, Arguments, TaskEnd, refused, escaped, returned, check_arguments, write_outputs,
  run_input, start_frame, finish_task, after_try, execute_runtime_task,
}

module _ (host : Host) (lib : Stdlib) (printer : Printer) (args : Arguments) where
  -- A result in a terminal state that its error and its verdict call for, with the two files
  -- written from it and from a list of events numbered from 0.
  abbrev pub Finishes : TaskEnd host.World → Type 0
  Finishes (refused _) = ⊥
  Finishes (escaped _) = ⊥
  Finishes (returned result files _) =
      (events : List RuntimeEvent) × (files ≡ write_outputs printer events result)
      × IsNumbered 0 events
      × (is_terminal result.terminal_state ≡ true)
      × Verdict result.error result.verifier.passed result.terminal_state

  start_frame-IsFresh :
      (start_time : ℕ) (w : host.World) → IsFresh (start_frame host lib printer args start_time w)
  unfolding start_frame
  start_frame-IsFresh start_time w = record {
    numbered = IsNumbered-one _ refl;
    steps = refl;
    fresh = refl;
    created = refl;
  }

  finish_task-Finishes :
      (start_time : ℕ) (fr : Frame host.World)
      → IsDone fr
      → Finishes (finish_task host lib printer args start_time fr)
  unfolding finish_task
  finish_task-Finishes start_time fr h =
      (_, refl, IsNumbered-emit fr.session.events _ h.numbered refl, h.terminal, h.decided)

  after_try-Finishes :
      (start_time : ℕ) (x : Flow Leave (Unit {0}) × Frame host.World)
      → Ends (λ _ fr. IsDone fr) (λ _ _. ⊥) x
      → Finishes (after_try host lib printer args start_time x)
  unfolding after_try Ends
  after_try-Finishes start_time (next _, fr) h =
      finish_task-Finishes start_time _
        (record { numbered = h.numbered; terminal = h.terminal; decided = h.decided })
  after_try-Finishes start_time (stop _, fr) h = absurd h

  -- With arguments that pass the checks and a run id that is not empty, a run returns: its state is terminal, it is the state that
  -- the error calls for, or with no error SUCCEEDED exactly if the verifier passed and FAILED if
  -- not, and the files are written from the result and from events numbered from 0 without a gap.
  -- The verifier, and the snapshot taken for it, are assumed to raise nothing but the exceptions
  -- that are caught where they are called.
  pub execute_runtime_task-Finishes :
      (w : host.World)
      → IsQuiet host
      → check_arguments lib args ≡ none
      → (args.run_id == "") ≡ false
      → Finishes (execute_runtime_task host lib printer args w)
  unfolding execute_runtime_task
  execute_runtime_task-Finishes w quiet checked named =
      let (start_time, w') = host.monotonic w in
      rw (checked, named)
        (after_try-Finishes start_time _ (
          guarded_run-IsDone host (run_input host lib printer args start_time)
            (args.config.max_steps + 1) (start_frame host lib printer args start_time w') quiet
            (start_frame-IsFresh start_time w') (omega arith)))
