-- ===== src/Runtime/Terminal.antt =====
-- The loop of `execute_runtime_task` (runtime.py): every round ends in a state from which the run
-- can go on or conclude.
use agent_learning_loop.Base.{
  ℕ, ◌+◌, ◌<◌, Option, none, some, arith, ◌≡◌, refl, ◌>>=◌, Ends, Ends-bind, Ends-next, Ends-stop,
  Ends-mono,
}
use agent_learning_loop.Schemas.{
  ErrorRecord, ErrorPhase, ToolResult, ToolName, Action, Observation, RuntimeState, state_eq,
}
use agent_learning_loop.Schedules.{tool_metadata}
use agent_learning_loop.Runtime.Session.{Host, RunInput, Decision}
use agent_learning_loop.Runtime.Trace.{
  IsNumbered, IsNumbered-emit, execute_tool_attempts-IsAppended,
}
use agent_learning_loop.Runtime.Frame.{Frame, transit, break_with}
use agent_learning_loop.Runtime.Round.{timeout_unless_failed}
use agent_learning_loop.Runtime.Act.{
  call_tool, check_allowed, stop_on_error, look, observe_result, execute_action, act_on, round,
  make_invocation,
}
use agent_learning_loop.Runtime.Stages.{
  ErrorFits, Waits, At, Left, begin_round-At, deciding-At, decide-At, finish_round-Settled,
}

-- Every error fits the state in which a tool is executed.
executing-fits : (e : ErrorRecord) → ErrorFits RuntimeState.executing_tool e
unfolding ErrorFits
executing-fits e = ground arith

module _ (host : Host) (input : RunInput) (n : ℕ) where
  validating-At :
      (fr : Frame host.World)
      → At n RuntimeState.deciding RuntimeState.deciding fr
      → Ends
          (λ _ fr'. At n RuntimeState.validating_action RuntimeState.validating_action fr')
          Left
          (transit host input RuntimeState.validating_action fr)
  unfolding transit Ends
  validating-At fr h = grind (arith, IsNumbered-emit)

  executing-At :
      (fr : Frame host.World)
      → At n RuntimeState.validating_action RuntimeState.validating_action fr
      → Ends
          (λ _ fr'. At n RuntimeState.executing_tool RuntimeState.executing_tool fr')
          Left
          (transit host input RuntimeState.executing_tool fr)
  unfolding transit Ends
  executing-At fr h = grind (arith, IsNumbered-emit)

  allowed-At :
      (action : Action) (fr : Frame host.World)
      → At n RuntimeState.validating_action RuntimeState.validating_action fr
      → Ends
          (λ _ fr'. At n RuntimeState.validating_action RuntimeState.validating_action fr')
          Left
          (check_allowed host input action fr)
  unfolding check_allowed Ends ◌>>=◌ ErrorFits
  allowed-At action fr h = ground arith

  -- after the tool call: still EXECUTING_TOOL, with or without an error
  record Called (fr : Frame host.World) : Type 0 where
    numbered : IsNumbered 0 fr.session.events
    steps : fr.session.counters.steps ≡ n
    executing : fr.session.machine.state ≡ RuntimeState.executing_tool

  call_tool-Called :
      (action : Action) (fr : Frame host.World)
      → At n RuntimeState.executing_tool RuntimeState.executing_tool fr
      → Ends (λ _ fr'. Called fr') Left (call_tool host input action fr)
  unfolding call_tool Ends
  call_tool-Called action fr h =
      let a =
        execute_tool_attempts-IsAppended host input (tool_metadata action.tool_name)
          (make_invocation input action fr.session.counters.steps) fr.session h.numbered in
      ground (arith, a.machine, a.stepped, a.numbered)

  stop_on_error-Called :
      (error : Option ErrorRecord) (fr : Frame host.World)
      → Called fr × (fr.error ≡ error)
      → Ends (λ _ fr'. Called fr' × (fr'.error ≡ none)) Left (stop_on_error host input error fr)
  unfolding stop_on_error Ends
  stop_on_error-Called none fr h = h
  stop_on_error-Called (some e) fr h = record {
    numbered = h.0.numbered;
    fits = rw h.1 (rw h.0.executing (executing-fits e));
  }

  observing-At :
      (fr : Frame host.World)
      → Called fr × (fr.error ≡ none)
      → Ends
          (λ _ fr'. At n RuntimeState.observing RuntimeState.observing fr')
          Left
          (transit host input RuntimeState.observing fr)
  unfolding transit Ends
  observing-At fr h = grind (arith, IsNumbered-emit)

  look-Waits :
      (result : ToolResult) (tool : ToolName) (fr : Frame host.World)
      → At n RuntimeState.observing RuntimeState.observing fr
      → Ends
          (λ _ fr'. Waits n fr' × (fr'.session.machine.state ≡ RuntimeState.observing))
          Left
          (look host input result tool fr)
  unfolding look Ends ◌>>=◌ ErrorFits
  look-Waits result tool fr h = ground arith

  observing_late-Waits :
      (error : Option ErrorRecord) (attempt : ℕ) (tool : ToolName) (fr : Frame host.World)
      → Waits n fr × (fr.session.machine.state ≡ RuntimeState.observing)
      → Ends
          (λ _ fr'. Waits n fr')
          Left
          (timeout_unless_failed host input error ErrorPhase.observing attempt
            (some tool)
            "Runtime deadline was exhausted during observation"
            fr)
  unfolding timeout_unless_failed Ends ◌>>=◌ ErrorFits
  observing_late-Waits none attempt tool fr h = ground arith
  observing_late-Waits (some e) attempt tool fr h = h.0

  observe_result-Waits :
      (result : Option ToolResult) (tool : ToolName) (fr : Frame host.World)
      → Called fr × (fr.error ≡ none)
      → Ends (λ _ fr'. Waits n fr') Left (observe_result host input result tool fr)
  unfolding observe_result
  observe_result-Waits none tool fr h =
      Ends-stop _ _ _ _ (record { numbered = h.0.numbered; handled = rw h.0.executing })
  observe_result-Waits (some result) tool fr h = Ends-bind _ _ _ _ _ (observing-At fr h) λ _ fr₁ h₁.
      Ends-bind _ _ _ _ _ (look-Waits result tool fr₁ h₁) λ _ fr₂ h₂.
        Ends-bind _ _ _ _ _ (Ends-next _ _ _ _ h₂) λ error fr₃ h₃.
          Ends-bind _ _ _ _ _ (Ends-next _ _ _ _ h₃)
            λ attempt fr₄ h₄. observing_late-Waits error attempt tool fr₄ h₄

  execute_action-Waits :
      (action : Action) (fr : Frame host.World)
      → At n RuntimeState.validating_action RuntimeState.validating_action fr
      → Ends (λ _ fr'. Waits n fr') Left (execute_action host input action fr)
  unfolding execute_action
  execute_action-Waits action fr h = Ends-bind _ _ _ _ _ (allowed-At action fr h) λ _ fr₁ h₁.
      Ends-bind _ _ _ _ _ (executing-At fr₁ h₁) λ _ fr₂ h₂.
        Ends-bind _ _ _ _ _ (call_tool-Called action fr₂ h₂) λ result fr₃ h₃.
          Ends-bind (λ _ fr'. Waits n fr') Left _ _ _
            (Ends-next (λ e fr'. Called fr' × (fr'.error ≡ e)) Left fr₃.error fr₃ (h₃, refl))
            λ error fr₄ h₄.
              Ends-bind _ _ _ _ _ (stop_on_error-Called error fr₄ h₄)
                λ _ fr₅ h₅. observe_result-Waits result action.tool_name fr₅ h₅

  act_on-Waits :
      (decision : Decision) (fr : Frame host.World)
      → At n RuntimeState.deciding RuntimeState.deciding fr
      → Ends (λ _ fr'. Waits n fr') Left (act_on host input decision fr)
  unfolding act_on
  act_on-Waits Decision.no_action fr h = finish_round-Settled host input n fr h
  act_on-Waits Decision.invalid_action fr h =
      Ends-bind _ _ _ _ _ (validating-At fr h)
        λ _ fr₁ h₁. unfold ErrorFits Ends break_with ◌>>=◌ in ground arith
  act_on-Waits (Decision.chosen action) fr h =
      Ends-bind _ _ _ _ _ (validating-At fr h) λ _ fr₁ h₁. execute_action-Waits action fr₁ h₁

-- A round that goes on has made one more step, below the configured maximum.
pub round-Waits :
    (host : Host) (input : RunInput) (n : ℕ) (o : Observation) (fr : Frame host.World)
    → At n RuntimeState.ready RuntimeState.observing fr
    → Ends (λ _ fr'. Waits (n + 1) fr' × (n < input.config.max_steps)) Left (round host input o fr)
unfolding round
round-Waits host input n o fr h = Ends-bind _ _ _ _ _ (begin_round-At host input n fr h) λ _ fr₁ h₁.
    Ends-mono _
      (Ends-bind (λ _ fr'. Waits (n + 1) fr') Left _ _ _ (deciding-At host input (n + 1) fr₁ h₁.0)
        λ _ fr₂ h₂.
          Ends-bind _ _ _ _ _ (decide-At host input (n + 1) o fr₂ h₂)
            λ decision fr₃ h₃. act_on-Waits host input (n + 1) decision fr₃ h₃)
      (λ _ fr' h'. (h', h₁.1)) (λ _ fr' h'. h')
