-- ===== src/Schemas/States.antt =====
-- runtime_schemas.py: the states of the Runtime, and which of them are terminal.
use agent_learning_loop.Base.{
  ℕ, String, Bool, true, Eq, ◌≡◌, ◌↔◌, arith, List, [], ◌∷◌, nat_beq, contains,
}

pub data RuntimeState : Type 0 where
  created resetting ready deciding validating_action executing_tool observing verifying :
      RuntimeState
  succeeded failed rejected budget_exhausted timed_out : RuntimeState

abbrev state_tag : RuntimeState → ℕ
state_tag created = 0
state_tag resetting = 1
state_tag ready = 2
state_tag deciding = 3
state_tag validating_action = 4
state_tag executing_tool = 5
state_tag observing = 6
state_tag verifying = 7
state_tag succeeded = 8
state_tag failed = 9
state_tag rejected = 10
state_tag budget_exhausted = 11
state_tag timed_out = 12

abbrev pub state_beq : RuntimeState → RuntimeState → Bool
state_beq a b = nat_beq (state_tag a) (state_tag b)

pub state_beq_iff : (a b : RuntimeState) → (state_beq a b ≡ true) ↔ (a ≡ b)
state_beq_iff a b = ground arith

instance abbrev pub state_eq : Eq RuntimeState
state_eq = record { same = state_beq; same_iff = state_beq_iff }

-- `RuntimeState.value`
abbrev pub state_text : RuntimeState → String
state_text created = "CREATED"
state_text resetting = "RESETTING"
state_text ready = "READY"
state_text deciding = "DECIDING"
state_text validating_action = "VALIDATING_ACTION"
state_text executing_tool = "EXECUTING_TOOL"
state_text observing = "OBSERVING"
state_text verifying = "VERIFYING"
state_text succeeded = "SUCCEEDED"
state_text failed = "FAILED"
state_text rejected = "REJECTED"
state_text budget_exhausted = "BUDGET_EXHAUSTED"
state_text timed_out = "TIMED_OUT"

-- `TERMINAL_STATES`
abbrev pub terminal_states : List RuntimeState
terminal_states = succeeded ∷ failed ∷ rejected ∷ budget_exhausted ∷ timed_out ∷ []

abbrev pub is_terminal : RuntimeState → Bool
is_terminal s = contains terminal_states s
