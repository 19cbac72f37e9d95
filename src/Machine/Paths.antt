-- ===== src/Machine/Paths.antt =====
-- What the transition table of runtime_state.py allows over whole sequences of transitions.
use agent_learning_loop.Base.{
  Bool, true, false, ◌≡◌, refl, arith, List, [], ◌∷◌, Option, none, some, contains, beq_refl,
  Bool-cases, inl, inr,
}
use agent_learning_loop.Schemas.{RuntimeState, state_eq, is_terminal}
use agent_learning_loop.Machine.{RuntimeStateMachine, moved, transition, allowed_transitions}

-- The transitions of a list, in order; `none` when one of them raises.
unfoldable pub follow : RuntimeStateMachine → List RuntimeState → Option RuntimeStateMachine
follow m [] = some m
follow m (t ∷ ts) = elim (transition m t) [ moved m' _ _ ↦ follow m' ts | _ ↦ none ]

-- From a terminal state no transition is accepted, so the sequence is empty.
pub follow_terminal :
    (m m' : RuntimeStateMachine) (ts : List RuntimeState)
    → is_terminal m.state ≡ true
    → follow m ts ≡ some m'
    → ts ≡ []
unfolding follow transition
follow_terminal m m' [] h e = refl
follow_terminal m m' (t ∷ ts) h e = ground arith

-- An accepted sequence begins with a move that the table lists.
pub follow-cons :
    (m m' : RuntimeStateMachine) (t : RuntimeState) (ts : List RuntimeState)
    → follow m (t ∷ ts) ≡ some m'
    → (contains (allowed_transitions m.state) t ≡ true)
      × (follow (record { state = t }) ts ≡ some m')
unfolding follow transition
follow-cons m m' t ts e = ground arith

-- `gate` is the one state by which the states of `beyond` are entered from outside.
abbrev IsGate : RuntimeState → (RuntimeState → Bool) → Type 0
IsGate gate beyond =
    (s t : RuntimeState)
    → contains (allowed_transitions s) t ≡ true
    → beyond s ≡ false
    → beyond t ≡ true
    → t ≡ gate

-- A sequence that ends beyond a gate, and does not begin there, enters the gate.
follow_passes :
    (gate : RuntimeState) (beyond : RuntimeState → Bool) (m m' : RuntimeStateMachine)
    (ts : List RuntimeState)
    → IsGate gate beyond
    → follow m ts ≡ some m'
    → beyond m.state ≡ false
    → beyond m'.state ≡ true
    → contains ts gate ≡ true
unfolding follow
follow_passes gate beyond m m' [] only_by e before after = ground arith
follow_passes gate beyond m m' (t ∷ ts) only_by e before after =
    let (legal, rest) = follow-cons m m' t ts e in
    elim (Bool-cases (beyond t)) [
      | inl inside ↦ rw (only_by m.state t legal before inside) (rw (beq_refl gate) refl)
      | inr outside ↦
          ground (
            arith,
            follow_passes gate beyond (record { state = t }) m' ts only_by rest outside after,
          )
    ]

abbrev past_verifying : RuntimeState → Bool
past_verifying RuntimeState.verifying = true
past_verifying RuntimeState.succeeded = true
past_verifying _ = false

IsGate-verifying : IsGate RuntimeState.verifying past_verifying
IsGate-verifying s t h b a = grind arith

abbrev past_deciding : RuntimeState → Bool
past_deciding RuntimeState.deciding = true
past_deciding RuntimeState.validating_action = true
past_deciding RuntimeState.executing_tool = true
past_deciding RuntimeState.observing = true
past_deciding s = past_verifying s

IsGate-deciding : IsGate RuntimeState.deciding past_deciding
IsGate-deciding s t h b a = grind arith

abbrev past_ready : RuntimeState → Bool
past_ready RuntimeState.ready = true
past_ready s = past_deciding s

IsGate-ready : IsGate RuntimeState.ready past_ready
IsGate-ready s t h b a = grind arith

abbrev past_resetting : RuntimeState → Bool
past_resetting RuntimeState.resetting = true
past_resetting s = past_ready s

IsGate-resetting : IsGate RuntimeState.resetting past_resetting
IsGate-resetting s t h b a = grind arith

-- A sequence of accepted transitions from CREATED to SUCCEEDED enters RESETTING, READY, DECIDING
-- and VERIFYING.
pub succeeded_passes_every_stage :
    (ts : List RuntimeState) (m : RuntimeStateMachine)
    → follow (record { state = RuntimeState.created }) ts ≡ some m
    → m.state ≡ RuntimeState.succeeded
    → (contains ts RuntimeState.resetting ≡ true)
      × (contains ts RuntimeState.ready ≡ true)
      × (contains ts RuntimeState.deciding ≡ true)
      × (contains ts RuntimeState.verifying ≡ true)
succeeded_passes_every_stage ts m e s =
    let start : RuntimeStateMachine = record { state = RuntimeState.created } in
    (
      follow_passes RuntimeState.resetting past_resetting start m ts IsGate-resetting e refl (rw s),
      follow_passes RuntimeState.ready past_ready start m ts IsGate-ready e refl (rw s),
      follow_passes RuntimeState.deciding past_deciding start m ts IsGate-deciding e refl (rw s),
      follow_passes RuntimeState.verifying past_verifying start m ts IsGate-verifying e refl (rw s),
    )

-- A listed move is accepted.
listed_moves :
    (s t : RuntimeState)
    → contains (allowed_transitions s) t ≡ true
    → transition (record { state = s }) t ≡ moved (record { state = t }) s t
unfolding transition
listed_moves s t h = grind arith

-- A listed move before an accepted sequence.
pub follow-listed :
    (s t : RuntimeState) (ts : List RuntimeState) (m : RuntimeStateMachine)
    → contains (allowed_transitions s) t ≡ true
    → follow (record { state = t }) ts ≡ some m
    → follow (record { state = s }) (t ∷ ts) ≡ some m
unfolding follow
follow-listed s t ts m h f = rw (listed_moves s t h, follow) f
