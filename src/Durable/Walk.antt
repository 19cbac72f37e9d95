-- ===== src/Durable/Walk.antt =====
-- event_replay.py: the loop over the state events of a journal.
use mathlib.Core.Path.{subst}
use agent_learning_loop.Base.{
  String, Bool, true, false, not, ◌||◌, Option, none, some, List, [], ◌∷◌, contains, ◌==◌, ◌!=◌,
  nat_eq, if◌then◌else◌, Bool-cases, ◌≡◌, inl, inr, refl, sym, arith,
}
use agent_learning_loop.Schemas.{RuntimeState, state_eq}
use agent_learning_loop.Machine.{RuntimeStateMachine, allowed_transitions}
use agent_learning_loop.Machine.Paths.{follow, follow-listed}
use agent_learning_loop.Durable.Events.{DurableEventKind, event_kind_eq, DurableEvent}
use agent_learning_loop.Durable.Trajectory.{
  Trial, refused, passed, and_then, refuse_if, parse_state, move, next_state, walk,
}

-- The states that the state events of a journal move to.
abbrev pub push_state : Option RuntimeState → List RuntimeState → List RuntimeState
push_state none ss = ss
push_state (some s) ss = s ∷ ss

unfoldable pub targets : List DurableEvent → List RuntimeState
targets [] = []
targets (r ∷ rs) =
    let rest = targets rs in
    if r.event_kind == DurableEventKind.runtime_state_changed
    then push_state (parse_state r.payload.to_state) rest
    else rest

-- A state event that is accepted names a move that the table lists.
listed :
    (s s' source target : RuntimeState)
    → move s (some source) (some target) ≡ passed s'
    → (contains (allowed_transitions s) target ≡ true) × (target ≡ s')
listed s s' source target h =
    elim (Bool-cases (source != s || not (contains (allowed_transitions s) target))) [
      | inl wrong ↦ absurd (ground (arith, wrong, h))
      | inr right ↦ (ground (arith, right), ground (arith, right, h))
    ]

follow-move :
    (s s' : RuntimeState) (source target : Option RuntimeState) (ss : List RuntimeState)
    (m : RuntimeStateMachine)
    → move s source target ≡ passed s'
    → follow (record { state = s' }) ss ≡ some m
    → follow (record { state = s }) (push_state target ss) ≡ some m
follow-move s s' none target ss m h f = cc
follow-move s s' (some a) none ss m h f = cc
follow-move s s' (some a) (some b) ss m h f =
    let (legal, same) = listed s s' a b h in follow-listed s b ss m legal (rw same f)

follow-next_state :
    (s s' : RuntimeState) (r : DurableEvent) (ss : List RuntimeState) (m : RuntimeStateMachine)
    → next_state s r ≡ passed s'
    → follow (record { state = s' }) ss ≡ some m
    → follow
        (record { state = s })
        (if r.event_kind == DurableEventKind.runtime_state_changed
          then push_state (parse_state r.payload.to_state) ss
          else ss)
      ≡ some m
follow-next_state s s' r ss m h f =
    elim (Bool-cases (r.event_kind == DurableEventKind.runtime_state_changed)) [
      | inl changed ↦ simp changed (
          follow-move s s' (parse_state r.payload.from_state) (parse_state r.payload.to_state) ss m
            (ground (arith, changed, h)) f)
      | inr other ↦
          let same : s ≡ s' = ground (arith, other, h) in
          simp other
            (subst (λ (x : RuntimeState). follow (record { state = x }) ss ≡ some m) (sym same) f)
    ]

-- What stands behind a value of a sequence of two trials.
pub and_then-passed {ℓ} :
    {A B : Type ℓ} (t : Trial A) (f : A → Trial B) (b : B)
    → and_then t f ≡ passed b
    → (a : A) × (t ≡ passed a) × (f a ≡ passed b)
unfolding and_then
and_then-passed (refused message) f b h = cc
and_then-passed (passed a) f b h = (a, refl, h)

pub refuse_if-passed {ℓ} :
    {A : Type ℓ} (test : Bool) (message : String) (rest : Trial A) (a : A)
    → refuse_if test message rest ≡ passed a
    → (test ≡ false) × (rest ≡ passed a)
unfolding refuse_if
refuse_if-passed true message rest a h = cc
refuse_if-passed false message rest a h = (refl, h)

-- The walk over the state events is a sequence of transitions of the Runtime's state machine.
pub walk-follow :
    (s s' : RuntimeState) (rs : List DurableEvent)
    → walk s rs ≡ passed s'
    → follow (record { state = s }) (targets rs) ≡ some (record { state = s' })
unfolding walk targets follow
walk-follow s s' [] h = cc
walk-follow s s' (r ∷ rs) h =
    let (t, moved_to, rest) = and_then-passed (next_state s r) (λ t. walk t rs) s' h in
    follow-next_state s t r (targets rs) (record { state = s' }) moved_to (walk-follow t s' rs rest)
