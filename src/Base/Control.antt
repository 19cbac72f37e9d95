-- ===== src/Base/Control.antt =====
-- Statements of a Python function body: they read and write a state, and may leave the function
-- early. What was written before leaving stays written.
use mathlib.Core.Path.{◌≡◌, refl}
use mathlib.Core.Bool.{Bool, true, false}
use agent_learning_loop.Base.Tests.{if◌then◌else◌}

-- `next` goes on with a value; `stop` leaves the body.
pub data Flow {ℓ} (E A : Type ℓ) : Type ℓ where
  next : A → Flow E A
  stop : E → Flow E A

abbrev pub Body {ℓ} : Type ℓ → Type ℓ → Type ℓ → Type ℓ
Body S E A = S → Flow E A × S

module _ {ℓ} {S E A : Type ℓ} where
  abbrev pub pure : A → Body S E A
  pure a s = (next a, s)

  abbrev pub leave : E → Body S E A
  leave e s = (stop e, s)

  abbrev pub gets : (S → A) → Body S E A
  gets f s = (next (f s), s)

module _ {ℓ} {S E A B : Type ℓ} where
  abbrev pub resume : Flow E A → (A → Body S E B) → Body S E B
  resume (next a) f s = f a s
  resume (stop e) f s = (stop e, s)

  infixl 5 ◌>>=◌ ◌>>◌
  unfoldable pub ◌>>=◌ : Body S E A → (A → Body S E B) → Body S E B
  ◌>>=◌ m f s = let (r, s') = m s in resume r f s'

  abbrev pub ◌>>◌ : Body S E A → Body S E B → Body S E B
  m >> n = m >>= λ _. n

module _ {S E : Type 0} where
  abbrev pub modify : (S → S) → Body S E (Unit {0})
  modify f s = (next tt, f s)

  -- `if b: ...` with no `else`
  abbrev pub when : Bool → Body S E (Unit {0}) → Body S E (Unit {0})
  when true m = m
  when false m = pure tt

module _ {ℓ} {S E A : Type ℓ} where
  -- `Q` holds of a body's value and state where it goes on, `R` where it leaves.
  unfoldable pub Ends : (A → S → Type ℓ) → (E → S → Type ℓ) → Flow E A × S → Type ℓ
  Ends Q R (next a, s) = Q a s
  Ends Q R (stop e, s) = R e s

  pub Ends-next :
      (Q : A → S → Type ℓ) (R : E → S → Type ℓ) (a : A) (s : S) → Q a s → Ends Q R (next a, s)
  unfolding Ends
  Ends-next Q R a s h = h

  pub Ends-stop :
      (Q : A → S → Type ℓ) (R : E → S → Type ℓ) (e : E) (s : S) → R e s → Ends Q R (stop e, s)
  unfolding Ends
  Ends-stop Q R e s h = h

  pub Ends-mono :
      {Q Q' : A → S → Type ℓ} {R R' : E → S → Type ℓ} (x : Flow E A × S)
      → Ends Q R x
      → ((a : A) (s : S) → Q a s → Q' a s)
      → ((e : E) (s : S) → R e s → R' e s)
      → Ends Q' R' x
  unfolding Ends
  Ends-mono (next a, s) h q r = q a s h
  Ends-mono (stop e, s) h q r = r e s h

  -- What holds of the state on both ways out.
  pub Ends-state : (P : S → Type ℓ) (x : Flow E A × S) → Ends (λ _ s. P s) (λ _ s. P s) x → P x.1
  unfolding Ends
  Ends-state P (next a, s) h = h
  Ends-state P (stop e, s) h = h

module _ {ℓ} {S E A B : Type ℓ} {Q : A → S → Type ℓ} (Q' : B → S → Type ℓ)
    (R : E → S → Type ℓ) where
  Ends-resume :
      (x : Flow E A × S) (f : A → Body S E B)
      → Ends Q R x
      → ((a : A) (s : S) → Q a s → Ends Q' R (f a s))
      → Ends Q' R (resume x.0 f x.1)
  unfolding Ends
  Ends-resume (next a, s) f h k = k a s h
  Ends-resume (stop e, s) f h k = h

  -- The rule for a sequence of two bodies.
  pub Ends-bind :
      (m : Body S E A) (f : A → Body S E B) (s : S)
      → Ends Q R (m s)
      → ((a : A) (s' : S) → Q a s' → Ends Q' R (f a s'))
      → Ends Q' R ((m >>= f) s)
  unfolding ◌>>=◌
  Ends-bind m f s h k = Ends-resume (m s) f h k

-- The rule for a conditional body.
pub Ends-if {ℓ} :
    {S E A : Type ℓ} (Q : A → S → Type ℓ) (R : E → S → Type ℓ) (b : Bool) (m n : Body S E A) (s : S)
    → (b ≡ true → Ends Q R (m s))
    → (b ≡ false → Ends Q R (n s))
    → Ends Q R ((if b then m else n) s)
Ends-if Q R true m n s on_true on_false = on_true refl
Ends-if Q R false m n s on_true on_false = on_false refl
