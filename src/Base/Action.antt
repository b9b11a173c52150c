-- ===== src/Base/Action.antt =====
-- A call of the program: it reads and changes a state, and returns, fails with an error text, or
-- panics. What was written before a failure stays written.
use lecoo_control_center.Base.Text.{Text}

pub data Outcome {ℓ} (A : Type ℓ) : Type ℓ where
  ok : A → Outcome A
  err : Text → Outcome A
  panicked : Outcome A

abbrev pub Action : Type 0 → Type 0 → Type 0
Action S A = S → Outcome A × S

module _ {S A : Type 0} where
  abbrev pub pure : A → Action S A
  pure a s = (ok a, s)

  abbrev pub fail : Text → Action S A
  fail e s = (err e, s)

  abbrev pub panic : Action S A
  panic s = (panicked, s)

  abbrev pub gets : (S → A) → Action S A
  gets f s = (ok (f s), s)

abbrev pub modify : {S : Type 0} → (S → S) → Action S (Unit {0})
modify f s = (ok tt, f s)

-- `?` on a result, and the rest of the function.
abbrev pub proceed : {S A B : Type 0} → Outcome A → (A → Action S B) → Action S B
proceed (ok a) f s = f a s
proceed (err e) f s = (err e, s)
proceed panicked f s = (panicked, s)

infixl 5 ◌>>=◌ ◌>>◌
abbrev pub ◌>>=◌ : {S A B : Type 0} → Action S A → (A → Action S B) → Action S B
◌>>=◌ m f s = proceed (m s).0 f (m s).1

abbrev pub ◌>>◌ : {S B : Type 0} → Action S (Unit {0}) → Action S B → Action S B
m >> k = m >>= λ _. k

-- The result as a value: the `match` on a `Result`. A panic still unwinds.
abbrev pub reify : {A : Type 0} → Outcome A → Outcome (Outcome A)
reify (ok a) = ok (ok a)
reify (err e) = ok (err e)
reify panicked = panicked

abbrev pub attempt : {S A : Type 0} → Action S A → Action S (Outcome A)
attempt m s = (reify (m s).0, (m s).1)

-- `let _ = …` on a `Result`: an error is dropped.
abbrev pub dropped : {A : Type 0} → Outcome A → Outcome (Unit {0})
dropped (ok a) = ok tt
dropped (err e) = ok tt
dropped panicked = panicked

abbrev pub ignore : {S A : Type 0} → Action S A → Action S (Unit {0})
ignore m s = (dropped (m s).0, (m s).1)
