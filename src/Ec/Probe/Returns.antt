-- ===== src/Ec/Probe/Returns.antt =====
-- What holds of a value that a probing call returns.
use lecoo_control_center.Base.{ℕ, ◌≡◌, refl, Bool, inl, inr, Bool-cases}
use lecoo_control_center.Base.Action.{Action, Outcome, ok, err, panicked, proceed, reify, ◌>>=◌}
use lecoo_control_center.Ec.Probe.{on_answer, or_again}

-- A value, if there is one, has the property.
abbrev pub Returns : {A : Type 0} → (A → Type 0) → Outcome A → Type 0
Returns P (ok a) = P a
Returns P (err e) = Unit
Returns P panicked = Unit

module _ {S A : Type 0} (P : A → Type 0) where
  pub answer-Returns :
      (got : Outcome ℕ) (test : ℕ → Bool) (found later : Action S A) (s : S)
      → Returns P (found s).0
      → Returns P (later s).0
      → Returns P (proceed (reify got) (λ g. on_answer g test found later) s).0
  answer-Returns (ok v) test found later s f l = elim (Bool-cases (test v)) [
    | inl y ↦ rw y f
    | inr n ↦ rw n l
  ]
  answer-Returns (err e) test found later s f l = l
  answer-Returns panicked test found later s f l = tt

  pub again-Returns :
      (got : Outcome A) (again : Action S A) (s : S)
      → Returns P got
      → Returns P (again s).0
      → Returns P (proceed (reify got) (λ g. or_again g again) s).0
  again-Returns (ok a) again s g r = g
  again-Returns (err e) again s g r = r
  again-Returns panicked again s g r = tt

  proceed-Returns :
      {B : Type 0} (m : Outcome B) (f : B → Action S A) (s : S)
      → ((b : B) → m ≡ ok b → Returns P (f b s).0)
      → Returns P (proceed m f s).0
  proceed-Returns (ok b) f s k = k b refl
  proceed-Returns (err e) f s k = tt
  proceed-Returns panicked f s k = tt

  -- A bind returns what its second part does.
  pub bind-Returns :
      {B : Type 0} (m : Action S B) (f : B → Action S A) (s : S)
      → ((b : B) → (m s).0 ≡ ok b → Returns P (f b (m s).1).0)
      → Returns P ((m >>= f) s).0
  bind-Returns m f s k = proceed-Returns (m s).0 f (m s).1 k

-- What is known of a value that was returned.
pub Returns-ok :
    {A : Type 0} (P : A → Type 0) (m : Outcome A) {a : A} → Returns P m → m ≡ ok a → P a
Returns-ok P m r e = rw e at r
