-- ===== src/Base/Ends.antt =====
-- What holds after a call that returns: of its value, and of the state that it ends in.
use lecoo_control_center.Base.{◌≡◌, ◌≢◌, refl, Bool, true, false, if◌then◌else◌}
use lecoo_control_center.Base.Action.{
  Action, Outcome, ok, err, panicked, proceed, reify, attempt, ◌>>=◌,
}

-- What holds of a call that returns, of its value and of the state that it ends in.
abbrev pub Ends : {S A : Type 0} → (A → S → Type 0) → Outcome A × S → Type 0
Ends P (ok a, s) = P a s
Ends P (err e, s) = Unit
Ends P (panicked, s) = Unit

module _ {S A : Type 0} (P : A → S → Type 0) where
  pub bind-Ends :
      {B : Type 0} (m : Action S B) (f : B → Action S A) (s : S)
      → ((b : B) → (m s).0 ≡ ok b → Ends P (f b (m s).1))
      → Ends P ((m >>= f) s)
  bind-Ends {B} m f s k = split (m s).0 k
    where
      split :
          (o : Outcome B)
          → ((b : B) → o ≡ ok b → Ends P (f b (m s).1))
          → Ends P (proceed o f (m s).1)
      split (ok b) l = l b refl
      split (err e) l = tt
      split panicked l = tt

  pub Ends-ok : (r : Outcome A × S) {a : A} → Ends P r → r.0 ≡ ok a → P a r.1
  Ends-ok r {a} p e = rw e at p

-- The same of a call that does return.
abbrev pub Succeeds : {S A : Type 0} → (A → S → Type 0) → Outcome A × S → Type 0
Succeeds P (ok a, s) = P a s
Succeeds P (err e, s) = ⊥
Succeeds P (panicked, s) = ⊥

module _ {S A : Type 0} (P : A → S → Type 0) where
  pub bind-Succeeds :
      {B : Type 0} (m : Action S B) (f : B → Action S A) (s : S) (b : B)
      → (m s).0 ≡ ok b
      → Succeeds P (f b (m s).1)
      → Succeeds P ((m >>= f) s)
  bind-Succeeds m f s b e p = rw e p

  pub attempt-Succeeds :
      {B : Type 0} (m : Action S B) (f : Outcome B → Action S A) (s : S)
      → (m s).0 ≢ panicked
      → ((o : Outcome B) → o ≢ panicked → (m s).0 ≡ o → Succeeds P (f o (m s).1))
      → Succeeds P ((attempt m >>= f) s)
  attempt-Succeeds {B} m f s calm k = split (m s).0 calm k
    where
      split :
          (o : Outcome B)
          → (o ≢ panicked)
          → ((o' : Outcome B) → o' ≢ panicked → o ≡ o' → Succeeds P (f o' (m s).1))
          → Succeeds P (proceed (reify o) f (m s).1)
      split (ok b) c l = l (ok b) c refl
      split (err e) c l = l (err e) c refl
      split panicked c l = c refl

  pub if-Succeeds :
      (b : Bool) (m n : Action S A) (s : S)
      → (b ≡ true → Succeeds P (m s))
      → (b ≡ false → Succeeds P (n s))
      → Succeeds P ((if b then m else n) s)
  if-Succeeds true m n s k l = k refl
  if-Succeeds false m n s k l = l refl
