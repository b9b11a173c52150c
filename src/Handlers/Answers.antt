-- ===== src/Handlers/Answers.antt =====
-- When an answer tells of success, and what a call that gives it has stored.
use lecoo_control_center.Base.{◌≡◌, refl, ◌∙◌, subst, Bool, true, false, Option, none, some, arith}
use lecoo_control_center.Base.Action.{
  Action, Outcome, ok, err, panicked, pure, proceed, reify, modify, ◌>>=◌, ◌>>◌,
}
use lecoo_control_center.State.{Daemon}
use lecoo_control_center.Ec.Frame.{Keeps}
use lecoo_control_center.Ipc.Settings.{CurrentSettings}
use lecoo_control_center.Ipc.Message.{IpcResponse}
use lecoo_control_center.Handlers.Settings.{get_state, put_state, initialised}
use lecoo_control_center.Handlers.Requests.{response_of}
use lecoo_control_center.Handlers.Stored.{stored, guarded}

abbrev pub succeeded : Outcome IpcResponse → Bool
succeeded (ok IpcResponse.success) = true
succeeded _ = false

-- The settings `before` were there, and `f` of them is stored.
abbrev pub Applied :
    (CurrentSettings → CurrentSettings) → Option CurrentSettings → Option CurrentSettings → Type 0
Applied f before after = (st : CurrentSettings) × (before ≡ some st) × (after ≡ some (f st))

-- An action that never answers with success.
pub record Quiet {W : Type 0} (m : Action (Daemon W) IpcResponse) : Type 0 where
  pub never : (s : Daemon W) → succeeded (m s).0 ≡ false

module _ {W : Type 0} where
  abbrev pub Done :
      (CurrentSettings → CurrentSettings)
      → Option CurrentSettings
      → Outcome IpcResponse × Daemon W
      → Type 0
  Done f before r = succeeded r.0 ≡ true → Applied f before r.1.statics.settings

  pub bind-Quiet :
      {A : Type 0} (m : Action (Daemon W) A) (n : A → Action (Daemon W) IpcResponse)
      → ((a : A) → Quiet (n a))
      → Quiet (m >>= n)
  bind-Quiet {A = A} m n q = record { never = λ s. split (m s).0 (m s).1 }
    where
      split : (o : Outcome A) (t : Daemon W) → succeeded (proceed o n t).0 ≡ false
      split (ok a) t = (q a).never t
      split (err e) t = refl
      split panicked t = refl

  pub pure-Quiet : (a : IpcResponse) → succeeded (ok a) ≡ false → Quiet (pure {S = Daemon W} a)
  pure-Quiet a e = record { never = λ s. e }

  pub quiet :
      (f : CurrentSettings → CurrentSettings) (m : Action (Daemon W) IpcResponse) (s : Daemon W)
      → Quiet m
      → Done f s.statics.settings (m s)
  quiet f m s q e = no_success (succeeded (m s).0) (q.never s) e
    where
      no_success : (b : Bool) {P : Type 0} → b ≡ false → b ≡ true → P
      no_success b x y = ground arith

  -- `let mut state = get_state()?; *state = f(state); rest`
  pub guarded-Done :
      (f : CurrentSettings → CurrentSettings)
      (rest : CurrentSettings → Action (Daemon W) IpcResponse) (s : Daemon W)
      → ((st : CurrentSettings) → Keeps stored (rest st))
      → Done f s.statics.settings (guarded f rest s)
  unfolding get_state put_state
  guarded-Done f rest s k = split s.statics.settings s.statics.state_locked refl
    where
      split :
          (o : Option CurrentSettings) (b : Bool)
          → s.statics.settings ≡ o
          → Done f s.statics.settings (
              proceed
                (initialised o b s).0
                (λ st.
                  modify (λ (t : Daemon W). record t {
                    statics = record (t.statics) { settings = some (f st) };
                  })
                  >> rest st)
                (initialised o b s).1)
      split none b e = λ x. ground arith
      split (some st) true e = λ x. ground arith
      split (some st) false e = λ x. (st, e, (k st).same _)

  -- `let state = get_state()?; rest`, which leaves the settings alone.
  pub read-Done :
      (rest : CurrentSettings → Action (Daemon W) IpcResponse) (s : Daemon W)
      → ((st : CurrentSettings) → Keeps stored (rest st))
      → Done (λ st. st) s.statics.settings ((get_state >>= rest) s)
  unfolding get_state
  read-Done rest s k = split s.statics.settings s.statics.state_locked refl
    where
      split :
          (o : Option CurrentSettings) (b : Bool)
          → s.statics.settings ≡ o
          → Done
              (λ st. st)
              s.statics.settings
              (proceed (initialised o b s).0 rest (initialised o b s).1)
      split none b e = λ x. ground arith
      split (some st) true e = λ x. ground arith
      split (some st) false e = λ x. (st, e, (k st).same s ∙ e)

  pub after-Done :
      {A : Type 0} (f : CurrentSettings → CurrentSettings) (m : Action (Daemon W) A)
      (n : Action (Daemon W) IpcResponse) (s : Daemon W)
      → Keeps stored m
      → ((t : Daemon W) → Done f t.statics.settings (n t))
      → Done f s.statics.settings ((m >>= λ _. n) s)
  after-Done {A = A} f m n s k p = split (m s).0
    where
      split : (o : Outcome A) → Done f s.statics.settings (proceed o (λ _. n) (m s).1)
      split (ok a) = subst (λ o. Done f o (n (m s).1)) (k.same s) (p (m s).1)
      split (err e) = λ x. ground arith
      split panicked = λ x. ground arith

  pub setter-Done :
      {A : Type 0} (f : CurrentSettings → CurrentSettings) (m : Action (Daemon W) A) (s : Daemon W)
      → Keeps stored m
      → Done f s.statics.settings ((m >>= λ _. guarded f (λ _. pure IpcResponse.success)) s)
  setter-Done f m s k =
      after-Done f m (guarded f (λ _. pure IpcResponse.success)) s k
        (λ t. guarded-Done f (λ _. pure IpcResponse.success) t (λ st. record { same = λ u. refl }))

  pub answered :
      (o : Outcome IpcResponse) (t : Daemon W) (f : CurrentSettings → CurrentSettings)
      (before : Option CurrentSettings)
      → Done f before (o, t)
      → Done f before (proceed (reify o) response_of t)
  answered (ok a) t f before d = d
  answered (err e) t f before d = λ x. ground arith
  answered panicked t f before d = λ x. ground arith
