-- ===== src/Ec/Frame.antt =====
-- What a call leaves alone on any host, whether or not it succeeds: `obs` is a part of the statics.
use lecoo_control_center.Base.{ℕ, Bool, true, false, if◌then◌else◌, ◌≡◌, refl, ◌∙◌}
use lecoo_control_center.Base.Text.{Text}
use lecoo_control_center.Base.Action.{
  Action, Outcome, ok, err, panicked, pure, fail, panic, proceed, attempt, ignore, ◌>>=◌, ◌>>◌,
}
use lecoo_control_center.State.{Daemon, Statics, on_world}
use lecoo_control_center.Ec.Host.{Host}
use lecoo_control_center.Ec.Device.{
  EcDevice, with_batch, batch_read_reg, batch_write_reg, batch_read_ram, batch_write_ram, read_reg,
  write_reg, read_ram, write_ram,
}

-- A call that leaves `obs` alone. A record, so that `search` can go by the shape of the call.
pub record Keeps {X W A : Type 0} (obs : Statics → X) (m : Action (Daemon W) A) : Type 0 where
  pub same : (s : Daemon W) → obs (m s).1.statics ≡ obs s.statics

module _ {X : Type 0} {obs : Statics → X} {W : Type 0} where
  proceed-same :
      {A B : Type 0} (o : Outcome A) (f : A → Action (Daemon W) B) (s : Daemon W)
      → ((a : A) → Keeps obs (f a))
      → obs (proceed o f s).1.statics ≡ obs s.statics
  proceed-same (ok a) f s k = (k a).same s
  proceed-same (err e) f s k = refl
  proceed-same panicked f s k = refl

  pub bind-Keeps :
      {A B : Type 0} {m : Action (Daemon W) A} {f : A → Action (Daemon W) B}
      → Keeps obs m
      → ((a : A) → Keeps obs (f a))
      → Keeps obs (m >>= f)
  bind-Keeps {m} {f} k l = record { same = λ s. proceed-same (m s).0 f (m s).1 l ∙ k.same s }

  pub then-Keeps :
      {B : Type 0} {m : Action (Daemon W) (Unit {0})} {n : Action (Daemon W) B}
      → Keeps obs m
      → Keeps obs n
      → Keeps obs (m >> n)
  then-Keeps k l = bind-Keeps k (λ _. l)

  pub pure-Keeps : {A : Type 0} (a : A) → Keeps obs (pure {S = Daemon W} a)
  pure-Keeps a = record { same = λ s. refl }

  pub fail-Keeps : {A : Type 0} (e : Text) → Keeps obs (fail {S = Daemon W} {A = A} e)
  fail-Keeps e = record { same = λ s. refl }

  pub panic-Keeps : {A : Type 0} → Keeps obs (panic {S = Daemon W} {A = A})
  panic-Keeps = record { same = λ s. refl }

  pub on_world-Keeps : {A : Type 0} (m : Action W A) → Keeps obs (on_world m)
  on_world-Keeps m = record { same = λ s. refl }

  pub attempt-Keeps : {A : Type 0} {m : Action (Daemon W) A} → Keeps obs m → Keeps obs (attempt m)
  attempt-Keeps k = record { same = λ s. k.same s }

  pub ignore-Keeps : {A : Type 0} {m : Action (Daemon W) A} → Keeps obs m → Keeps obs (ignore m)
  ignore-Keeps k = record { same = λ s. k.same s }

  pub if-Keeps :
      {A : Type 0} (b : Bool) {m n : Action (Daemon W) A}
      → Keeps obs m
      → Keeps obs n
      → Keeps obs (if b then m else n)
  if-Keeps true k l = k
  if-Keeps false k l = l

  pub with_batch-Keeps :
      {A : Type 0} (h : Host W) {m : Action (Daemon W) A} → Keeps obs m → Keeps obs (with_batch h m)
  unfolding with_batch
  with_batch-Keeps h k = record { same = λ s. k.same _ }

module _ {X : Type 0} {obs : Statics → X} {W : Type 0} (h : Host W) where
  pub batch_write_reg-Keeps :
      (ec : EcDevice) (addr val : ℕ) → Keeps obs (batch_write_reg h ec addr val)
  unfolding batch_write_reg
  batch_write_reg-Keeps ec addr val = search (then-Keeps, on_world-Keeps) depth 14

  pub batch_read_reg-Keeps : (ec : EcDevice) (addr : ℕ) → Keeps obs (batch_read_reg h ec addr)
  unfolding batch_read_reg
  batch_read_reg-Keeps ec addr = search (then-Keeps, on_world-Keeps) depth 14

  pub batch_write_ram-Keeps :
      (ec : EcDevice) (offset val : ℕ) → Keeps obs (batch_write_ram h ec offset val)
  unfolding batch_write_ram
  batch_write_ram-Keeps ec offset val = batch_write_reg-Keeps ec _ val

  pub batch_read_ram-Keeps : (ec : EcDevice) (offset : ℕ) → Keeps obs (batch_read_ram h ec offset)
  unfolding batch_read_ram
  batch_read_ram-Keeps ec offset = batch_read_reg-Keeps ec _

  pub write_reg-Keeps : (ec : EcDevice) (addr val : ℕ) → Keeps obs (write_reg h ec addr val)
  unfolding write_reg
  write_reg-Keeps ec addr val = with_batch-Keeps h (batch_write_reg-Keeps ec addr val)

  pub read_reg-Keeps : (ec : EcDevice) (addr : ℕ) → Keeps obs (read_reg h ec addr)
  unfolding read_reg
  read_reg-Keeps ec addr = with_batch-Keeps h (batch_read_reg-Keeps ec addr)

  pub write_ram-Keeps : (ec : EcDevice) (offset val : ℕ) → Keeps obs (write_ram h ec offset val)
  unfolding write_ram
  write_ram-Keeps ec offset val = with_batch-Keeps h (batch_write_ram-Keeps ec offset val)

  pub read_ram-Keeps : (ec : EcDevice) (offset : ℕ) → Keeps obs (read_ram h ec offset)
  unfolding read_ram
  read_ram-Keeps ec offset = with_batch-Keeps h (batch_read_ram-Keeps ec offset)

pub ruleset frame = (
  bind-Keeps, then-Keeps, pure-Keeps, fail-Keeps, panic-Keeps, on_world-Keeps, attempt-Keeps,
  ignore-Keeps, if-Keeps, with_batch-Keeps, batch_write_reg-Keeps, batch_read_reg-Keeps,
  batch_write_ram-Keeps, batch_read_ram-Keeps, write_reg-Keeps, read_reg-Keeps, write_ram-Keeps,
  read_ram-Keeps,
)
