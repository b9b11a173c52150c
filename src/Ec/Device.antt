-- ===== src/Ec/Device.antt =====
-- `EcDevice` and `EcBatch` (daemon/src/ec/mod.rs). After `EcDevice::new` the port, the offsets and
-- the window are fixed, so a device is an argument; what its mutex and its atomic guard is in the
-- state. Sums of `u16` wrap, as in a release build.
use lecoo_control_center.Base.{
  ℕ, ◌+◌, ◌-◌, ◌/◌, ◌%◌, ◌^◌, ◌≡◌, refl, none, some, ◌==◌, if◌then◌else◌,
}
use lecoo_control_center.Base.Action.{Action, ◌>>◌}
use lecoo_control_center.State.{Daemon, on_world}
use lecoo_control_center.Ec.Offsets.{EcOffsets}
use lecoo_control_center.Ec.Host.{Host}

pub record EcDevice : Type 0 where
  pub port : ℕ
  pub offsets : EcOffsets
  pub hram_offset : ℕ

-- `self.port + 1` on `u16`.
abbrev pub data_port : EcDevice → ℕ
data_port ec = (ec.port + 1) % 65536

-- `self.hram_offset + offset` on `u16`.
abbrev pub ram_addr : EcDevice → ℕ → ℕ
ram_addr ec offset = (ec.hram_offset + offset) % 65536

module _ {W : Type 0} (h : Host W) where
  abbrev pub outb : ℕ → ℕ → Action (Daemon W) (Unit {0})
  outb port val = on_world (h.io.outb port val)

  abbrev pub inb : ℕ → Action (Daemon W) ℕ
  inb port = on_world (h.io.inb port)

  -- `EcBatch::read_reg`
  unfoldable pub batch_read_reg : EcDevice → ℕ → Action (Daemon W) ℕ
  batch_read_reg ec addr = do
    let addr_high = addr / 256 % 256
    let addr_low = addr % 256
    outb ec.port 0x2E
    outb (data_port ec) 0x11
    outb ec.port 0x2F
    outb (data_port ec) addr_high
    outb ec.port 0x2E
    outb (data_port ec) 0x10
    outb ec.port 0x2F
    outb (data_port ec) addr_low
    outb ec.port 0x2E
    outb (data_port ec) 0x12
    outb ec.port 0x2F
    inb (data_port ec)

  -- `EcBatch::write_reg`
  unfoldable pub batch_write_reg : EcDevice → ℕ → ℕ → Action (Daemon W) (Unit {0})
  batch_write_reg ec addr val = do
    let addr_high = addr / 256 % 256
    let addr_low = addr % 256
    outb ec.port 0x2E
    outb (data_port ec) 0x11
    outb ec.port 0x2F
    outb (data_port ec) addr_high
    outb ec.port 0x2E
    outb (data_port ec) 0x10
    outb ec.port 0x2F
    outb (data_port ec) addr_low
    outb ec.port 0x2E
    outb (data_port ec) 0x12
    outb ec.port 0x2F
    outb (data_port ec) val

  -- `EcBatch::read_ram`, `EcBatch::write_ram`
  unfoldable pub batch_read_ram : EcDevice → ℕ → Action (Daemon W) ℕ
  batch_read_ram ec offset = batch_read_reg ec (ram_addr ec offset)

  unfoldable pub batch_write_ram : EcDevice → ℕ → ℕ → Action (Daemon W) (Unit {0})
  batch_write_ram ec offset val = batch_write_reg ec (ram_addr ec offset) val

  -- The mark that `with_batch` stores for the watchdog: the clock as a `u64`, or 0.
  abbrev pub lock_taken : Daemon W → Daemon W
  lock_taken s =
      let (now, w) = h.now_ms s.world in
      record s { world = w; lock_held_since_ms = elim now [ none ↦ 0 | some ms ↦ ms % 2 ^ 64 ] }

  -- `LockTimer::drop`, which runs however the closure ends.
  abbrev pub lock_released : Daemon W → Daemon W
  lock_released s = record s { lock_held_since_ms = 0 }

  unfoldable pub with_batch : {A : Type 0} → Action (Daemon W) A → Action (Daemon W) A
  with_batch f s = let (r, s') = f (lock_taken s) in (r, lock_released s')

  -- What a batch returns and leaves, for proofs that keep it shut.
  pub with_batch_result :
      {A : Type 0} (f : Action (Daemon W) A) (s : Daemon W)
      → (with_batch f s).0 ≡ (f (lock_taken s)).0
  unfolding with_batch
  with_batch_result f s = refl

  pub with_batch_world :
      {A : Type 0} (f : Action (Daemon W) A) (s : Daemon W)
      → (with_batch f s).1.world ≡ (f (lock_taken s)).1.world
  unfolding with_batch
  with_batch_world f s = refl

  pub with_batch_statics :
      {A : Type 0} (f : Action (Daemon W) A) (s : Daemon W)
      → (with_batch f s).1.statics ≡ (f (lock_taken s)).1.statics
  unfolding with_batch
  with_batch_statics f s = refl

  unfoldable pub read_reg : EcDevice → ℕ → Action (Daemon W) ℕ
  unfolding with_batch
  read_reg ec addr = with_batch (batch_read_reg ec addr)

  unfoldable pub write_reg : EcDevice → ℕ → ℕ → Action (Daemon W) (Unit {0})
  unfolding with_batch
  write_reg ec addr val = with_batch (batch_write_reg ec addr val)

  unfoldable pub read_ram : EcDevice → ℕ → Action (Daemon W) ℕ
  unfolding with_batch batch_read_ram
  read_ram ec offset = with_batch (batch_read_ram ec offset)

  unfoldable pub write_ram : EcDevice → ℕ → ℕ → Action (Daemon W) (Unit {0})
  unfolding with_batch batch_write_ram
  write_ram ec offset val = with_batch (batch_write_ram ec offset val)

  -- `EcDevice::lock_age_ms`: 0 if the lock is free, else the time since it was taken, by a
  -- saturating subtraction.
  unfoldable pub lock_age_ms : Daemon W → ℕ × W
  lock_age_ms s =
      let since = s.lock_held_since_ms in
      let (now, w) = h.now_ms s.world in
      if since == 0
      then (0, s.world)
      else (elim now [ none ↦ since - since | some ms ↦ ms % 2 ^ 64 - since ], w)
