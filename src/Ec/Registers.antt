-- ===== src/Ec/Registers.antt =====
-- On an I2EC controller a register transaction of `EcBatch` or `EcDevice` reads or writes exactly
-- one register, succeeds, and leaves the daemon's statics alone.
use lecoo_control_center.Base.{ℕ, ◌+◌, ◌*◌, ◌/◌, ◌%◌, ◌≡◌, ◌∙◌, ap, arith}
use lecoo_control_center.Base.Action.{ok, proceed}
use lecoo_control_center.State.{Daemon, on_world}
use lecoo_control_center.Ec.Host.{Host}
use lecoo_control_center.Ec.I2ec.{I2ec, IsI2ec, update}
use lecoo_control_center.Ec.Device.{
  EcDevice, batch_read_reg, batch_write_reg, batch_read_ram, batch_write_ram, read_reg, write_reg,
  read_ram, write_ram, ram_addr, lock_taken, outb, inb,
}

word_bytes : (addr : ℕ) → addr / 256 % 256 * 256 + addr % 256 ≡ addr % 65536
word_bytes addr = omega arith

-- The controller's registers in a state of the world.
abbrev pub regs : {W : Type 0} → (W → I2ec) → W → ℕ → ℕ
regs view w = (view w).regs

-- What the functions above the transactions need of them: `r` is the registers in a world.
pub record IsRegisterFile {W : Type 0} (h : Host W) (ec : EcDevice) (r : W → ℕ → ℕ) : Type 0 where
  pub clock : (w : W) → r (h.now_ms w).1 ≡ r w
  pub batch_write_reg_ok :
      (addr val : ℕ) (s : Daemon W) → (batch_write_reg h ec addr val s).0 ≡ ok tt
  pub batch_write_reg_regs :
      (addr val : ℕ) (s : Daemon W)
      → r (batch_write_reg h ec addr val s).1.world ≡ update (r s.world) (addr % 65536) val
  pub batch_write_reg_statics :
      (addr val : ℕ) (s : Daemon W) → (batch_write_reg h ec addr val s).1.statics ≡ s.statics
  pub batch_read_reg_ok :
      (addr : ℕ) (s : Daemon W) → (batch_read_reg h ec addr s).0 ≡ ok (r s.world (addr % 65536))
  pub batch_read_reg_regs :
      (addr : ℕ) (s : Daemon W) → r (batch_read_reg h ec addr s).1.world ≡ r s.world
  pub batch_read_reg_statics :
      (addr : ℕ) (s : Daemon W) → (batch_read_reg h ec addr s).1.statics ≡ s.statics
  pub batch_write_ram_ok :
      (addr val : ℕ) (s : Daemon W) → (batch_write_ram h ec addr val s).0 ≡ ok tt
  pub batch_write_ram_regs :
      (addr val : ℕ) (s : Daemon W)
      → r (batch_write_ram h ec addr val s).1.world ≡ update (r s.world) (ram_addr ec addr) val
  pub batch_write_ram_statics :
      (addr val : ℕ) (s : Daemon W) → (batch_write_ram h ec addr val s).1.statics ≡ s.statics
  pub batch_read_ram_ok :
      (addr : ℕ) (s : Daemon W) → (batch_read_ram h ec addr s).0 ≡ ok (r s.world (ram_addr ec addr))
  pub batch_read_ram_regs :
      (addr : ℕ) (s : Daemon W) → r (batch_read_ram h ec addr s).1.world ≡ r s.world
  pub batch_read_ram_statics :
      (addr : ℕ) (s : Daemon W) → (batch_read_ram h ec addr s).1.statics ≡ s.statics
  pub write_reg_ok : (addr val : ℕ) (s : Daemon W) → (write_reg h ec addr val s).0 ≡ ok tt
  pub write_reg_regs :
      (addr val : ℕ) (s : Daemon W)
      → r (write_reg h ec addr val s).1.world ≡ update (r s.world) (addr % 65536) val
  pub write_reg_statics :
      (addr val : ℕ) (s : Daemon W) → (write_reg h ec addr val s).1.statics ≡ s.statics
  pub read_reg_ok :
      (addr : ℕ) (s : Daemon W) → (read_reg h ec addr s).0 ≡ ok (r s.world (addr % 65536))
  pub read_reg_regs : (addr : ℕ) (s : Daemon W) → r (read_reg h ec addr s).1.world ≡ r s.world
  pub read_reg_statics : (addr : ℕ) (s : Daemon W) → (read_reg h ec addr s).1.statics ≡ s.statics
  pub write_ram_ok : (addr val : ℕ) (s : Daemon W) → (write_ram h ec addr val s).0 ≡ ok tt
  pub write_ram_regs :
      (addr val : ℕ) (s : Daemon W)
      → r (write_ram h ec addr val s).1.world ≡ update (r s.world) (ram_addr ec addr) val
  pub write_ram_statics :
      (addr val : ℕ) (s : Daemon W) → (write_ram h ec addr val s).1.statics ≡ s.statics
  pub read_ram_ok :
      (addr : ℕ) (s : Daemon W) → (read_ram h ec addr s).0 ≡ ok (r s.world (ram_addr ec addr))
  pub read_ram_regs : (addr : ℕ) (s : Daemon W) → r (read_ram h ec addr s).1.world ≡ r s.world
  pub read_ram_statics : (addr : ℕ) (s : Daemon W) → (read_ram h ec addr s).1.statics ≡ s.statics

-- The same at one register.
module _ {W : Type 0} {h : Host W} {ec : EcDevice} {r : W → ℕ → ℕ}
    (file : IsRegisterFile h ec r) where
  pub clock_at : (w : W) (b : ℕ) → r (h.now_ms w).1 b ≡ r w b
  clock_at w b = ap (λ (f : ℕ → ℕ). f b) (file.clock w)

  pub batch_write_reg_at :
      (addr val : ℕ) (s : Daemon W) (b : ℕ)
      → r (batch_write_reg h ec addr val s).1.world b ≡ update (r s.world) (addr % 65536) val b
  batch_write_reg_at addr val s b = ap (λ (f : ℕ → ℕ). f b) (file.batch_write_reg_regs addr val s)

  pub batch_read_reg_at :
      (addr : ℕ) (s : Daemon W) (b : ℕ) → r (batch_read_reg h ec addr s).1.world b ≡ r s.world b
  batch_read_reg_at addr s b = ap (λ (f : ℕ → ℕ). f b) (file.batch_read_reg_regs addr s)

  pub batch_write_ram_at :
      (addr val : ℕ) (s : Daemon W) (b : ℕ)
      → r (batch_write_ram h ec addr val s).1.world b ≡ update (r s.world) (ram_addr ec addr) val b
  batch_write_ram_at addr val s b = ap (λ (f : ℕ → ℕ). f b) (file.batch_write_ram_regs addr val s)

  pub batch_read_ram_at :
      (addr : ℕ) (s : Daemon W) (b : ℕ) → r (batch_read_ram h ec addr s).1.world b ≡ r s.world b
  batch_read_ram_at addr s b = ap (λ (f : ℕ → ℕ). f b) (file.batch_read_ram_regs addr s)

  pub write_reg_at :
      (addr val : ℕ) (s : Daemon W) (b : ℕ)
      → r (write_reg h ec addr val s).1.world b ≡ update (r s.world) (addr % 65536) val b
  write_reg_at addr val s b = ap (λ (f : ℕ → ℕ). f b) (file.write_reg_regs addr val s)

  pub read_reg_at :
      (addr : ℕ) (s : Daemon W) (b : ℕ) → r (read_reg h ec addr s).1.world b ≡ r s.world b
  read_reg_at addr s b = ap (λ (f : ℕ → ℕ). f b) (file.read_reg_regs addr s)

  pub write_ram_at :
      (addr val : ℕ) (s : Daemon W) (b : ℕ)
      → r (write_ram h ec addr val s).1.world b ≡ update (r s.world) (ram_addr ec addr) val b
  write_ram_at addr val s b = ap (λ (f : ℕ → ℕ). f b) (file.write_ram_regs addr val s)

  pub read_ram_at :
      (addr : ℕ) (s : Daemon W) (b : ℕ) → r (read_ram h ec addr s).1.world b ≡ r s.world b
  read_ram_at addr s b = ap (λ (f : ℕ → ℕ). f b) (file.read_ram_regs addr s)

module _ {W : Type 0} (h : Host W) (ec : EcDevice) (view : W → I2ec)
    (chip : IsI2ec h ec.port view) where
  clock : (w : W) → regs view (h.now_ms w).1 ≡ regs view w
  clock w = simp (regs, chip.clock_view)

  batch_write_reg_ok : (addr val : ℕ) (s : Daemon W) → (batch_write_reg h ec addr val s).0 ≡ ok tt
  unfolding batch_write_reg
  batch_write_reg_ok addr val s = simp (chip.index_ok, chip.data_ok, proceed)

  batch_write_reg_regs :
      (addr val : ℕ) (s : Daemon W)
      → regs view (batch_write_reg h ec addr val s).1.world
        ≡ update (regs view s.world) (addr % 65536) val
  unfolding batch_write_reg
  batch_write_reg_regs addr val s =
      simp (proceed, chip.index_ok, chip.data_ok)
        (simp (regs, outb, on_world, chip.index_view, chip.data_view, word_bytes))

  batch_write_reg_statics :
      (addr val : ℕ) (s : Daemon W) → (batch_write_reg h ec addr val s).1.statics ≡ s.statics
  unfolding batch_write_reg
  batch_write_reg_statics addr val s = simp (proceed, chip.index_ok, chip.data_ok)

  batch_read_reg_ok :
      (addr : ℕ) (s : Daemon W)
      → (batch_read_reg h ec addr s).0 ≡ ok (regs view s.world (addr % 65536))
  unfolding batch_read_reg
  batch_read_reg_ok addr s =
      simp (chip.index_ok, chip.data_ok, chip.read_ok, chip.index_view, chip.data_view, word_bytes)

  batch_read_reg_regs :
      (addr : ℕ) (s : Daemon W) → regs view (batch_read_reg h ec addr s).1.world ≡ regs view s.world
  unfolding batch_read_reg
  batch_read_reg_regs addr s =
      simp (proceed, chip.index_ok, chip.data_ok)
        (simp (regs, outb, inb, on_world, chip.read_view, chip.index_view, chip.data_view))

  batch_read_reg_statics :
      (addr : ℕ) (s : Daemon W) → (batch_read_reg h ec addr s).1.statics ≡ s.statics
  unfolding batch_read_reg
  batch_read_reg_statics addr s = simp (proceed, chip.index_ok, chip.data_ok)

  ram_mod : (addr : ℕ) → ram_addr ec addr % 65536 ≡ ram_addr ec addr
  ram_mod addr = omega arith

  pub i2ec-IsRegisterFile : IsRegisterFile h ec (regs view)
  unfolding write_reg read_reg write_ram read_ram batch_write_ram batch_read_ram
  i2ec-IsRegisterFile = record {
    clock = clock;
    batch_write_reg_ok = λ addr val s. batch_write_reg_ok addr val s;
    batch_write_reg_regs = λ addr val s. batch_write_reg_regs addr val s;
    batch_write_reg_statics = λ addr val s. batch_write_reg_statics addr val s;
    batch_read_reg_ok = λ addr s. batch_read_reg_ok addr s;
    batch_read_reg_regs = λ addr s. batch_read_reg_regs addr s;
    batch_read_reg_statics = λ addr s. batch_read_reg_statics addr s;
    batch_write_ram_ok = λ addr val s. batch_write_reg_ok (ram_addr ec addr) val s;
    batch_write_ram_regs = λ addr val s. rw (batch_write_reg_regs, ram_mod);
    batch_write_ram_statics = λ addr val s. batch_write_reg_statics (ram_addr ec addr) val s;
    batch_read_ram_ok = λ addr s. rw (batch_read_reg_ok, ram_mod);
    batch_read_ram_regs = λ addr s. batch_read_reg_regs (ram_addr ec addr) s;
    batch_read_ram_statics = λ addr s. batch_read_reg_statics (ram_addr ec addr) s;
    write_reg_ok = λ addr val s. batch_write_reg_ok addr val (lock_taken h s);
    write_reg_regs = λ addr val s. rw (batch_write_reg_regs, clock);
    write_reg_statics = λ addr val s. batch_write_reg_statics addr val (lock_taken h s);
    read_reg_ok = λ addr s.
        batch_read_reg_ok addr (lock_taken h s)
        ∙ ap (λ (f : ℕ → ℕ). ok (f (addr % 65536))) (clock s.world);
    read_reg_regs = λ addr s. batch_read_reg_regs addr (lock_taken h s) ∙ clock s.world;
    read_reg_statics = λ addr s. batch_read_reg_statics addr (lock_taken h s);
    write_ram_ok = λ addr val s. batch_write_reg_ok (ram_addr ec addr) val (lock_taken h s);
    write_ram_regs = λ addr val s. rw (batch_write_reg_regs, clock, ram_mod);
    write_ram_statics =
        λ addr val s. batch_write_reg_statics (ram_addr ec addr) val (lock_taken h s);
    read_ram_ok = λ addr s.
        batch_read_reg_ok (ram_addr ec addr) (lock_taken h s)
        ∙ (ap (λ (f : ℕ → ℕ). ok (f (ram_addr ec addr % 65536))) (clock s.world)
            ∙ ap (λ (n : ℕ). ok (regs view s.world n)) (ram_mod addr));
    read_ram_regs =
        λ addr s. batch_read_reg_regs (ram_addr ec addr) (lock_taken h s) ∙ clock s.world;
    read_ram_statics = λ addr s. batch_read_reg_statics (ram_addr ec addr) (lock_taken h s);
  }
