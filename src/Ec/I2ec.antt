-- ===== src/Ec/I2ec.antt =====
-- The documented behaviour of the ITE controller at its Super I/O ports: a write to the index port
-- selects a configuration register; register 0x2E selects the meaning of register 0x2F, which is
-- the low address byte (0x10), the high address byte (0x11) or the addressed register (0x12).
use lecoo_control_center.Base.{ℕ, ◌+◌, ◌*◌, ◌%◌, ◌≡◌, ◌==◌, if◌then◌else◌}
use lecoo_control_center.Base.Action.{ok}
use lecoo_control_center.Ec.Host.{Host}

pub record I2ec : Type 0 where
  pub index : ℕ
  pub selector : ℕ
  pub addr_high : ℕ
  pub addr_low : ℕ
  pub regs : ℕ → ℕ

abbrev pub update : (ℕ → ℕ) → ℕ → ℕ → ℕ → ℕ
update f a v b = if a == b then v else f b

abbrev pub address : I2ec → ℕ
address c = c.addr_high * 256 + c.addr_low

abbrev pub write_selected : I2ec → ℕ → I2ec
write_selected c v =
    if c.selector == 0x10
    then record c { addr_low = v }
    else if c.selector == 0x11
    then record c { addr_high = v }
    else if c.selector == 0x12
    then record c { regs = update c.regs (address c) v }
    else c

abbrev pub write_index : I2ec → ℕ → I2ec
write_index c v = record c { index = v }

abbrev pub write_data : I2ec → ℕ → I2ec
write_data c v =
    if c.index == 0x2E
    then record c { selector = v }
    else if c.index == 0x2F
    then write_selected c v
    else c

-- What a host must do for the chip at `port` to be such a controller. `view` is the chip's state
-- within the world. Reading the clock leaves the chip alone. Its registers change by writes only.
pub record IsI2ec {W : Type 0} (h : Host W) (port : ℕ) (view : W → I2ec) : Type 0 where
  pub index_ok : (v : ℕ) (w : W) → (h.io.outb port v w).0 ≡ ok tt
  pub index_view : (v : ℕ) (w : W) → view (h.io.outb port v w).1 ≡ write_index (view w) v
  pub data_ok : (v : ℕ) (w : W) → (h.io.outb ((port + 1) % 65536) v w).0 ≡ ok tt
  pub data_view :
      (v : ℕ) (w : W) → view (h.io.outb ((port + 1) % 65536) v w).1 ≡ write_data (view w) v
  pub read_ok :
      (w : W)
      → (view w).index ≡ 0x2F
      → (view w).selector ≡ 0x12
      → (h.io.inb ((port + 1) % 65536) w).0 ≡ ok ((view w).regs (address (view w)))
  pub read_view : (w : W) → view (h.io.inb ((port + 1) % 65536) w).1 ≡ view w
  pub clock_view : (w : W) → view (h.now_ms w).1 ≡ view w
