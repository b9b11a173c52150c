-- ===== src/Ec/ReadBack.antt =====
-- Reading a register back after a write through `EcDevice` (daemon/src/ec/mod.rs).
use lecoo_control_center.Base.{ℕ, ◌%◌, ◌≡◌, ◌∙◌, ap}
use lecoo_control_center.Base.Action.{ok}
use lecoo_control_center.State.{Daemon}
use lecoo_control_center.Ec.Host.{Host}
use lecoo_control_center.Ec.I2ec.{I2ec, IsI2ec, update}
use lecoo_control_center.Ec.Device.{EcDevice, read_reg, write_reg, read_ram, write_ram, ram_addr}
use lecoo_control_center.Ec.Registers.{regs, IsRegisterFile, i2ec-IsRegisterFile}

module _ {W : Type 0} (h : Host W) (ec : EcDevice) (view : W → I2ec)
    (chip : IsI2ec h ec.port view) where
  file : IsRegisterFile h ec (regs view)
  file = i2ec-IsRegisterFile h ec view chip

  -- On an I2EC controller, writing a register and then reading one, each its own locked
  -- transaction, both succeed: the same 16-bit address gives the byte written, every other address
  -- the byte that it held before.
  pub write_reg_reads_back :
      (addr val other : ℕ) (s : Daemon W)
      → ((write_reg h ec addr val s).0 ≡ ok tt)
        × ((read_reg h ec other (write_reg h ec addr val s).1).0
            ≡ ok (update (regs view s.world) (addr % 65536) val (other % 65536)))
  write_reg_reads_back addr val other s = (
    file.write_reg_ok addr val s,
    file.read_reg_ok other (write_reg h ec addr val s).1
        ∙ ap (λ (f : ℕ → ℕ). ok (f (other % 65536))) (file.write_reg_regs addr val s),
  )

  -- On an I2EC controller, writing a byte of the RAM window and then reading one both succeed: the
  -- same address, relative to the window's base and on 16 bits, gives the byte written, every other
  -- address the byte that it held before.
  pub write_ram_reads_back :
      (offset val other : ℕ) (s : Daemon W)
      → ((write_ram h ec offset val s).0 ≡ ok tt)
        × ((read_ram h ec other (write_ram h ec offset val s).1).0
            ≡ ok (update (regs view s.world) (ram_addr ec offset) val (ram_addr ec other)))
  write_ram_reads_back offset val other s = (
    file.write_ram_ok offset val s,
    file.read_ram_ok other (write_ram h ec offset val s).1
        ∙ ap (λ (f : ℕ → ℕ). ok (f (ram_addr ec other))) (file.write_ram_regs offset val s),
  )
