-- ===== src/Hw/Power/RoundTrip.antt =====
-- A power profile that is applied is the one that is read back.
use lecoo_control_center.Base.{ℕ, ◌≡◌, ap, arith}
use lecoo_control_center.Base.Action.{ok, proceed}
use lecoo_control_center.State.{Daemon}
use lecoo_control_center.Ec.Host.{Host}
use lecoo_control_center.Ec.I2ec.{I2ec, IsI2ec, update}
use lecoo_control_center.Ec.Device.{EcDevice, ram_addr}
use lecoo_control_center.Ec.Registers.{regs, IsRegisterFile, i2ec-IsRegisterFile}
use lecoo_control_center.Ipc.Settings.{PowerProfile, profile_byte}
use lecoo_control_center.Ipc.Message.{success}
use lecoo_control_center.Hw.Power.{apply_power_profile, read_power_profile}

module _ {W : Type 0} (h : Host W) (ec : EcDevice) (r : W → ℕ → ℕ)
    (file : IsRegisterFile h ec r) where
  pub apply_power_profile_ok :
      (profile : PowerProfile) (s : Daemon W) → (apply_power_profile h ec profile s).0 ≡ ok success
  unfolding apply_power_profile
  apply_power_profile_ok profile s = simp (proceed, file.write_ram_ok)

  pub apply_power_profile_regs :
      (profile : PowerProfile) (s : Daemon W)
      → r (apply_power_profile h ec profile s).1.world
        ≡ update (r s.world) (ram_addr ec ec.offsets.ram_power_profile) (profile_byte profile)
  unfolding apply_power_profile
  apply_power_profile_regs profile s = simp (proceed, file.write_ram_ok) (simp file.write_ram_regs)

  pub apply_power_profile_statics :
      (profile : PowerProfile) (s : Daemon W)
      → (apply_power_profile h ec profile s).1.statics ≡ s.statics
  unfolding apply_power_profile
  apply_power_profile_statics profile s = simp (proceed, file.write_ram_ok, file.write_ram_statics)

module _ {W : Type 0} (h : Host W) (ec : EcDevice) (view : W → I2ec)
    (chip : IsI2ec h ec.port view) where
  file : IsRegisterFile h ec (regs view)
  file = i2ec-IsRegisterFile h ec view chip

  -- On an I2EC controller, applying a profile succeeds, and reading the profile afterwards gives it back.
  pub power_profile_round_trip :
      (profile : PowerProfile) (s : Daemon W)
      → let (done, s') = apply_power_profile h ec profile s in
        (done ≡ ok success) × ((read_power_profile h ec s').0 ≡ ok profile)
  unfolding read_power_profile
  power_profile_round_trip profile s = (
    apply_power_profile_ok h ec (regs view) file profile s,
    ground (
      arith,
      file.read_ram_ok ec.offsets.ram_power_profile (apply_power_profile h ec profile s).1,
      ap (λ (f : ℕ → ℕ). f (ram_addr ec ec.offsets.ram_power_profile))
          (apply_power_profile_regs h ec (regs view) file profile s),
    ),
  )
