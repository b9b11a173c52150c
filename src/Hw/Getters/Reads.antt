-- ===== src/Hw/Getters/Reads.antt =====
-- What the readings give on an I2EC controller: the registers, which stay as they are.
use lecoo_control_center.Base.{ℕ, ◌≡◌, arith}
use lecoo_control_center.Base.Action.{ok, proceed}
use lecoo_control_center.State.{Daemon}
use lecoo_control_center.Ec.Host.{Host}
use lecoo_control_center.Ec.Device.{
  EcDevice, lock_taken, with_batch_result, with_batch_world, with_batch_statics, ram_addr,
}
use lecoo_control_center.Ec.Registers.{IsRegisterFile, batch_read_ram_at, clock_at}
use lecoo_control_center.Ipc.Settings.{PowerProfile, profile_byte}
use lecoo_control_center.Hw.Power.{profile_of, read_power_profile}
use lecoo_control_center.Hw.Getters.{join_bytes, read_fans_rpm, read_temperatures}

module _ {W : Type 0} (h : Host W) (ec : EcDevice) (r : W → ℕ → ℕ)
    (file : IsRegisterFile h ec r) where
  -- The byte at an offset of the RAM window.
  abbrev pub at : ℕ → Daemon W → ℕ
  at offset s = r s.world (ram_addr ec offset)

  pub read_temperatures_ok :
      (s : Daemon W)
      → (read_temperatures h ec s).0
        ≡ ok (at ec.offsets.ram_temp_cpu s, at ec.offsets.ram_temp_sys s)
  unfolding read_temperatures
  read_temperatures_ok s =
      simp (proceed, with_batch_result, file.batch_read_ram_ok)
        (simp (batch_read_ram_at file) (simp (lock_taken, clock_at file)))

  pub read_temperatures_regs : (s : Daemon W) → r (read_temperatures h ec s).1.world ≡ r s.world
  unfolding read_temperatures
  read_temperatures_regs s =
      simp (proceed, with_batch_result, with_batch_world, file.batch_read_ram_ok)
        (simp (file.batch_read_ram_regs, file.clock))

  pub read_temperatures_statics : (s : Daemon W) → (read_temperatures h ec s).1.statics ≡ s.statics
  unfolding read_temperatures
  read_temperatures_statics s = simp (
    proceed, with_batch_result, with_batch_statics, file.batch_read_ram_ok,
    file.batch_read_ram_statics,
  )

  pub read_fans_rpm_ok :
      (s : Daemon W)
      → (read_fans_rpm h ec s).0
        ≡ ok (
          join_bytes (at ec.offsets.ram_fan_cpu_msb s) (at ec.offsets.ram_fan_cpu_lsb s),
          join_bytes (at ec.offsets.ram_fan_gpu_msb s) (at ec.offsets.ram_fan_gpu_lsb s),
        )
  unfolding read_fans_rpm
  read_fans_rpm_ok s =
      simp (proceed, with_batch_result, file.batch_read_ram_ok)
        (simp (batch_read_ram_at file) (simp (lock_taken, clock_at file)))

  pub read_fans_rpm_regs : (s : Daemon W) → r (read_fans_rpm h ec s).1.world ≡ r s.world
  unfolding read_fans_rpm
  read_fans_rpm_regs s =
      simp (proceed, with_batch_result, with_batch_world, file.batch_read_ram_ok)
        (simp (file.batch_read_ram_regs, file.clock))

  pub read_fans_rpm_statics : (s : Daemon W) → (read_fans_rpm h ec s).1.statics ≡ s.statics
  unfolding read_fans_rpm
  read_fans_rpm_statics s = simp (
    proceed, with_batch_result, with_batch_statics, file.batch_read_ram_ok,
    file.batch_read_ram_statics,
  )

  pub read_power_profile_ok :
      (profile : PowerProfile) (s : Daemon W)
      → at ec.offsets.ram_power_profile s ≡ profile_byte profile
      → (read_power_profile h ec s).0 ≡ ok profile
  unfolding read_power_profile
  read_power_profile_ok profile s e =
      ground (arith, file.read_ram_ok ec.offsets.ram_power_profile s)

  profile_of-rest : (b : ℕ) (s : Daemon W) → (profile_of h b s).1 ≡ s
  profile_of-rest b s = ground arith

  pub read_power_profile_regs : (s : Daemon W) → r (read_power_profile h ec s).1.world ≡ r s.world
  unfolding read_power_profile
  read_power_profile_regs s =
      simp (proceed, file.read_ram_ok, profile_of-rest) (file.read_ram_regs _ s)

  pub read_power_profile_statics :
      (s : Daemon W) → (read_power_profile h ec s).1.statics ≡ s.statics
  unfolding read_power_profile
  read_power_profile_statics s =
      simp (proceed, file.read_ram_ok, profile_of-rest) (file.read_ram_statics _ s)
