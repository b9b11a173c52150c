-- ===== src/Hw/Led/Writes.antt =====
-- The registers and the flag after each LED function, on an I2EC controller.
use lecoo_control_center.Base.{ℕ, ◌%◌, ◌≡◌, refl, Bool, true, false, arith}
use lecoo_control_center.Base.Action.{ok, proceed}
use lecoo_control_center.State.{Daemon, Statics}
use lecoo_control_center.Ec.Host.{Host}
use lecoo_control_center.Ec.I2ec.{update}
use lecoo_control_center.Ec.Device.{
  EcDevice, ram_addr, with_batch_result, with_batch_world, with_batch_statics,
}
use lecoo_control_center.Ec.Registers.{IsRegisterFile}
use lecoo_control_center.Ipc.Settings.{PowerLedMode}
use lecoo_control_center.Hw.Led.{
  lcr1_val, lcr2_val, reset_led_anim_engine, bypass_unless, enter_bypass, apply_led_mode,
}

abbrev pub flagged : Bool → Statics → Statics
flagged b t = record t { is_led_already_custom = b }

module _ (ec : EcDevice) where
  abbrev pub reset_regs : (ℕ → ℕ) → ℕ → ℕ
  reset_regs f =
      update
        (update (update f (ec.offsets.reg_led_breath_en % 65536) 0x00)
          (ec.offsets.reg_pwm_prescaler % 65536) 0x00)
        (ec.offsets.reg_pwm_cycle % 65536) 0xFF

  -- The bypass is written only if the flag is down.
  abbrev pub bypass_regs : Bool → (ℕ → ℕ) → ℕ → ℕ
  bypass_regs true f = f
  bypass_regs false f =
      update (update f (ram_addr ec ec.offsets.ram_led_bypass) 0x01)
        (ec.offsets.reg_gpio_a0_mux % 65536) 0x00

  abbrev pub led_regs : PowerLedMode → Bool → (ℕ → ℕ) → ℕ → ℕ
  led_regs PowerLedMode.auto flag f =
      reset_regs (update f (ram_addr ec ec.offsets.ram_led_bypass) 0x00)
  led_regs (PowerLedMode.custom brightness) flag f =
      update (reset_regs (bypass_regs flag f)) (ec.offsets.reg_pwm_duty % 65536) brightness
  led_regs (PowerLedMode.animation config) flag f =
      update
        (update
          (update
            (update
              (update (reset_regs (bypass_regs flag f)) (ec.offsets.reg_pwm_prescaler % 65536) 0x00)
              (ec.offsets.reg_pwm_cycle % 65536) 0xFF)
            (ec.offsets.reg_led_breath_step % 65536) (lcr1_val config))
          (ec.offsets.reg_led_breath_delay % 65536) (lcr2_val config))
        (ec.offsets.reg_led_breath_en % 65536) 0x01

-- The flag after a mode is applied.
abbrev pub led_flag : PowerLedMode → Bool
led_flag PowerLedMode.auto = false
led_flag (PowerLedMode.custom b) = true
led_flag (PowerLedMode.animation c) = true

module _ {W : Type 0} (h : Host W) (ec : EcDevice) (r : W → ℕ → ℕ)
    (file : IsRegisterFile h ec r) where
  reset_ok : (s : Daemon W) → (reset_led_anim_engine h ec s).0 ≡ ok tt
  unfolding reset_led_anim_engine
  reset_ok s = simp (proceed, with_batch_result, file.batch_write_reg_ok)

  reset_led_regs :
      (s : Daemon W) → r (reset_led_anim_engine h ec s).1.world ≡ reset_regs ec (r s.world)
  unfolding reset_led_anim_engine
  reset_led_regs s =
      simp (proceed, with_batch_world, file.batch_write_reg_ok)
        (simp (file.batch_write_reg_regs, file.clock))

  reset_statics : (s : Daemon W) → (reset_led_anim_engine h ec s).1.statics ≡ s.statics
  unfolding reset_led_anim_engine
  reset_statics s =
      simp (proceed, with_batch_statics, file.batch_write_reg_ok)
        (simp file.batch_write_reg_statics)

  unless_ok : (b : Bool) (s : Daemon W) → (bypass_unless h ec b s).0 ≡ ok tt
  unless_ok true s = refl
  unless_ok false s = simp (proceed, file.write_ram_ok, file.write_reg_ok)

  unless_regs :
      (b : Bool) (s : Daemon W) → r (bypass_unless h ec b s).1.world ≡ bypass_regs ec b (r s.world)
  unless_regs true s = refl
  unless_regs false s =
      simp (proceed, file.write_ram_ok, file.write_reg_ok)
        (simp (file.write_reg_regs, file.write_ram_regs))

  unless_statics :
      (b : Bool) (s : Daemon W)
      → b ≡ s.statics.is_led_already_custom
      → (bypass_unless h ec b s).1.statics ≡ flagged true s.statics
  unless_statics true s e = ground arith
  unless_statics false s e =
      simp (proceed, file.write_ram_ok, file.write_reg_ok)
        (simp (file.write_reg_statics, file.write_ram_statics))

  enter_ok : (s : Daemon W) → (enter_bypass h ec s).0 ≡ ok tt
  unfolding enter_bypass
  enter_ok s = unless_ok s.statics.is_led_already_custom s

  enter_regs :
      (s : Daemon W)
      → r (enter_bypass h ec s).1.world ≡ bypass_regs ec s.statics.is_led_already_custom (r s.world)
  unfolding enter_bypass
  enter_regs s = unless_regs s.statics.is_led_already_custom s

  enter_statics : (s : Daemon W) → (enter_bypass h ec s).1.statics ≡ flagged true s.statics
  unfolding enter_bypass
  enter_statics s = unless_statics s.statics.is_led_already_custom s refl

  pub apply_led_mode_ok :
      (mode : PowerLedMode) (s : Daemon W) → (apply_led_mode h ec mode s).0 ≡ ok tt
  unfolding apply_led_mode
  apply_led_mode_ok PowerLedMode.auto s = simp (proceed, file.write_ram_ok, reset_ok)
  apply_led_mode_ok (PowerLedMode.custom b) s =
      simp (proceed, file.write_reg_ok, reset_ok, enter_ok)
  apply_led_mode_ok (PowerLedMode.animation c) s =
      simp (proceed, file.write_reg_ok, reset_ok, enter_ok)

  pub apply_led_mode_regs :
      (mode : PowerLedMode) (s : Daemon W)
      → r (apply_led_mode h ec mode s).1.world
        ≡ led_regs ec mode s.statics.is_led_already_custom (r s.world)
  unfolding apply_led_mode
  apply_led_mode_regs PowerLedMode.auto s =
      simp (proceed, file.write_ram_ok, reset_ok) (simp (reset_led_regs, file.write_ram_regs))
  apply_led_mode_regs (PowerLedMode.custom b) s =
      simp (proceed, file.write_reg_ok, reset_ok, enter_ok)
        (simp (reset_led_regs, file.write_reg_regs, enter_regs))
  apply_led_mode_regs (PowerLedMode.animation c) s =
      simp (proceed, file.write_reg_ok, reset_ok, enter_ok)
        (simp (reset_led_regs, file.write_reg_regs, enter_regs))

  pub apply_led_mode_statics :
      (mode : PowerLedMode) (s : Daemon W)
      → (apply_led_mode h ec mode s).1.statics ≡ flagged (led_flag mode) s.statics
  unfolding apply_led_mode
  apply_led_mode_statics PowerLedMode.auto s =
      simp (proceed, file.write_ram_ok, reset_ok) (simp (reset_statics, file.write_ram_statics))
  apply_led_mode_statics (PowerLedMode.custom b) s =
      simp (proceed, file.write_reg_ok, reset_ok, enter_ok)
        (simp (reset_statics, file.write_reg_statics, enter_statics))
  apply_led_mode_statics (PowerLedMode.animation c) s =
      simp (proceed, file.write_reg_ok, reset_ok, enter_ok)
        (simp (reset_statics, file.write_reg_statics, enter_statics))
