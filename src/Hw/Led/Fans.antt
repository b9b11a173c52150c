-- ===== src/Hw/Led/Fans.antt =====
-- The LED ring and the fans: separate registers on the N155A, a shared one on the N155D, whose
-- `ram_led_bypass` is the CPU fan's thermal policy register.
use lecoo_control_center.Base.{ℕ, ◌≡◌, refl, sym, ap, subst, ◌∙◌, Bool, true}
use lecoo_control_center.State.{Daemon}
use lecoo_control_center.Ec.Host.{Host}
use lecoo_control_center.Ec.I2ec.{I2ec, IsI2ec, update}
use lecoo_control_center.Ec.Device.{EcDevice, ram_addr}
use lecoo_control_center.Ec.Registers.{regs, i2ec-IsRegisterFile}
use lecoo_control_center.Ec.Probe.Detected.{
  SuperIoPort, Window, n155a, n155d, at_c400, detected, port_number,
}
use lecoo_control_center.Ipc.Settings.{PowerLedMode, FanMode, cpu, gpu, fan_word}
use lecoo_control_center.Hw.Fan.{apply_fan_mode}
use lecoo_control_center.Hw.Fan.Limit.{IsSafeMode, policy_of, duty_of, apply_fan_mode_sets}
use lecoo_control_center.Hw.Led.{apply_led_mode}
use lecoo_control_center.Hw.Led.Writes.{led_regs, apply_led_mode_regs}

-- The policy register and the duty register of a fan.
abbrev pub FansAgree : EcDevice → (ℕ → ℕ) → (ℕ → ℕ) → Type 0
FansAgree ec f g =
    (f (ram_addr ec ec.offsets.ram_thermal_policy_cpu)
      ≡ g (ram_addr ec ec.offsets.ram_thermal_policy_cpu))
    × (f (ram_addr ec ec.offsets.ram_thermal_policy_gpu)
        ≡ g (ram_addr ec ec.offsets.ram_thermal_policy_gpu))
    × (f (ram_addr ec (fan_word cpu)) ≡ g (ram_addr ec (fan_word cpu)))
    × (f (ram_addr ec (fan_word gpu)) ≡ g (ram_addr ec (fan_word gpu)))

module _ (p : SuperIoPort) where
  led_regs-FansAgree :
      (w : Window) (mode : PowerLedMode) (flag : Bool) (f : ℕ → ℕ)
      → FansAgree (detected p n155a w) (led_regs (detected p n155a w) mode flag f) f
  led_regs-FansAgree at_c400 PowerLedMode.auto true f = (refl, refl, refl, refl)
  led_regs-FansAgree at_c400 PowerLedMode.auto _ f = (refl, refl, refl, refl)
  led_regs-FansAgree at_c400 _ true f = (refl, refl, refl, refl)
  led_regs-FansAgree at_c400 _ _ f = (refl, refl, refl, refl)
  led_regs-FansAgree _ PowerLedMode.auto true f = (refl, refl, refl, refl)
  led_regs-FansAgree _ PowerLedMode.auto _ f = (refl, refl, refl, refl)
  led_regs-FansAgree _ _ true f = (refl, refl, refl, refl)
  led_regs-FansAgree _ _ _ f = (refl, refl, refl, refl)

  module _ {W : Type 0} (h : Host W) (view : W → I2ec) (chip : IsI2ec h (port_number p) view) where
    -- On every detected N155A, applying any LED mode leaves the policy and duty registers of both
    -- fans as they are.
    pub n155a_led_keeps_fans :
        (w : Window) (mode : PowerLedMode) (s : Daemon W)
        → let ec = detected p n155a w in
          FansAgree ec (regs view (apply_led_mode h ec mode s).1.world) (regs view s.world)
    n155a_led_keeps_fans w mode s =
        let ec = detected p n155a w in
        subst (λ f. FansAgree ec f (regs view s.world))
          (sym (apply_led_mode_regs h ec (regs view) (i2ec-IsRegisterFile h ec view chip) mode s))
          (led_regs-FansAgree w mode s.statics.is_led_already_custom (regs view s.world))

  policy_is_bypass :
      (w : Window) (f : ℕ → ℕ) (flag : Bool) (d v : ℕ)
      → let ec = detected p n155d w in
        let a = ram_addr ec ec.offsets.ram_thermal_policy_cpu in
        (update (update f a v) (ram_addr ec (fan_word cpu)) d a ≡ v)
        × (led_regs ec PowerLedMode.auto flag f a ≡ 0)
  policy_is_bypass at_c400 f flag d v = (refl, refl)
  policy_is_bypass _ f flag d v = (refl, refl)

  module _ {W : Type 0} (h : Host W) (view : W → I2ec) (chip : IsI2ec h (port_number p) view) where
    -- On every detected N155D, an accepted CPU fan mode sets the fan's policy register to the
    -- mode's policy, and applying the automatic LED mode next sets that register to 0, the policy
    -- of the automatic fan mode: the override of a full or custom fan mode is lost.
    pub n155d_led_clears_fan_policy :
        (w : Window) (mode : FanMode) (s : Daemon W)
        → IsSafeMode mode
        → let ec = detected p n155d w in
          let policy = ram_addr ec ec.offsets.ram_thermal_policy_cpu in
          let s1 = (apply_fan_mode h ec cpu mode s).1 in
          let s2 = (apply_led_mode h ec PowerLedMode.auto s1).1 in
          (regs view s1.world policy ≡ policy_of mode) × (regs view s2.world policy ≡ 0)
    n155d_led_clears_fan_policy w mode s safe =
        let ec = detected p n155d w in
        let policy = ram_addr ec ec.offsets.ram_thermal_policy_cpu in
        let s1 = (apply_fan_mode h ec cpu mode s).1 in
        let at_policy = λ (f : ℕ → ℕ). f policy in
        (
          ap at_policy (apply_fan_mode_sets h ec view chip cpu mode s safe).1
              ∙ (policy_is_bypass w (regs view s.world) s1.statics.is_led_already_custom
                  (duty_of mode) (policy_of mode)).0,
          ap at_policy (
                apply_led_mode_regs h ec (regs view) (i2ec-IsRegisterFile h ec view chip)
                  PowerLedMode.auto s1)
              ∙ (policy_is_bypass w (regs view s1.world) s1.statics.is_led_already_custom 0 0).1,
        )
