-- ===== src/Hw/Fan/Limit.antt =====
-- What `apply_fan_mode` does to the fan registers, and the limit on the duty cycle.
use lecoo_control_center.Base.{
  ℕ, ◌≤◌, ◌<◌, ◌≡◌, ◌≢◌, refl, ap, ◌++◌, arith, ltb, Bool-cases, inl, inr,
}
use lecoo_control_center.Base.Text.{codes, decimal}
use lecoo_control_center.Base.Action.{ok, err, proceed}
use lecoo_control_center.State.{Daemon}
use lecoo_control_center.Ec.Host.{Host}
use lecoo_control_center.Ec.I2ec.{I2ec, IsI2ec, update}
use lecoo_control_center.Ec.Device.{
  EcDevice, with_batch_result, with_batch_world, with_batch_statics, ram_addr,
}
use lecoo_control_center.Ec.Registers.{regs, IsRegisterFile, i2ec-IsRegisterFile}
use lecoo_control_center.Ipc.Settings.{FanIndex, FanMode, fan_word}
use lecoo_control_center.Hw.Fan.{apply_fan_mode, fan_setting, thermal_policy_override}

-- The modes that the hardware layer accepts.
abbrev pub IsSafeMode : FanMode → Type 0
IsSafeMode FanMode.auto = Unit
IsSafeMode FanMode.full = Unit
IsSafeMode (FanMode.custom d) = d ≤ 220

-- What a mode means to the controller: the policy byte and the duty cycle.
abbrev pub policy_of : FanMode → ℕ
policy_of FanMode.auto = 0
policy_of FanMode.full = 0x40
policy_of (FanMode.custom d) = 0x40

abbrev pub duty_of : FanMode → ℕ
duty_of FanMode.auto = 0
duty_of FanMode.full = 150
duty_of (FanMode.custom d) = d

module _ {W : Type 0} (h : Host W) where
  -- On any host, a duty cycle above 220 is refused before the bus is touched: the state is the one
  -- before the call, and the error names the value.
  pub apply_fan_mode_refuses :
      (ec : EcDevice) (fan : FanIndex) (d : ℕ) (s : Daemon W)
      → 220 < d
      → apply_fan_mode h ec fan (FanMode.custom d) s ≡ (
        err (
            codes "Requested fan duty cycle ("
            ++ (decimal d ++ codes ") exceeds safe limit (220).")),
        s,
      )
  unfolding apply_fan_mode
  apply_fan_mode_refuses ec fan d s p = ground arith

  setting_of_safe :
      (mode : FanMode) (s : Daemon W)
      → IsSafeMode mode
      → fan_setting h mode s ≡ (ok (policy_of mode, duty_of mode), s)
  setting_of_safe FanMode.auto s p = refl
  setting_of_safe FanMode.full s p = refl
  setting_of_safe (FanMode.custom d) s p = ground arith

module _ {W : Type 0} (h : Host W) (ec : EcDevice) (r : W → ℕ → ℕ)
    (file : IsRegisterFile h ec r) where
  abbrev Sets : FanIndex → FanMode → Daemon W → Type 0
  Sets fan mode s =
      ((apply_fan_mode h ec fan mode s).0 ≡ ok tt)
      × (r (apply_fan_mode h ec fan mode s).1.world
          ≡ update
              (update (r s.world) (ram_addr ec (thermal_policy_override ec.offsets fan))
                (policy_of mode))
              (ram_addr ec (fan_word fan)) (duty_of mode))
      × ((apply_fan_mode h ec fan mode s).1.statics ≡ s.statics)

  apply_ok : (fan : FanIndex) (mode : FanMode) (s : Daemon W) → IsSafeMode mode → Sets fan mode s
  unfolding apply_fan_mode
  apply_ok fan mode s p = rw (setting_of_safe h mode s p) (
    simp (proceed, with_batch_result, file.batch_write_ram_ok),
    simp (proceed, with_batch_world, file.batch_write_ram_ok)
        (simp (file.batch_write_ram_regs, file.clock)),
    simp (proceed, with_batch_statics, file.batch_write_ram_ok, file.batch_write_ram_statics),
  )

module _ {W : Type 0} (h : Host W) (ec : EcDevice) (view : W → I2ec)
    (chip : IsI2ec h ec.port view) where
  -- On an I2EC controller every accepted mode succeeds, writes its policy byte and then its duty
  -- cycle, changes no other register, and leaves the daemon's statics alone.
  pub apply_fan_mode_sets :
      (fan : FanIndex) (mode : FanMode) (s : Daemon W)
      → IsSafeMode mode
      → ((apply_fan_mode h ec fan mode s).0 ≡ ok tt)
        × (regs view (apply_fan_mode h ec fan mode s).1.world
            ≡ update
                (update
                  (regs view s.world)
                  (ram_addr ec (thermal_policy_override ec.offsets fan))
                  (policy_of mode))
                (ram_addr ec (fan_word fan))
                (duty_of mode))
        × ((apply_fan_mode h ec fan mode s).1.statics ≡ s.statics)
  apply_fan_mode_sets = apply_ok h ec (regs view) (i2ec-IsRegisterFile h ec view chip)

  limit_of_safe :
      (fan other : FanIndex) (mode : FanMode) (s : Daemon W)
      → IsSafeMode mode
      → duty_of mode ≤ 220
      → ram_addr ec (thermal_policy_override ec.offsets fan) ≢ ram_addr ec (fan_word other)
      → regs view s.world (ram_addr ec (fan_word other)) ≤ 220
      → regs view (apply_fan_mode h ec fan mode s).1.world (ram_addr ec (fan_word other)) ≤ 220
  limit_of_safe fan other mode s safe fits ne b = ground (
    arith,
    ap (λ (f : ℕ → ℕ). f (ram_addr ec (fan_word other))) (apply_fan_mode_sets fan mode s safe).1,
  )

  -- Whatever mode is asked for and however the call ends, the duty register of either fan holds at
  -- most 220 afterwards if it did before, where the two duty registers and the policy register
  -- written are different ones.
  pub apply_fan_mode_limit :
      (fan other : FanIndex) (mode : FanMode) (s : Daemon W)
      → ram_addr ec (thermal_policy_override ec.offsets fan) ≢ ram_addr ec (fan_word other)
      → regs view s.world (ram_addr ec (fan_word other)) ≤ 220
      → regs view (apply_fan_mode h ec fan mode s).1.world (ram_addr ec (fan_word other)) ≤ 220
  apply_fan_mode_limit fan other FanMode.auto s ne b =
      limit_of_safe fan other FanMode.auto s tt (omega arith) ne b
  apply_fan_mode_limit fan other FanMode.full s ne b =
      limit_of_safe fan other FanMode.full s tt (omega arith) ne b
  apply_fan_mode_limit fan other (FanMode.custom d) s ne b = elim (Bool-cases (ltb 220 d)) [
    | inl over ↦ rw (apply_fan_mode_refuses h ec fan d s (ground arith)) b
    | inr fits ↦ limit_of_safe fan other (FanMode.custom d) s (ground arith) (ground arith) ne b
  ]
