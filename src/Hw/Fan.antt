-- ===== src/Hw/Fan.antt =====
-- The fans: daemon/src/ec/hw/fan.rs.
pub mod Limit
use lecoo_control_center.Base.{ℕ, ◌++◌, ◌≡◌, ltb, if◌then◌else◌}
use lecoo_control_center.Base.Text.{codes, decimal}
use lecoo_control_center.Base.Action.{Action, pure, fail, ◌>>=◌, ◌>>◌}
use lecoo_control_center.State.{Daemon}
use lecoo_control_center.Ec.Host.{Host}
use lecoo_control_center.Ec.Offsets.{EcOffsets}
use lecoo_control_center.Ec.Device.{EcDevice, with_batch, batch_write_ram}
use lecoo_control_center.Ipc.Settings.{FanIndex, FanMode, cpu, gpu, fan_word}

-- The register that overrides the thermal policy of a fan.
abbrev pub thermal_policy_override : EcOffsets → FanIndex → ℕ
thermal_policy_override offsets cpu = offsets.ram_thermal_policy_cpu
thermal_policy_override offsets gpu = offsets.ram_thermal_policy_gpu

module _ {W : Type 0} (h : Host W) where
  -- The match on the mode: the policy byte and the duty cycle, or the refusal.
  abbrev pub fan_setting : FanMode → Action (Daemon W) (ℕ × ℕ)
  fan_setting FanMode.auto = pure (0x00, 0)
  fan_setting FanMode.full = pure (0x40, 150)
  fan_setting (FanMode.custom d) =
      if ltb 220 d
      then fail
          (codes "Requested fan duty cycle (" ++ (decimal d ++ codes ") exceeds safe limit (220)."))
      else pure (0x40, d)

  unfoldable pub apply_fan_mode : EcDevice → FanIndex → FanMode → Action (Daemon W) (Unit {0})
  apply_fan_mode ec fan mode = do
    (policy, duty) ← fan_setting mode
    with_batch h (do
      batch_write_ram h ec (thermal_policy_override ec.offsets fan) policy
      batch_write_ram h ec (fan_word fan) duty)
