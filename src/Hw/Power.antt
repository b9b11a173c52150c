-- ===== src/Hw/Power.antt =====
-- The power profile: daemon/src/ec/hw/power_profile.rs.
pub mod RoundTrip
use lecoo_control_center.Base.{ℕ, ◌++◌, ◌==◌, if◌then◌else◌}
use lecoo_control_center.Base.Text.{codes, decimal}
use lecoo_control_center.Base.Action.{Action, pure, fail, ◌>>=◌, ◌>>◌}
use lecoo_control_center.State.{Daemon}
use lecoo_control_center.Ec.Host.{Host}
use lecoo_control_center.Ec.Device.{EcDevice, read_ram, write_ram}
use lecoo_control_center.Ipc.Settings.{PowerProfile, profile_byte}
use lecoo_control_center.Ipc.Message.{IpcResponse, success}

module _ {W : Type 0} (h : Host W) where
  unfoldable pub apply_power_profile : EcDevice → PowerProfile → Action (Daemon W) IpcResponse
  apply_power_profile ec profile = do
    write_ram h ec ec.offsets.ram_power_profile (profile_byte profile)
    pure success

  abbrev pub profile_of : ℕ → Action (Daemon W) PowerProfile
  profile_of profile =
      if profile == 1
      then pure PowerProfile.silent
      else if profile == 2
      then pure PowerProfile.default
      else if profile == 3
      then pure PowerProfile.performance
      else fail (codes "Unknown power profile: " ++ decimal profile)

  unfoldable pub read_power_profile : EcDevice → Action (Daemon W) PowerProfile
  read_power_profile ec = do
    profile ← read_ram h ec ec.offsets.ram_power_profile
    profile_of profile
