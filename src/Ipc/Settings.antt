-- ===== src/Ipc/Settings.antt =====
-- The settings that the daemon keeps and the client sets (ipc/src/structs.rs). A `u8`, `u16` or
-- `u64` is a natural number.
use lecoo_control_center.Base.{
  ℕ, Bool, true, Option, none, some, ◌&&◌, ltb, ◌==◌, if◌then◌else◌, ◌++◌,
}
use lecoo_control_center.Base.Text.{Text, codes, decimal}
use lecoo_control_center.Ipc.Breath.{BreathConfig}

pub data PowerProfile : Type 0 where
  silent default performance : PowerProfile

-- `*profile as u8`
abbrev pub profile_byte : PowerProfile → ℕ
profile_byte silent = 0x01
profile_byte default = 0x02
profile_byte performance = 0x03

abbrev pub display_profile : PowerProfile → Text
display_profile silent = codes "Silent"
display_profile default = codes "Default"
display_profile performance = codes "Performance"

pub data KeyboardBacklightLevel : Type 0 where
  off low medium high : KeyboardBacklightLevel
  custom : ℕ → KeyboardBacklightLevel

abbrev pub display_level : KeyboardBacklightLevel → Text
display_level off = codes "Off"
display_level low = codes "Low"
display_level medium = codes "Medium"
display_level high = codes "High"
display_level (custom u) = codes "Custom: " ++ (decimal u ++ codes "/255")

pub data FanMode : Type 0 where
  auto full : FanMode
  custom : ℕ → FanMode

pub data FanIndex : Type 0 where
  cpu gpu : FanIndex

-- `*fan as u16`
abbrev pub fan_word : FanIndex → ℕ
fan_word cpu = 0x4B
fan_word gpu = 0x4D

pub data ChargeLimit : Type 0 where
  full_capacity high_capacity balanced maximum_lifespan desk_mode : ChargeLimit

unfoldable pub as_percent : ChargeLimit → ℕ × ℕ
as_percent full_capacity = (0, 0)
as_percent high_capacity = (90, 95)
as_percent balanced = (70, 80)
as_percent maximum_lifespan = (55, 60)
as_percent desk_mode = (40, 50)

unfoldable pub from_predefined : ℕ → ℕ → Option ChargeLimit
from_predefined min max =
    if ltb max min
    then none
    else if (min == 0) && (max == 0)
    then some full_capacity
    else if (min == 90) && (max == 95)
    then some high_capacity
    else if (min == 70) && (max == 80)
    then some balanced
    else if (min == 55) && (max == 60)
    then some maximum_lifespan
    else if (min == 40) && (max == 50)
    then some desk_mode
    else none

pub data PowerLedMode : Type 0 where
  auto : PowerLedMode
  custom : ℕ → PowerLedMode
  animation : BreathConfig → PowerLedMode

pub record CurrentSettings : Type 0 where
  pub power_profile : PowerProfile
  pub keyboard_backlight : KeyboardBacklightLevel
  pub fan_mode_cpu : FanMode
  pub fan_mode_gpu : FanMode
  pub charge_limit : ChargeLimit
  pub led_mode : PowerLedMode
  pub telemetry_enabled : Bool
  pub telemetry_client_id : ℕ

-- `CurrentSettings::default`, at the client id that the hasher returns for the current time.
abbrev pub default_settings : ℕ → CurrentSettings
default_settings client_id = record {
  power_profile = PowerProfile.default;
  keyboard_backlight = KeyboardBacklightLevel.medium;
  fan_mode_cpu = FanMode.auto;
  fan_mode_gpu = FanMode.auto;
  charge_limit = full_capacity;
  led_mode = PowerLedMode.auto;
  telemetry_enabled = true;
  telemetry_client_id = client_id;
}
