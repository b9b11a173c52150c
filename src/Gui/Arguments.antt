-- ===== src/Gui/Arguments.antt =====
-- The arguments of the window's commands and what they become (gui/src/tauri_cmds.rs). Reading them
-- from JSON is the library's part.
use lecoo_control_center.Base.{ℕ}
use lecoo_control_center.Ipc.Breath.{BreathBrightness, BreathStep, BreathDelay, BreathConfig}
use lecoo_control_center.Ipc.Settings.{
  PowerProfile, KeyboardBacklightLevel, FanMode, FanIndex, ChargeLimit, PowerLedMode,
}

pub data PowerProfileArg : Type 0 where
  silent default performance : PowerProfileArg

pub data FanArg : Type 0 where
  cpu gpu : FanArg

pub data FanModeArg : Type 0 where
  auto full : FanModeArg
  custom : ℕ → FanModeArg

pub data ChargeLimitArg : Type 0 where
  full_capacity high_capacity balanced maximum_lifespan desk_mode : ChargeLimitArg

pub data KeyboardBacklightArg : Type 0 where
  off low medium high : KeyboardBacklightArg
  custom : ℕ → KeyboardBacklightArg

pub data BreathBrightnessArg : Type 0 where
  max25percent max50percent max75percent max100percent : BreathBrightnessArg

pub data BreathStepArg : Type 0 where
  slow medium fast instant : BreathStepArg

pub data BreathDelayArg : Type 0 where
  ms15 ms125 ms250 sec0_5 sec1 sec2 sec4 : BreathDelayArg

pub record BreathConfigArg : Type 0 where
  pub max_brightness : BreathBrightnessArg
  pub step_up : BreathStepArg
  pub step_down : BreathStepArg
  pub delay_at_max : BreathDelayArg
  pub delay_at_min : BreathDelayArg

pub data PowerLedModeArg : Type 0 where
  auto : PowerLedModeArg
  custom : ℕ → PowerLedModeArg
  animation : BreathConfigArg → PowerLedModeArg

abbrev pub profile_from : PowerProfileArg → PowerProfile
profile_from PowerProfileArg.silent = PowerProfile.silent
profile_from PowerProfileArg.default = PowerProfile.default
profile_from PowerProfileArg.performance = PowerProfile.performance

abbrev pub fan_from : FanArg → FanIndex
fan_from FanArg.cpu = FanIndex.cpu
fan_from FanArg.gpu = FanIndex.gpu

abbrev pub fan_mode_from : FanModeArg → FanMode
fan_mode_from FanModeArg.auto = FanMode.auto
fan_mode_from FanModeArg.full = FanMode.full
fan_mode_from (FanModeArg.custom pwm) = FanMode.custom pwm

abbrev pub charge_limit_from : ChargeLimitArg → ChargeLimit
charge_limit_from ChargeLimitArg.full_capacity = ChargeLimit.full_capacity
charge_limit_from ChargeLimitArg.high_capacity = ChargeLimit.high_capacity
charge_limit_from ChargeLimitArg.balanced = ChargeLimit.balanced
charge_limit_from ChargeLimitArg.maximum_lifespan = ChargeLimit.maximum_lifespan
charge_limit_from ChargeLimitArg.desk_mode = ChargeLimit.desk_mode

abbrev pub backlight_from : KeyboardBacklightArg → KeyboardBacklightLevel
backlight_from KeyboardBacklightArg.off = KeyboardBacklightLevel.off
backlight_from KeyboardBacklightArg.low = KeyboardBacklightLevel.low
backlight_from KeyboardBacklightArg.medium = KeyboardBacklightLevel.medium
backlight_from KeyboardBacklightArg.high = KeyboardBacklightLevel.high
backlight_from (KeyboardBacklightArg.custom value) = KeyboardBacklightLevel.custom value

abbrev pub brightness_from : BreathBrightnessArg → BreathBrightness
brightness_from BreathBrightnessArg.max25percent = BreathBrightness.max25percent
brightness_from BreathBrightnessArg.max50percent = BreathBrightness.max50percent
brightness_from BreathBrightnessArg.max75percent = BreathBrightness.max75percent
brightness_from BreathBrightnessArg.max100percent = BreathBrightness.max100percent

abbrev pub step_from : BreathStepArg → BreathStep
step_from BreathStepArg.slow = BreathStep.slow
step_from BreathStepArg.medium = BreathStep.medium
step_from BreathStepArg.fast = BreathStep.fast
step_from BreathStepArg.instant = BreathStep.instant

abbrev pub delay_from : BreathDelayArg → BreathDelay
delay_from BreathDelayArg.ms15 = BreathDelay.ms15
delay_from BreathDelayArg.ms125 = BreathDelay.ms125
delay_from BreathDelayArg.ms250 = BreathDelay.ms250
delay_from BreathDelayArg.sec0_5 = BreathDelay.sec0_5
delay_from BreathDelayArg.sec1 = BreathDelay.sec1
delay_from BreathDelayArg.sec2 = BreathDelay.sec2
delay_from BreathDelayArg.sec4 = BreathDelay.sec4

abbrev pub config_from : BreathConfigArg → BreathConfig
config_from b = record {
  max_brightness = brightness_from b.max_brightness;
  step_up = step_from b.step_up;
  step_down = step_from b.step_down;
  delay_at_max = delay_from b.delay_at_max;
  delay_at_min = delay_from b.delay_at_min;
}

abbrev pub led_mode_from : PowerLedModeArg → PowerLedMode
led_mode_from PowerLedModeArg.auto = PowerLedMode.auto
led_mode_from (PowerLedModeArg.custom value) = PowerLedMode.custom value
led_mode_from (PowerLedModeArg.animation config) = PowerLedMode.animation (config_from config)
