-- ===== src/Hw/Frame.antt =====
-- The hardware functions leave the daemon's statics alone on any host, whether or not they succeed;
-- `apply_led_mode` may change `IS_LED_ALREADY_CUSTOM` and nothing else.
use lecoo_control_center.Base.{◌≡◌, Bool, true, false}
use lecoo_control_center.State.{Statics}
use lecoo_control_center.Ec.Host.{Host}
use lecoo_control_center.Ec.Device.{EcDevice}
use lecoo_control_center.Ec.Frame.{Keeps, frame}
use lecoo_control_center.Ipc.Settings.{
  FanIndex, FanMode, ChargeLimit, KeyboardBacklightLevel, PowerProfile, PowerLedMode,
}
use lecoo_control_center.Hw.Fan.{apply_fan_mode, fan_setting}
use lecoo_control_center.Hw.Charge.{apply_charge_limit, read_charge_limit, read_battery_rsoc}
use lecoo_control_center.Hw.Getters.{read_system_info, read_fans_rpm, read_temperatures}
use lecoo_control_center.Hw.Keyboard.{apply_keyboard_backlight, read_keyboard_backlight}
use lecoo_control_center.Hw.Power.{apply_power_profile, read_power_profile}
use lecoo_control_center.Hw.Led.{
  reset_led_anim_engine, bypass_unless, enter_bypass, store_led_custom, apply_led_mode,
  apply_battery_leds,
}

module _ {X : Type 0} {obs : Statics → X} {W : Type 0} (h : Host W) where
  fan_setting-Keeps : (mode : FanMode) → Keeps obs (fan_setting h mode)
  fan_setting-Keeps FanMode.auto = search frame
  fan_setting-Keeps FanMode.full = search frame
  fan_setting-Keeps (FanMode.custom d) = search frame

  pub apply_fan_mode-Keeps :
      (ec : EcDevice) (fan : FanIndex) (mode : FanMode) → Keeps obs (apply_fan_mode h ec fan mode)
  unfolding apply_fan_mode
  apply_fan_mode-Keeps ec fan mode = search (frame, fan_setting-Keeps)

  pub apply_charge_limit-Keeps :
      (ec : EcDevice) (limit : ChargeLimit) → Keeps obs (apply_charge_limit h ec limit)
  unfolding apply_charge_limit
  apply_charge_limit-Keeps ec limit = search frame

  pub read_charge_limit-Keeps : (ec : EcDevice) → Keeps obs (read_charge_limit h ec)
  unfolding read_charge_limit
  read_charge_limit-Keeps ec = search frame

  pub read_battery_rsoc-Keeps : (ec : EcDevice) → Keeps obs (read_battery_rsoc h ec)
  unfolding read_battery_rsoc
  read_battery_rsoc-Keeps ec = search frame

  pub read_system_info-Keeps : (ec : EcDevice) → Keeps obs (read_system_info h ec)
  unfolding read_system_info
  read_system_info-Keeps ec = search frame depth 8

  pub read_fans_rpm-Keeps : (ec : EcDevice) → Keeps obs (read_fans_rpm h ec)
  unfolding read_fans_rpm
  read_fans_rpm-Keeps ec = search frame depth 9

  pub read_temperatures-Keeps : (ec : EcDevice) → Keeps obs (read_temperatures h ec)
  unfolding read_temperatures
  read_temperatures-Keeps ec = search frame depth 8

  pub apply_keyboard_backlight-Keeps :
      (ec : EcDevice) (level : KeyboardBacklightLevel)
      → Keeps obs (apply_keyboard_backlight h ec level)
  unfolding apply_keyboard_backlight
  apply_keyboard_backlight-Keeps ec (KeyboardBacklightLevel.custom v) = search frame depth 8
  apply_keyboard_backlight-Keeps ec level = search frame

  pub read_keyboard_backlight-Keeps : (ec : EcDevice) → Keeps obs (read_keyboard_backlight h ec)
  unfolding read_keyboard_backlight
  read_keyboard_backlight-Keeps ec = search frame depth 9

  pub apply_power_profile-Keeps :
      (ec : EcDevice) (profile : PowerProfile) → Keeps obs (apply_power_profile h ec profile)
  unfolding apply_power_profile
  apply_power_profile-Keeps ec profile = search frame

  pub read_power_profile-Keeps : (ec : EcDevice) → Keeps obs (read_power_profile h ec)
  unfolding read_power_profile
  read_power_profile-Keeps ec = search frame depth 8

  pub reset_led_anim_engine-Keeps : (ec : EcDevice) → Keeps obs (reset_led_anim_engine h ec)
  unfolding reset_led_anim_engine
  reset_led_anim_engine-Keeps ec = search frame depth 8

  pub apply_battery_leds-Keeps :
      (ec : EcDevice) (orange white : Bool) → Keeps obs (apply_battery_leds h ec orange white)
  unfolding apply_battery_leds
  apply_battery_leds-Keeps ec orange white = search frame

  module _
      (skips : (b : Bool) (t : Statics)
        → obs (record t { is_led_already_custom = b }) ≡ obs t) where
    store-Keeps : (b : Bool) → Keeps obs (store_led_custom h b)
    store-Keeps b = record { same = λ s. skips b s.statics }

    unless-Keeps : (ec : EcDevice) (b : Bool) → Keeps obs (bypass_unless h ec b)
    unless-Keeps ec true = search frame
    unless-Keeps ec false = search (frame, store-Keeps)

    enter-Keeps : (ec : EcDevice) → Keeps obs (enter_bypass h ec)
    unfolding enter_bypass
    enter-Keeps ec = record { same = λ s. (unless-Keeps ec s.statics.is_led_already_custom).same s }

    pub apply_led_mode-Keeps :
        (ec : EcDevice) (mode : PowerLedMode) → Keeps obs (apply_led_mode h ec mode)
    unfolding apply_led_mode
    apply_led_mode-Keeps ec PowerLedMode.auto =
        search (frame, store-Keeps, reset_led_anim_engine-Keeps)
    apply_led_mode-Keeps ec (PowerLedMode.custom b) =
        search (frame, enter-Keeps, reset_led_anim_engine-Keeps)
    apply_led_mode-Keeps ec (PowerLedMode.animation c) =
        search (frame, enter-Keeps, reset_led_anim_engine-Keeps) depth 10

pub ruleset hw_frame = (
  apply_fan_mode-Keeps, apply_charge_limit-Keeps, read_charge_limit-Keeps, read_battery_rsoc-Keeps,
  read_system_info-Keeps, read_fans_rpm-Keeps, read_temperatures-Keeps,
  apply_keyboard_backlight-Keeps, read_keyboard_backlight-Keeps, apply_power_profile-Keeps,
  read_power_profile-Keeps, apply_battery_leds-Keeps,
)
