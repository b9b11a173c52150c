-- ===== src/Hw/Led.antt =====
-- The LED ring and the battery LEDs: daemon/src/ec/hw/led.rs.
pub mod Writes
pub mod Sync
pub mod Fans
use Prim.Native.Nat.{bit_or, bit_and}
use lecoo_control_center.Base.{ℕ, ◌*◌, ◌-◌, ◌%◌, Bool, true, false, if◌then◌else◌}
use lecoo_control_center.Base.Action.{Action, pure, gets, modify, ◌>>=◌, ◌>>◌}
use lecoo_control_center.State.{Daemon}
use lecoo_control_center.Ec.Host.{Host}
use lecoo_control_center.Ec.Device.{
  EcDevice, read_reg, write_reg, write_ram, with_batch, batch_write_reg,
}
use lecoo_control_center.Ipc.Breath.{BreathConfig, brightness_bits, step_bits, delay_bits}
use lecoo_control_center.Ipc.Settings.{PowerLedMode}

-- The two bytes of the breathing engine; the shifts are on `u8`.
unfoldable pub lcr1_val : BreathConfig → ℕ
lcr1_val config =
    bit_or
      (bit_or (brightness_bits config.max_brightness * 16 % 256)
        (step_bits config.step_down * 4 % 256))
      (step_bits config.step_up)

unfoldable pub lcr2_val : BreathConfig → ℕ
lcr2_val config =
    bit_or (delay_bits config.delay_at_max * 16 % 256) (delay_bits config.delay_at_min)

-- `port_a &= !mask` and `port_a |= mask` on `u8`.
abbrev pub led_on : ℕ → ℕ → ℕ
led_on mask port_a = bit_and port_a (255 - mask)

abbrev pub led_off : ℕ → ℕ → ℕ
led_off mask port_a = bit_or port_a mask

module _ {W : Type 0} (h : Host W) where
  unfoldable pub reset_led_anim_engine : EcDevice → Action (Daemon W) (Unit {0})
  reset_led_anim_engine ec = with_batch h (do
    batch_write_reg h ec ec.offsets.reg_led_breath_en 0x00
    batch_write_reg h ec ec.offsets.reg_pwm_prescaler 0x00
    batch_write_reg h ec ec.offsets.reg_pwm_cycle 0xFF)

  -- `IS_LED_ALREADY_CUSTOM.store`
  abbrev pub store_led_custom : Bool → Action (Daemon W) (Unit {0})
  store_led_custom b =
      modify (λ s. record s { statics = record (s.statics) { is_led_already_custom = b } })

  -- The block that the arms `Custom` and `Animation` begin with, once the flag is loaded.
  abbrev pub bypass_unless : EcDevice → Bool → Action (Daemon W) (Unit {0})
  bypass_unless ec true = pure tt
  bypass_unless ec false = do
    write_ram h ec ec.offsets.ram_led_bypass 0x01
    write_reg h ec ec.offsets.reg_gpio_a0_mux 0x00
    store_led_custom true

  unfoldable pub enter_bypass : EcDevice → Action (Daemon W) (Unit {0})
  enter_bypass ec = do
    already ← gets (λ s. s.statics.is_led_already_custom)
    bypass_unless ec already

  unfoldable pub apply_led_mode : EcDevice → PowerLedMode → Action (Daemon W) (Unit {0})
  apply_led_mode ec PowerLedMode.auto = do
    write_ram h ec ec.offsets.ram_led_bypass 0x00
    reset_led_anim_engine ec
    store_led_custom false
  apply_led_mode ec (PowerLedMode.custom brightness) = do
    enter_bypass ec
    reset_led_anim_engine ec
    write_reg h ec ec.offsets.reg_pwm_duty brightness
  apply_led_mode ec (PowerLedMode.animation config) = do
    enter_bypass ec
    reset_led_anim_engine ec
    write_reg h ec ec.offsets.reg_pwm_prescaler 0x00
    write_reg h ec ec.offsets.reg_pwm_cycle 0xFF
    write_reg h ec ec.offsets.reg_led_breath_step (lcr1_val config)
    write_reg h ec ec.offsets.reg_led_breath_delay (lcr2_val config)
    write_reg h ec ec.offsets.reg_led_breath_en 0x01

  -- The byte that `apply_battery_leds` writes back.
  abbrev pub battery_leds : EcDevice → Bool → Bool → ℕ → ℕ
  battery_leds ec orange_on white_on port_a =
      let orange =
        if orange_on
        then led_on ec.offsets.mask_orange_led port_a
        else led_off ec.offsets.mask_orange_led port_a in
      if white_on
      then led_on ec.offsets.mask_white_led orange
      else led_off ec.offsets.mask_white_led orange

  unfoldable pub apply_battery_leds : EcDevice → Bool → Bool → Action (Daemon W) (Unit {0})
  apply_battery_leds ec orange_on white_on = do
    port_a ← read_reg h ec ec.offsets.reg_gpdra
    write_reg h ec ec.offsets.reg_gpdra (battery_leds ec orange_on white_on port_a)
