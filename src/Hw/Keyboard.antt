-- ===== src/Hw/Keyboard.antt =====
-- The keyboard backlight: daemon/src/ec/hw/kbd_backlight.rs.
pub mod RoundTrip
use lecoo_control_center.Base.{ℕ, ◌++◌, ◌==◌, if◌then◌else◌}
use lecoo_control_center.Base.Text.{codes, hex_prefixed_byte}
use lecoo_control_center.Base.Action.{Action, pure, fail, ◌>>=◌, ◌>>◌}
use lecoo_control_center.State.{Daemon}
use lecoo_control_center.Ec.Host.{Host}
use lecoo_control_center.Ec.Device.{
  EcDevice, read_reg, write_reg, with_batch, batch_write_reg, batch_write_ram,
}
use lecoo_control_center.Ipc.Settings.{KeyboardBacklightLevel}

module _ {W : Type 0} (h : Host W) where
  -- The match on the level register.
  abbrev pub level_of : EcDevice → ℕ → Action (Daemon W) KeyboardBacklightLevel
  level_of ec v =
      if v == 0x00
      then pure KeyboardBacklightLevel.off
      else if v == 0x01
      then pure KeyboardBacklightLevel.low
      else if v == 0x02
      then pure KeyboardBacklightLevel.medium
      else if v == 0x03
      then pure KeyboardBacklightLevel.high
      else if v == 0xFF
      then (do
        custom_value ← read_reg h ec ec.offsets.reg_kbd_custom_val
        pure (KeyboardBacklightLevel.custom custom_value))
      else fail (codes "Invalid keyboard backlight level: " ++ hex_prefixed_byte v)

  unfoldable pub read_keyboard_backlight : EcDevice → Action (Daemon W) KeyboardBacklightLevel
  read_keyboard_backlight ec = do v ← read_reg h ec ec.offsets.reg_kbd_backlight; level_of ec v

  unfoldable pub apply_keyboard_backlight :
      EcDevice → KeyboardBacklightLevel → Action (Daemon W) (Unit {0})
  apply_keyboard_backlight ec KeyboardBacklightLevel.off = do
    write_reg h ec ec.offsets.reg_kbd_backlight 0x00
    pure tt
  apply_keyboard_backlight ec KeyboardBacklightLevel.low = do
    write_reg h ec ec.offsets.reg_kbd_backlight 0x01
    pure tt
  apply_keyboard_backlight ec KeyboardBacklightLevel.medium = do
    write_reg h ec ec.offsets.reg_kbd_backlight 0x02
    pure tt
  apply_keyboard_backlight ec KeyboardBacklightLevel.high = do
    write_reg h ec ec.offsets.reg_kbd_backlight 0x03
    pure tt
  apply_keyboard_backlight ec (KeyboardBacklightLevel.custom v) = do
    with_batch h (do
      batch_write_ram h ec ec.offsets.ram_kbd_bypass_timeout 0xFF
      batch_write_reg h ec ec.offsets.reg_gpio_a4_mux 0x00
      batch_write_reg h ec ec.offsets.reg_kbd_backlight 0xFF
      batch_write_reg h ec ec.offsets.reg_kbd_custom_val v)
    pure tt
