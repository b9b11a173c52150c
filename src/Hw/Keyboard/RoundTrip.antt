-- ===== src/Hw/Keyboard/RoundTrip.antt =====
-- A keyboard backlight level that is applied is the one that is read back.
use lecoo_control_center.Base.{ℕ, ◌%◌, ◌≡◌, ◌≢◌, refl, ap, arith}
use lecoo_control_center.Base.Action.{ok, proceed}
use lecoo_control_center.State.{Daemon}
use lecoo_control_center.Ec.Host.{Host}
use lecoo_control_center.Ec.I2ec.{I2ec, IsI2ec, update}
use lecoo_control_center.Ec.Device.{
  EcDevice, ram_addr, read_reg, with_batch_result, with_batch_world, with_batch_statics,
}
use lecoo_control_center.Ec.Registers.{regs, IsRegisterFile, read_reg_at, i2ec-IsRegisterFile}
use lecoo_control_center.Ipc.Settings.{KeyboardBacklightLevel}
use lecoo_control_center.Hw.Keyboard.{read_keyboard_backlight, apply_keyboard_backlight}

-- The byte that the level register shows for a level.
abbrev pub level_byte : KeyboardBacklightLevel → ℕ
level_byte KeyboardBacklightLevel.off = 0
level_byte KeyboardBacklightLevel.low = 1
level_byte KeyboardBacklightLevel.medium = 2
level_byte KeyboardBacklightLevel.high = 3
level_byte (KeyboardBacklightLevel.custom v) = 0xFF

module _ (ec : EcDevice) where
  abbrev pub level_addr : ℕ
  level_addr = ec.offsets.reg_kbd_backlight % 65536

  abbrev pub value_addr : ℕ
  value_addr = ec.offsets.reg_kbd_custom_val % 65536

  -- The registers after a level is applied.
  abbrev pub level_regs : KeyboardBacklightLevel → (ℕ → ℕ) → ℕ → ℕ
  level_regs (KeyboardBacklightLevel.custom v) f =
      update
        (update
          (update (update f (ram_addr ec ec.offsets.ram_kbd_bypass_timeout) 0xFF)
            (ec.offsets.reg_gpio_a4_mux % 65536) 0x00)
          level_addr 0xFF)
        value_addr v
  level_regs KeyboardBacklightLevel.off f = update f level_addr 0
  level_regs KeyboardBacklightLevel.low f = update f level_addr 1
  level_regs KeyboardBacklightLevel.medium f = update f level_addr 2
  level_regs KeyboardBacklightLevel.high f = update f level_addr 3

module _ {W : Type 0} (h : Host W) (ec : EcDevice) (r : W → ℕ → ℕ)
    (file : IsRegisterFile h ec r) where
  pub apply_keyboard_backlight_ok :
      (level : KeyboardBacklightLevel) (s : Daemon W)
      → (apply_keyboard_backlight h ec level s).0 ≡ ok tt
  unfolding apply_keyboard_backlight
  apply_keyboard_backlight_ok (KeyboardBacklightLevel.custom v) s =
      simp (proceed, with_batch_result, file.batch_write_ram_ok, file.batch_write_reg_ok)
  apply_keyboard_backlight_ok level s = simp (proceed, file.write_reg_ok)

  pub apply_keyboard_backlight_regs :
      (level : KeyboardBacklightLevel) (s : Daemon W)
      → r (apply_keyboard_backlight h ec level s).1.world ≡ level_regs ec level (r s.world)
  unfolding apply_keyboard_backlight
  apply_keyboard_backlight_regs (KeyboardBacklightLevel.custom v) s =
      simp
        (
          proceed, with_batch_result, with_batch_world, file.batch_write_ram_ok,
          file.batch_write_reg_ok,
        )
        (simp (file.batch_write_reg_regs, file.batch_write_ram_regs, file.clock))
  apply_keyboard_backlight_regs level s =
      simp (proceed, file.write_reg_ok) (simp file.write_reg_regs)

  pub apply_keyboard_backlight_statics :
      (level : KeyboardBacklightLevel) (s : Daemon W)
      → (apply_keyboard_backlight h ec level s).1.statics ≡ s.statics
  unfolding apply_keyboard_backlight
  apply_keyboard_backlight_statics (KeyboardBacklightLevel.custom v) s =
      simp
        (
          proceed, with_batch_result, with_batch_statics, file.batch_write_ram_ok,
          file.batch_write_reg_ok,
        )
        (simp (file.batch_write_reg_statics, file.batch_write_ram_statics))
  apply_keyboard_backlight_statics level s =
      simp (proceed, file.write_reg_ok, file.write_reg_statics)

module _ {W : Type 0} (h : Host W) (ec : EcDevice) (view : W → I2ec)
    (chip : IsI2ec h ec.port view) where
  file : IsRegisterFile h ec (regs view)
  file = i2ec-IsRegisterFile h ec view chip

  -- What the registers must show for a level to be read.
  abbrev Shows : KeyboardBacklightLevel → Daemon W → Type 0
  Shows level s =
      (regs view s.world (level_addr ec) ≡ level_byte level)
      × ((v : ℕ) → level ≡ KeyboardBacklightLevel.custom v → regs view s.world (value_addr ec) ≡ v)

  read_shown :
      (level : KeyboardBacklightLevel) (s : Daemon W)
      → Shows level s
      → (read_keyboard_backlight h ec s).0 ≡ ok level
  unfolding read_keyboard_backlight
  read_shown (KeyboardBacklightLevel.custom v) s (e, c) = ground (
    arith,
    c v refl,
    file.read_reg_ok ec.offsets.reg_kbd_backlight s,
    file.read_reg_ok ec.offsets.reg_kbd_custom_val (read_reg h ec ec.offsets.reg_kbd_backlight s).1,
    read_reg_at file ec.offsets.reg_kbd_backlight s (value_addr ec),
  )
  read_shown KeyboardBacklightLevel.off s (e, c) =
      ground (arith, file.read_reg_ok ec.offsets.reg_kbd_backlight s)
  read_shown KeyboardBacklightLevel.low s (e, c) =
      ground (arith, file.read_reg_ok ec.offsets.reg_kbd_backlight s)
  read_shown KeyboardBacklightLevel.medium s (e, c) =
      ground (arith, file.read_reg_ok ec.offsets.reg_kbd_backlight s)
  read_shown KeyboardBacklightLevel.high s (e, c) =
      ground (arith, file.read_reg_ok ec.offsets.reg_kbd_backlight s)

  applied_shown :
      (level : KeyboardBacklightLevel) (s : Daemon W)
      → level_addr ec ≢ value_addr ec
      → Shows level (apply_keyboard_backlight h ec level s).1
  applied_shown (KeyboardBacklightLevel.custom v) s ne =
      let written =
        apply_keyboard_backlight_regs h ec (regs view) file (KeyboardBacklightLevel.custom v) s in
      (
        ground (arith, ap (λ (f : ℕ → ℕ). f (level_addr ec)) written),
        λ w e. ground (arith, ap (λ (f : ℕ → ℕ). f (value_addr ec)) written),
      )
  applied_shown level s ne = (
    ground (
      arith,
      ap (λ (f : ℕ → ℕ). f (level_addr ec))
          (apply_keyboard_backlight_regs h ec (regs view) file level s),
    ),
    λ w e. cc,
  )

  -- On an I2EC controller whose level register and custom value's register are different ones,
  -- applying a level succeeds, and reading the level afterwards gives it back, the value of a custom level included.
  pub keyboard_backlight_round_trip :
      (level : KeyboardBacklightLevel) (s : Daemon W)
      → ec.offsets.reg_kbd_backlight % 65536 ≢ ec.offsets.reg_kbd_custom_val % 65536
      → let (done, s') = apply_keyboard_backlight h ec level s in
        (done ≡ ok tt) × ((read_keyboard_backlight h ec s').0 ≡ ok level)
  keyboard_backlight_round_trip level s ne = (
    apply_keyboard_backlight_ok h ec (regs view) file level s,
    read_shown level _ (applied_shown level s ne),
  )
