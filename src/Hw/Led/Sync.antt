-- ===== src/Hw/Led/Sync.antt =====
-- What the LED ring shows after a mode is applied on a detected device, and that the flag
-- `IS_LED_ALREADY_CUSTOM` stays true to the controller.
use lecoo_control_center.Base.{
  ℕ, ◌/◌, ◌%◌, ◌≡◌, refl, sym, ap, subst, Bool, true, false, ◌⊎◌, inl, inr,
}
use lecoo_control_center.Base.Action.{ok}
use lecoo_control_center.State.{Daemon, Statics}
use lecoo_control_center.Ec.Host.{Host}
use lecoo_control_center.Ec.I2ec.{I2ec, IsI2ec}
use lecoo_control_center.Ec.Device.{EcDevice, ram_addr}
use lecoo_control_center.Ec.Registers.{regs, i2ec-IsRegisterFile}
use lecoo_control_center.Ec.Probe.Detected.{
  SuperIoPort, Board, Window, n155a, at_c400, detected, port_number,
}
use lecoo_control_center.Ipc.Breath.{
  BreathConfig, BreathBrightness, BreathStep, BreathDelay, brightness_bits, step_bits, delay_bits,
  max25percent, slow, ms15,
}
use lecoo_control_center.Ipc.Settings.{PowerLedMode}
use lecoo_control_center.Hw.Led.{apply_led_mode, lcr1_val, lcr2_val}
use lecoo_control_center.Hw.Led.Writes.{
  bypass_regs, led_regs, led_flag, apply_led_mode_ok, apply_led_mode_regs, apply_led_mode_statics,
}

-- The fields of the two bytes of the breathing engine, as its registers lay them out.
pub record Lays (config : BreathConfig) (step delay : ℕ) : Type 0 where
  pub brightness : step / 16 % 4 ≡ brightness_bits config.max_brightness
  pub down : step / 4 % 4 ≡ step_bits config.step_down
  pub up : step % 4 ≡ step_bits config.step_up
  pub at_max : delay / 16 % 8 ≡ delay_bits config.delay_at_max
  pub at_min : delay % 8 ≡ delay_bits config.delay_at_min
  pub in_byte : (step / 64 ≡ 0) × (delay / 128 ≡ 0)

step_fields :
    (b : BreathBrightness) (u d : BreathStep) (x y : BreathDelay)
    → let v = lcr1_val (record {
      max_brightness = b;
      step_up = u;
      step_down = d;
      delay_at_max = x;
      delay_at_min = y;
    }) in
      (v / 16 % 4 ≡ brightness_bits b)
      × (v / 4 % 4 ≡ step_bits d)
      × (v % 4 ≡ step_bits u)
      × (v / 64 ≡ 0)
unfolding lcr1_val
step_fields max25percent slow slow x y = (refl, refl, refl, refl)
step_fields _ slow slow x y = (refl, refl, refl, refl)
step_fields _ _ slow x y = (refl, refl, refl, refl)
step_fields _ _ _ x y = (refl, refl, refl, refl)

delay_fields :
    (b : BreathBrightness) (u d : BreathStep) (x y : BreathDelay)
    → let v = lcr2_val (record {
      max_brightness = b;
      step_up = u;
      step_down = d;
      delay_at_max = x;
      delay_at_min = y;
    }) in
      (v / 16 % 8 ≡ delay_bits x) × (v % 8 ≡ delay_bits y) × (v / 128 ≡ 0)
unfolding lcr2_val
delay_fields b u d ms15 ms15 = (refl, refl, refl)
delay_fields b u d _ ms15 = (refl, refl, refl)
delay_fields b u d _ _ = (refl, refl, refl)

-- No two of the five fields of a breathing configuration overlap in the two register bytes: each
-- is read back from its own bits, and no bit above them is set.
pub config-Lays : (config : BreathConfig) → Lays config (lcr1_val config) (lcr2_val config)
config-Lays c =
    let s = step_fields c.max_brightness c.step_up c.step_down c.delay_at_max c.delay_at_min in
    let d = delay_fields c.max_brightness c.step_up c.step_down c.delay_at_max c.delay_at_min in
    record {
      brightness = s.0;
      down = s.1;
      up = s.2;
      at_max = d.0;
      at_min = d.1;
      in_byte = (s.3, d.2);
    }

module _ (ec : EcDevice) where
  -- The ring is in manual mode.
  abbrev pub IsManual : (ℕ → ℕ) → Type 0
  IsManual f =
      (f (ram_addr ec ec.offsets.ram_led_bypass) ≡ 1) × (f (ec.offsets.reg_gpio_a0_mux % 65536) ≡ 0)

  -- What the registers hold for each mode.
  abbrev pub Shows : PowerLedMode → (ℕ → ℕ) → Type 0
  Shows PowerLedMode.auto f =
      (f (ram_addr ec ec.offsets.ram_led_bypass) ≡ 0)
      × (f (ec.offsets.reg_led_breath_en % 65536) ≡ 0)
  Shows (PowerLedMode.custom b) f =
      IsManual f
      × (f (ec.offsets.reg_led_breath_en % 65536) ≡ 0)
      × (f (ec.offsets.reg_pwm_duty % 65536) ≡ b)
  Shows (PowerLedMode.animation c) f =
      IsManual f
      × (f (ec.offsets.reg_led_breath_en % 65536) ≡ 1)
      × Lays c (f (ec.offsets.reg_led_breath_step % 65536))
          (f (ec.offsets.reg_led_breath_delay % 65536))

  -- The flag is down, or the controller is in manual mode.
  abbrev pub InSync : Bool → (ℕ → ℕ) → Type 0
  InSync flag f = (flag ≡ false) ⊎ IsManual f

module _ (p : SuperIoPort) where
  bypass-IsManual :
      (b : Board) (w : Window) (flag : Bool) (f : ℕ → ℕ)
      → InSync (detected p b w) flag f
      → IsManual (detected p b w) (bypass_regs (detected p b w) flag f)
  bypass-IsManual b w true f (inr m) = m
  bypass-IsManual b w true f (inl e) = cc
  bypass-IsManual n155a at_c400 false f i = (refl, refl)
  bypass-IsManual _ at_c400 false f i = (refl, refl)
  bypass-IsManual _ _ false f i = (refl, refl)

  -- The registers of a detected device that a mode writes are different ones, so each shows the
  -- last byte written to it.
  auto-Shows :
      (b : Board) (w : Window) (flag : Bool) (f : ℕ → ℕ)
      → Shows
          (detected p b w)
          PowerLedMode.auto
          (led_regs (detected p b w) PowerLedMode.auto flag f)
  auto-Shows n155a at_c400 flag f = (refl, refl)
  auto-Shows _ at_c400 flag f = (refl, refl)
  auto-Shows _ _ flag f = (refl, refl)

  custom-Shows :
      (b : Board) (w : Window) (v : ℕ) (flag : Bool) (f : ℕ → ℕ)
      → IsManual (detected p b w) (bypass_regs (detected p b w) flag f)
      → Shows
          (detected p b w)
          (PowerLedMode.custom v)
          (led_regs (detected p b w) (PowerLedMode.custom v) flag f)
  custom-Shows n155a at_c400 v flag f m = (m, refl, refl)
  custom-Shows _ at_c400 v flag f m = (m, refl, refl)
  custom-Shows _ _ v flag f m = (m, refl, refl)

  animation-Shows :
      (b : Board) (w : Window) (c : BreathConfig) (flag : Bool) (f : ℕ → ℕ)
      → IsManual (detected p b w) (bypass_regs (detected p b w) flag f)
      → Shows
          (detected p b w)
          (PowerLedMode.animation c)
          (led_regs (detected p b w) (PowerLedMode.animation c) flag f)
  animation-Shows n155a at_c400 c flag f m = (m, refl, config-Lays c)
  animation-Shows _ at_c400 c flag f m = (m, refl, config-Lays c)
  animation-Shows _ _ c flag f m = (m, refl, config-Lays c)

  led_regs-Shows :
      (b : Board) (w : Window) (mode : PowerLedMode) (flag : Bool) (f : ℕ → ℕ)
      → InSync (detected p b w) flag f
      → Shows (detected p b w) mode (led_regs (detected p b w) mode flag f)
        × InSync (detected p b w) (led_flag mode) (led_regs (detected p b w) mode flag f)
  led_regs-Shows b w PowerLedMode.auto flag f i = (auto-Shows b w flag f, inl refl)
  led_regs-Shows b w (PowerLedMode.custom v) flag f i =
      let shown = custom-Shows b w v flag f (bypass-IsManual b w flag f i) in (shown, inr shown.0)
  led_regs-Shows b w (PowerLedMode.animation c) flag f i =
      let shown = animation-Shows b w c flag f (bypass-IsManual b w flag f i) in
      (shown, inr shown.0)

  module _ {W : Type 0} (h : Host W) (view : W → I2ec) (chip : IsI2ec h (port_number p) view) where
    -- On a detected device whose flag is in sync with the controller, applying a mode succeeds,
    -- the controller's registers hold what the mode stands for (the ring is in manual mode unless
    -- the mode is automatic, and each field of an animation reads back from its own bits), the
    -- flag is up exactly if the mode is not automatic, and it is in sync again.
    pub apply_led_mode-Shows :
        (b : Board) (w : Window) (mode : PowerLedMode) (s : Daemon W)
        → InSync (detected p b w) s.statics.is_led_already_custom (regs view s.world)
        → let (done, s') = apply_led_mode h (detected p b w) mode s in
          (done ≡ ok tt)
          × Shows (detected p b w) mode (regs view s'.world)
          × (s'.statics.is_led_already_custom ≡ led_flag mode)
          × InSync (detected p b w) s'.statics.is_led_already_custom (regs view s'.world)
    apply_led_mode-Shows b w mode s i =
        let ec = detected p b w in
        let file = i2ec-IsRegisterFile h ec view chip in
        let s' = (apply_led_mode h ec mode s).1 in
        let written = apply_led_mode_regs h ec (regs view) file mode s in
        let flagged =
          ap (λ (t : Statics). t.is_led_already_custom)
            (apply_led_mode_statics h ec (regs view) file mode s) in
        let shown = led_regs-Shows b w mode s.statics.is_led_already_custom (regs view s.world) i in
        (
          apply_led_mode_ok h ec (regs view) file mode s,
          subst (Shows ec mode) (sym written) shown.0,
          flagged,
          subst (λ f. InSync ec f (regs view s'.world)) (sym flagged)
              (subst (InSync ec (led_flag mode)) (sym written) shown.1),
        )
