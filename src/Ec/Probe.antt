-- ===== src/Ec/Probe.antt =====
-- Finding the controller: `EcDevice::new` and `probe_chip` (daemon/src/ec/mod.rs), and the board's
-- name (`get_board_name` of daemon/src/services/systemd_service.rs). Logging is left out.
pub mod Returns
pub mod Detected
pub mod Finds
pub mod Present
pub mod Frame
use lecoo_control_center.Base.{
  ℕ, zero, suc, ◌+◌, ◌%◌, Bool, true, false, ◌||◌, ◌&&◌, Option, none, some, List, [], ◌∷◌, ltb,
  ◌==◌, if◌then◌else◌,
}
use lecoo_control_center.Base.Text.{Text, codes, contains, trim}
use lecoo_control_center.Base.Action.{
  Action, Outcome, ok, err, panicked, pure, fail, panic, attempt, modify, ◌>>=◌, ◌>>◌,
}
use lecoo_control_center.State.{Daemon, on_world}
use lecoo_control_center.Ec.Host.{Host}
use lecoo_control_center.Ec.Offsets.{EcOffsets, default_n155a, default_n155d}
use lecoo_control_center.Ec.Device.{EcDevice, read_reg}

abbrev pub trimmed_or_unknown : Option Text → Text
trimmed_or_unknown none = codes "Unknown Host"
trimmed_or_unknown (some name) = trim name

-- The tests on the motherboard's name.
unfoldable pub offsets_for : Text → EcOffsets
offsets_for motherboard =
    if contains (codes "N155A") motherboard
    then default_n155a
    else if contains (codes "N155C") motherboard
    then default_n155a
    else if contains (codes "N155D") motherboard
    then default_n155d
    else default_n155a

abbrev pub probe_ports : List ℕ
probe_ports = 0x2E ∷ 0x4E ∷ 0x6E ∷ []

abbrev pub possible_bases : List ℕ
possible_bases = 0xC400 ∷ 0xC000 ∷ 0x0400 ∷ 0x0000 ∷ 0xE000 ∷ []

-- The chip ids that `probe_chip` accepts.
abbrev pub is_known_chip : ℕ → Bool
is_known_chip chip_id =
    (chip_id == 0x55)
    || ((chip_id == 0x81) || ((chip_id == 0x85) || ((chip_id == 0x89) || (chip_id == 0x90))))

abbrev pub is_plausible_temp : ℕ → Bool
is_plausible_temp temp = ltb 0x10 temp && ltb temp 0x50

-- `if let Ok(v) = … { if test(v) { … } }` in a loop: what is found, or the later rounds.
abbrev pub on_answer :
    {S A : Type 0} → Outcome ℕ → (ℕ → Bool) → Action S A → Action S A → Action S A
on_answer (ok v) test found later = if test v then found else later
on_answer (err e) test found later = later
on_answer panicked test found later = panic

-- The match in the retry loop.
abbrev pub or_again : {S A : Type 0} → Outcome A → Action S A → Action S A
or_again (ok a) again = pure a
or_again (err e) again = again
or_again panicked again = panic

-- `device.offsets.reg_kbd_backlight += 0xC000` for the window at 0xC400.
unfoldable pub adjusted_offsets : ℕ → EcOffsets → EcOffsets
adjusted_offsets base offsets =
    if base == 0xC400
    then record offsets { reg_kbd_backlight = (offsets.reg_kbd_backlight + 0xC000) % 65536 }
    else offsets

-- The device before its window is known.
abbrev pub blank_device : EcOffsets → ℕ → EcDevice
blank_device offsets port = record { port = port; offsets = offsets; hram_offset = 0xFF }

module _ {W : Type 0} (h : Host W) where
  unfoldable pub get_board_name : Action (Daemon W) Text
  get_board_name = do name ← on_world h.read_board_name; pure (trimmed_or_unknown name)

  -- The loop of `probe_chip` over the ports; the last port tried stays in `self.port`.
  unfoldable pub probe_chip : EcOffsets → Bool → ℕ → List ℕ → Action (Daemon W) ℕ
  probe_chip offsets insecure_mode last [] =
      if insecure_mode
      then pure last
      else fail (codes "ITE IT5570/IT8987 chip not found on any known port")
  probe_chip offsets insecure_mode last (p ∷ ps) =
      let later = probe_chip offsets insecure_mode p ps in
      attempt (read_reg h (blank_device offsets p) 0x2000) >>= λ got.
      on_answer got is_known_chip (pure p) later

  -- The retry loop with so many attempts left. The last failure is the result.
  unfoldable pub probe_with_retries : EcOffsets → Bool → ℕ → Action (Daemon W) ℕ
  probe_with_retries offsets insecure_mode zero = probe_chip offsets insecure_mode 0 probe_ports
  probe_with_retries offsets insecure_mode (suc retries) =
      let again = probe_with_retries offsets insecure_mode retries in
      attempt (probe_chip offsets insecure_mode 0 probe_ports) >>= λ got.
      or_again got (on_world (h.sleep 400) >> again)

  -- The loop over the bases of the window; `none` is the offset 0xFF that is still set after it.
  unfoldable pub find_hram : EcOffsets → ℕ → List ℕ → Action (Daemon W) (Option ℕ)
  find_hram offsets port [] = pure none
  find_hram offsets port (base ∷ bases) =
      let later = find_hram offsets port bases in
      attempt (read_reg h (blank_device offsets port) ((base + offsets.ram_temp_cpu) % 65536))
      >>= λ got. on_answer got is_plausible_temp (pure (some base)) later

  -- The checks after the loop, and the adjustment of the keyboard register.
  abbrev pub device_at : EcOffsets → ℕ → Option ℕ → Action (Daemon W) EcDevice
  device_at offsets port none = fail (codes "Failed to detect HRAM window base address")
  device_at offsets port (some base) =
      pure (record { port = port; offsets = adjusted_offsets base offsets; hram_offset = base })

  -- `EcDevice::new`; `PROBE_ATTEMPTS` is 5.
  unfoldable pub new_device : Bool → Action (Daemon W) EcDevice
  new_device insecure_mode = do
    on_world h.open_ports
    motherboard ← get_board_name
    modify (λ s. record s { lock_held_since_ms = 0 })
    port ← probe_with_retries (offsets_for motherboard) insecure_mode 4
    base ← find_hram (offsets_for motherboard) port possible_bases
    device_at (offsets_for motherboard) port base
