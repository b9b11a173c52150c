-- ===== src/Ec/Probe/Detected.antt =====
-- The devices that `EcDevice::new` can return.
use lecoo_control_center.Base.{
  ℕ, zero, suc, ◌+◌, ◌%◌, ◌≡◌, refl, Bool, true, false, Option, none, some, List, [], ◌∷◌, inl, inr,
  Bool-cases,
}
use lecoo_control_center.Base.Text.{Text, codes, contains}
use lecoo_control_center.Base.Action.{Action, pure, modify, ◌>>=◌, ◌>>◌}
use lecoo_control_center.State.{Daemon, on_world}
use lecoo_control_center.Ec.Host.{Host}
use lecoo_control_center.Ec.Offsets.{EcOffsets, default_n155a, default_n155d}
use lecoo_control_center.Ec.Device.{EcDevice, read_reg}
use lecoo_control_center.Ec.Probe.{
  probe_ports, possible_bases, offsets_for, blank_device, probe_chip, probe_with_retries, find_hram,
  device_at, new_device, adjusted_offsets, get_board_name, is_known_chip, is_plausible_temp,
}
use lecoo_control_center.Ec.Probe.Returns.{
  Returns, answer-Returns, again-Returns, bind-Returns, Returns-ok,
}

pub data SuperIoPort : Type 0 where
  at_2e at_4e at_6e : SuperIoPort

abbrev pub port_number : SuperIoPort → ℕ
port_number at_2e = 0x2E
port_number at_4e = 0x4E
port_number at_6e = 0x6E

pub data Board : Type 0 where
  n155a n155d : Board

abbrev pub board_offsets : Board → EcOffsets
board_offsets n155a = default_n155a
board_offsets n155d = default_n155d

pub data Window : Type 0 where
  at_c400 at_c000 at_0400 at_0000 at_e000 : Window

abbrev pub base_of : Window → ℕ
base_of at_c400 = 0xC400
base_of at_c000 = 0xC000
base_of at_0400 = 0x0400
base_of at_0000 = 0x0000
base_of at_e000 = 0xE000

abbrev pub window_offsets : Window → EcOffsets → EcOffsets
window_offsets at_c400 offsets = record offsets { reg_kbd_backlight = 0xCF05 }
window_offsets _ offsets = offsets

abbrev pub detected : SuperIoPort → Board → Window → EcDevice
detected p b w = record {
  port = port_number p;
  offsets = window_offsets w (board_offsets b);
  hram_offset = base_of w;
}

-- A device that one of the ports, boards and windows gives.
abbrev pub IsDetected : EcDevice → Type 0
IsDetected ec = (p : SuperIoPort) × (b : Board) × (w : Window) × (ec ≡ detected p b w)

abbrev IsPort : ℕ → Type 0
IsPort n = (p : SuperIoPort) × (n ≡ port_number p)

offsets_for-board : (name : Text) → (b : Board) × (offsets_for name ≡ board_offsets b)
unfolding offsets_for
offsets_for-board name = elim (Bool-cases (contains (codes "N155A") name)) [
  | inl a ↦ (n155a, rw a)
  | inr not_a ↦ elim (Bool-cases (contains (codes "N155C") name)) [
    | inl c ↦ (n155a, rw (not_a, c))
    | inr not_c ↦ elim (Bool-cases (contains (codes "N155D") name)) [
      | inl d ↦ (n155d, rw (not_a, not_c, d))
      | inr not_d ↦ (n155a, rw (not_a, not_c, not_d))
    ]
  ]
]

abbrev AllPorts : List ℕ → Type 0
AllPorts [] = Unit
AllPorts (p ∷ ps) = IsPort p × AllPorts ps

abbrev IsBase : Option ℕ → Type 0
IsBase none = Unit
IsBase (some n) = (w : Window) × (n ≡ base_of w)

abbrev AllBases : List ℕ → Type 0
AllBases [] = Unit
AllBases (n ∷ ns) = IsBase (some n) × AllBases ns

module _ {W : Type 0} (h : Host W) where
  probe_chip-IsPort :
      (offsets : EcOffsets) (insecure : Bool) (last : ℕ) (ps : List ℕ) (s : Daemon W)
      → IsPort last
      → AllPorts ps
      → Returns IsPort (probe_chip h offsets insecure last ps s).0
  unfolding probe_chip
  probe_chip-IsPort offsets true last [] s l a = l
  probe_chip-IsPort offsets false last [] s l a = tt
  probe_chip-IsPort offsets insecure last (q ∷ ps) s l a =
      answer-Returns IsPort (read_reg h (blank_device offsets q) 0x2000 s).0 is_known_chip (pure q)
        _ _ a.0 (probe_chip-IsPort offsets insecure q ps _ a.0 a.1)

  probe_ports-IsPort :
      (offsets : EcOffsets) (insecure : Bool) (s : Daemon W)
      → Returns IsPort (probe_chip h offsets insecure 0 probe_ports s).0
  unfolding probe_chip
  probe_ports-IsPort offsets insecure s =
      answer-Returns IsPort (read_reg h (blank_device offsets 0x2E) 0x2000 s).0 is_known_chip
        (pure 0x2E) _ _ (at_2e, refl)
        (probe_chip-IsPort offsets insecure 0x2E (0x4E ∷ 0x6E ∷ []) _ (at_2e, refl)
          ((at_4e, refl), ((at_6e, refl), tt)))

  retries-IsPort :
      (offsets : EcOffsets) (insecure : Bool) (n : ℕ) (s : Daemon W)
      → Returns IsPort (probe_with_retries h offsets insecure n s).0
  unfolding probe_with_retries
  retries-IsPort offsets insecure zero s = probe_ports-IsPort offsets insecure s
  retries-IsPort offsets insecure (suc n) s =
      again-Returns IsPort (probe_chip h offsets insecure 0 probe_ports s).0 _ _
        (probe_ports-IsPort offsets insecure s)
        (bind-Returns IsPort (on_world (h.sleep 400)) (λ _. probe_with_retries h offsets insecure n)
          (probe_chip h offsets insecure 0 probe_ports s).1
          (λ b e. retries-IsPort offsets insecure n _))

  find_hram-IsBase :
      (offsets : EcOffsets) (port : ℕ) (bases : List ℕ) (s : Daemon W)
      → AllBases bases
      → Returns IsBase (find_hram h offsets port bases s).0
  unfolding find_hram
  find_hram-IsBase offsets port [] s a = tt
  find_hram-IsBase offsets port (n ∷ ns) s a =
      answer-Returns IsBase
        (read_reg h (blank_device offsets port) ((n + offsets.ram_temp_cpu) % 65536) s).0
        is_plausible_temp (pure (some n)) _ _ a.0 (find_hram-IsBase offsets port ns _ a.1)

  adjusted_board :
      (b : Board) (w : Window)
      → adjusted_offsets (base_of w) (board_offsets b) ≡ window_offsets w (board_offsets b)
  unfolding adjusted_offsets
  adjusted_board n155a at_c400 = refl
  adjusted_board _ at_c400 = refl
  adjusted_board _ _ = refl

  possible_bases-AllBases : AllBases possible_bases
  possible_bases-AllBases = (
    (at_c400, refl),
    ((at_c000, refl), ((at_0400, refl), ((at_0000, refl), ((at_e000, refl), tt)))),
  )

  device_at-IsDetected :
      (name : Text) (port : ℕ) (base : Option ℕ) (s : Daemon W)
      → IsPort port
      → IsBase base
      → Returns IsDetected (device_at h (offsets_for name) port base s).0
  device_at-IsDetected name port none s p b = tt
  device_at-IsDetected name port (some n) s (p, ep) (w, en) =
      let (b, eb) = offsets_for-board name in (p, b, w, rw (ep, en, eb, adjusted_board b w))

  abbrev after_port : Text → ℕ → Action (Daemon W) EcDevice
  after_port name port = find_hram h (offsets_for name) port possible_bases >>= λ base.
      device_at h (offsets_for name) port base

  after_port-IsDetected :
      (name : Text) (port : ℕ) (s : Daemon W)
      → IsPort port
      → Returns IsDetected (after_port name port s).0
  after_port-IsDetected name port s p =
      bind-Returns IsDetected (find_hram h (offsets_for name) port possible_bases)
        (λ base. device_at h (offsets_for name) port base) s
        λ base e.
          device_at-IsDetected name port base
            (find_hram h (offsets_for name) port possible_bases s).1 p
            (Returns-ok IsBase _
              (find_hram-IsBase (offsets_for name) port possible_bases s possible_bases-AllBases) e)

  abbrev after_name : Bool → Text → Action (Daemon W) EcDevice
  after_name insecure name =
      modify (λ (t : Daemon W). record t { lock_held_since_ms = 0 })
      >> (probe_with_retries h (offsets_for name) insecure 4 >>= after_port name)

  after_name-IsDetected :
      (insecure : Bool) (name : Text) (s : Daemon W)
      → Returns IsDetected (after_name insecure name s).0
  after_name-IsDetected insecure name s =
      let t : Daemon W = record s { lock_held_since_ms = 0 } in
      bind-Returns IsDetected (probe_with_retries h (offsets_for name) insecure 4) (after_port name)
        t
        λ port e.
          after_port-IsDetected name port _
            (Returns-ok IsPort _ (retries-IsPort (offsets_for name) insecure 4 t) e)

  -- Every device that `EcDevice::new` returns is one that a probed port, a known board and a
  -- possible window base give, on any host and whether or not unknown hardware is accepted.
  pub new_device-IsDetected :
      (insecure : Bool) (s : Daemon W) → Returns IsDetected (new_device h insecure s).0
  unfolding new_device
  new_device-IsDetected insecure s =
      bind-Returns IsDetected (on_world h.open_ports)
        (λ _. get_board_name h >>= after_name insecure) s
        λ _ _.
          bind-Returns IsDetected (get_board_name h) (after_name insecure)
            (on_world h.open_ports s).1
            λ name _.
              after_name-IsDetected insecure name (get_board_name h (on_world h.open_ports s).1).1
