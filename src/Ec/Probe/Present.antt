-- ===== src/Ec/Probe/Present.antt =====
-- A controller that is there is found.
use lecoo_control_center.Base.{
  ℕ, ◌≡◌, refl, ◌∙◌, ap, subst, Bool, true, false, Option, some, List, [], ◌∷◌, ◌++◌,
}
use lecoo_control_center.Base.Text.{Text}
use lecoo_control_center.Base.Action.{Action, Outcome, ok, err, panicked, proceed, reify}
use lecoo_control_center.State.{Daemon}
use lecoo_control_center.Ec.Host.{Host}
use lecoo_control_center.Ec.I2ec.{I2ec, IsI2ec}
use lecoo_control_center.Ec.Offsets.{EcOffsets}
use lecoo_control_center.Ec.Device.{read_reg}
use lecoo_control_center.Ec.Registers.{regs, IsRegisterFile, i2ec-IsRegisterFile}
use lecoo_control_center.Ec.Probe.{
  is_known_chip, on_answer, adjusted_offsets, blank_device, trimmed_or_unknown, offsets_for,
  possible_bases, probe_ports, get_board_name, probe_chip, probe_with_retries, new_device,
}
use lecoo_control_center.Ec.Probe.Finds.{first_base, find_hram_first}

-- What a probe gives at a port without a controller: an error or a chip that is not known.
abbrev pub IsUnknown : Outcome ℕ → Type 0
IsUnknown (ok v) = is_known_chip v ≡ false
IsUnknown (err e) = Unit
IsUnknown panicked = ⊥

-- A probe of the port finds no known chip, and leaves the controller's registers alone.
pub record IsAbsent {W : Type 0} (h : Host W) (view : W → I2ec) (port : ℕ) : Type 0 where
  pub unknown :
      (o : EcOffsets) (s : Daemon W) → IsUnknown (read_reg h (blank_device o port) 0x2000 s).0
  pub kept :
      (o : EcOffsets) (s : Daemon W)
      → regs view (read_reg h (blank_device o port) 0x2000 s).1.world ≡ regs view s.world

abbrev pub AllAbsent : {W : Type 0} → Host W → (W → I2ec) → List ℕ → Type 0
AllAbsent h view [] = Unit
AllAbsent h view (p ∷ ps) = IsAbsent h view p × AllAbsent h view ps

-- The calls before the probe: the ports can be opened and the board's name can be asked for, which
-- leaves the registers alone.
pub record IsReady {W : Type 0} (h : Host W) (view : W → I2ec) (name : Option Text) : Type 0 where
  pub opens : (w : W) → (h.open_ports w).0 ≡ ok tt
  pub open_keeps : (w : W) → regs view (h.open_ports w).1 ≡ regs view w
  pub named : (w : W) → (h.read_board_name w).0 ≡ ok name
  pub name_keeps : (w : W) → regs view (h.read_board_name w).1 ≡ regs view w

module _ {W : Type 0} (h : Host W) (port : ℕ) (view : W → I2ec) (chip : IsI2ec h port view) where
  file : (offsets : EcOffsets) → IsRegisterFile h (blank_device offsets port) (regs view)
  file offsets = i2ec-IsRegisterFile h (blank_device offsets port) view chip

  -- The probe gives the port, and leaves the registers alone.
  abbrev Probed : Outcome ℕ × Daemon W → (ℕ → ℕ) → Type 0
  Probed r f = (r.0 ≡ ok port) × (regs view r.1.world ≡ f)

  passed :
      (o : Outcome ℕ) (found later : Action (Daemon W) ℕ) (s : Daemon W) (f : ℕ → ℕ)
      → IsUnknown o
      → Probed (later s) f
      → Probed (proceed (reify o) (λ got. on_answer got is_known_chip found later) s) f
  passed (ok v) found later s f e p = rw e p
  passed (err m) found later s f e p = p
  passed panicked found later s f e p = absurd e

  probe_chip-Probed :
      (offsets : EcOffsets) (insecure : Bool) (last : ℕ) (skipped rest : List ℕ) (s : Daemon W)
      → AllAbsent h view skipped
      → is_known_chip (regs view s.world 0x2000) ≡ true
      → Probed (probe_chip h offsets insecure last (skipped ++ port ∷ rest) s) (regs view s.world)
  unfolding probe_chip
  probe_chip-Probed offsets insecure last [] rest s a known =
      simp ((file offsets).read_reg_ok, known) (refl, (file offsets).read_reg_regs 0x2000 s)
  probe_chip-Probed offsets insecure last (p ∷ ps) rest s a known =
      let t = (read_reg h (blank_device offsets p) 0x2000 s).1 in
      let same = a.0.kept offsets s in
      let later =
        probe_chip-Probed offsets insecure p ps rest t a.1
          (ap (λ (f : ℕ → ℕ). is_known_chip (f 0x2000)) same ∙ known) in
      passed (read_reg h (blank_device offsets p) 0x2000 s).0 _ _ t _ (a.0.unknown offsets s)
        (later.0, later.1 ∙ same)

  retries-Probed :
      (offsets : EcOffsets) (insecure : Bool) (skipped rest : List ℕ) (s : Daemon W)
      → skipped ++ port ∷ rest ≡ probe_ports
      → AllAbsent h view skipped
      → is_known_chip (regs view s.world 0x2000) ≡ true
      → Probed (probe_with_retries h offsets insecure 4 s) (regs view s.world)
  unfolding probe_with_retries
  retries-Probed offsets insecure skipped rest s e a known =
      let p = probe_chip-Probed offsets insecure 0 skipped rest s a known in
      let q =
        subst (λ ports. Probed (probe_chip h offsets insecure 0 ports s) (regs view s.world)) e p in
      rw q.0 (refl, q.1)

  -- The state in which the ports are probed.
  abbrev asked : Daemon W → Daemon W
  asked s = record s {
    world = (h.read_board_name (h.open_ports s.world).1).1;
    lock_held_since_ms = 0;
  }

  -- A controller with a known chip id at one of the probed ports, no known chip at the ports before
  -- it, and a plausible temperature in one of the windows: then `EcDevice::new` returns the device at
  -- that port, in the first such window, for the board of that name.
  pub new_device_finds :
      (insecure : Bool) (name : Option Text) (skipped rest : List ℕ) (base : ℕ) (s : Daemon W)
      → IsReady h view name
      → skipped ++ port ∷ rest ≡ probe_ports
      → AllAbsent h view skipped
      → is_known_chip (regs view s.world 0x2000) ≡ true
      → first_base
          (regs view s.world)
          (offsets_for (trimmed_or_unknown name)).ram_temp_cpu
          possible_bases
        ≡ some base
      → (new_device h insecure s).0
        ≡ ok (record {
          port = port;
          offsets = adjusted_offsets base (offsets_for (trimmed_or_unknown name));
          hram_offset = base;
        })
  unfolding new_device get_board_name
  new_device_finds insecure name skipped rest base s ready e absent known found =
      let offsets = offsets_for (trimmed_or_unknown name) in
      let same : regs view (asked s).world ≡ regs view s.world =
        ready.name_keeps _ ∙ ready.open_keeps _ in
      let probed =
        retries-Probed offsets insecure skipped rest (asked s) e absent
          (ap (λ (f : ℕ → ℕ). is_known_chip (f 0x2000)) same ∙ known) in
      let t = (probe_with_retries h offsets insecure 4 (asked s)).1 in
      let window =
        find_hram_first h offsets port view chip possible_bases t
        ∙ ap (λ (f : ℕ → ℕ). ok (first_base f offsets.ram_temp_cpu possible_bases))
            (probed.1 ∙ same)
        ∙ ap (λ o. ok o) found in
      rw (ready.opens s.world, ready.named (h.open_ports s.world).1, probed.0, window) refl
