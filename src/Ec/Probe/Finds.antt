-- ===== src/Ec/Probe/Finds.antt =====
-- The search for the window finds the first base that shows a plausible temperature.
use lecoo_control_center.Base.{
  ℕ, ◌+◌, ◌%◌, ◌≡◌, refl, ◌∙◌, ap, Bool, true, false, Option, none, some, List, [], ◌∷◌,
  if◌then◌else◌, arith,
}
use lecoo_control_center.Base.Action.{Action, ok, pure}
use lecoo_control_center.State.{Daemon}
use lecoo_control_center.Ec.Host.{Host}
use lecoo_control_center.Ec.I2ec.{I2ec, IsI2ec}
use lecoo_control_center.Ec.Offsets.{EcOffsets}
use lecoo_control_center.Ec.Device.{read_reg}
use lecoo_control_center.Ec.Registers.{regs, IsRegisterFile, i2ec-IsRegisterFile}
use lecoo_control_center.Ec.Probe.{is_plausible_temp, on_answer, blank_device, find_hram}

-- The first base whose temperature register holds a plausible value.
abbrev pub first_base : (ℕ → ℕ) → ℕ → List ℕ → Option ℕ
first_base f ram_temp_cpu [] = none
first_base f ram_temp_cpu (base ∷ bases) =
    let later = first_base f ram_temp_cpu bases in
    if is_plausible_temp (f ((base + ram_temp_cpu) % 65536)) then some base else later

twice : (n : ℕ) → n % 65536 % 65536 ≡ n % 65536
twice n = omega arith

module _ {W : Type 0} (h : Host W) (offsets : EcOffsets) (port : ℕ) (view : W → I2ec)
    (chip : IsI2ec h port view) where
  file : IsRegisterFile h (blank_device offsets port) (regs view)
  file = i2ec-IsRegisterFile h (blank_device offsets port) view chip

  chosen :
      (v base : ℕ) (next : Action (Daemon W) (Option ℕ)) (rest : Option ℕ) (s : Daemon W)
      → (next s).0 ≡ ok rest
      → (on_answer (ok v) is_plausible_temp (pure (some base)) next s).0
        ≡ ok (if is_plausible_temp v then some base else rest)
  chosen v base next rest s e = split (is_plausible_temp v)
    where
      split :
          (b : Bool)
          → ((if b then pure (some base) else next) s).0 ≡ ok (if b then some base else rest)
      split true = refl
      split false = e

  -- On an I2EC controller at the port, the search returns, and finds the first of the bases whose
  -- temperature register holds a plausible value, or none if no base has one.
  pub find_hram_first :
      (bases : List ℕ) (s : Daemon W)
      → (find_hram h offsets port bases s).0
        ≡ ok (first_base (regs view s.world) offsets.ram_temp_cpu bases)
  unfolding find_hram
  find_hram_first [] s = refl
  find_hram_first (base ∷ bases) s =
      let addr = (base + offsets.ram_temp_cpu) % 65536 in
      let s' = (read_reg h (blank_device offsets port) addr s).1 in
      let later = find_hram_first bases s' in
      let same = file.read_reg_regs addr s in
      rw (file.read_reg_ok addr s, twice (base + offsets.ram_temp_cpu))
        (chosen (regs view s.world addr) base (find_hram h offsets port bases) _ s'
          (later ∙ ap (λ (f : ℕ → ℕ). ok (first_base f offsets.ram_temp_cpu bases)) same))
