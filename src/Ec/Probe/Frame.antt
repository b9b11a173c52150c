-- ===== src/Ec/Probe/Frame.antt =====
-- Finding the controller leaves the daemon's statics alone on any host, whether or not it succeeds.
use lecoo_control_center.Base.{ℕ, zero, suc, refl, Bool, Option, none, some, List, [], ◌∷◌}
use lecoo_control_center.Base.Action.{Action, Outcome, ok, err, panicked, modify}
use lecoo_control_center.State.{Daemon, Statics}
use lecoo_control_center.Ec.Host.{Host}
use lecoo_control_center.Ec.Offsets.{EcOffsets}
use lecoo_control_center.Ec.Frame.{Keeps, frame}
use lecoo_control_center.Ec.Probe.{
  on_answer, or_again, get_board_name, probe_chip, probe_with_retries, find_hram, device_at,
  new_device, probe_ports,
}

module _ {X : Type 0} {obs : Statics → X} {W : Type 0} where
  on_answer-Keeps :
      {A : Type 0} (got : Outcome ℕ) (test : ℕ → Bool) {found later : Action (Daemon W) A}
      → Keeps obs found
      → Keeps obs later
      → Keeps obs (on_answer got test found later)
  on_answer-Keeps (ok v) test f l = search frame
  on_answer-Keeps (err e) test f l = l
  on_answer-Keeps panicked test f l = search frame

  or_again-Keeps :
      {A : Type 0} (got : Outcome A) {again : Action (Daemon W) A}
      → Keeps obs again
      → Keeps obs (or_again got again)
  or_again-Keeps (ok a) k = search frame
  or_again-Keeps (err e) k = k
  or_again-Keeps panicked k = search frame

module _ {X : Type 0} {obs : Statics → X} {W : Type 0} (h : Host W) where
  probe_chip-Keeps :
      (offsets : EcOffsets) (insecure : Bool) (last : ℕ) (ports : List ℕ)
      → Keeps obs (probe_chip h offsets insecure last ports)
  unfolding probe_chip
  probe_chip-Keeps offsets insecure last [] = search frame
  probe_chip-Keeps offsets insecure last (p ∷ ps) =
      let later = probe_chip-Keeps offsets insecure p ps in search (frame, on_answer-Keeps)

  retries-Keeps :
      (offsets : EcOffsets) (insecure : Bool) (retries : ℕ)
      → Keeps obs (probe_with_retries h offsets insecure retries)
  unfolding probe_with_retries
  retries-Keeps offsets insecure zero = probe_chip-Keeps offsets insecure _ probe_ports
  retries-Keeps offsets insecure (suc n) =
      let later = retries-Keeps offsets insecure n in
      search (frame, or_again-Keeps, probe_chip-Keeps)

  find_hram-Keeps :
      (offsets : EcOffsets) (port : ℕ) (bases : List ℕ) → Keeps obs (find_hram h offsets port bases)
  unfolding find_hram
  find_hram-Keeps offsets port [] = search frame
  find_hram-Keeps offsets port (base ∷ bases) =
      let later = find_hram-Keeps offsets port bases in search (frame, on_answer-Keeps)

  board-Keeps : Keeps obs (get_board_name h)
  unfolding get_board_name
  board-Keeps = search frame

  device_at-Keeps :
      (offsets : EcOffsets) (port : ℕ) (base : Option ℕ) → Keeps obs (device_at h offsets port base)
  device_at-Keeps offsets port none = search frame
  device_at-Keeps offsets port (some base) = search frame

  unlock-Keeps : Keeps obs (modify (λ (s : Daemon W). record s { lock_held_since_ms = 0 }))
  unlock-Keeps = record { same = λ s. refl }

  pub new_device-Keeps : (insecure : Bool) → Keeps obs (new_device h insecure)
  unfolding new_device
  new_device-Keeps insecure =
      search (frame, board-Keeps, unlock-Keeps, retries-Keeps, find_hram-Keeps, device_at-Keeps)
        depth 10
