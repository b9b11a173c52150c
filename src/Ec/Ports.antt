-- ===== src/Ec/Ports.antt =====
-- The two port backends, over the calls of the operating system: daemon/src/ec/sys_linux.rs and
-- daemon/src/ec/sys_windows.rs.
use lecoo_control_center.Base.{ℕ, Bool, true, false, Option, none, some, ◌++◌, ◌==◌, if◌then◌else◌}
use lecoo_control_center.Base.Text.{Text, codes, hex_prefixed}
use lecoo_control_center.Base.Action.{Action, ok, err, ◌>>◌}
use lecoo_control_center.Ec.Host.{RawPortIo}

-- `/dev/port` on Linux, opened for reading and writing, or not: `write_at` of one byte, which succeeds or not, and `read_at` of at most
-- one byte: an error, no byte or a byte.
pub record DevPort (W : Type 0) : Type 0 where
  pub open_file : W → Bool × W
  pub write_at : ℕ → ℕ → W → Bool × W
  pub read_at : ℕ → W → Option (Option ℕ) × W

module _ {W : Type 0} (file : DevPort W) where
  -- `RawPortIo::new`
  unfoldable pub linux_new : Action W (Unit {0})
  linux_new w =
      let (opened, w') = file.open_file w in
      (if opened then ok tt else err (codes "Failed to open /dev/port. Are you root?"), w')

  abbrev pub linux_outb : ℕ → ℕ → Action W (Unit {0})
  linux_outb port val w =
      let (written, w') = file.write_at val port w in
      elim written [
        | true ↦ (ok tt, w')
        | false ↦ (err (codes "outb failed at port " ++ hex_prefixed port), w')
      ]

  -- The number of bytes read is not looked at: where none was read, the buffer still holds 0.
  abbrev pub linux_inb : ℕ → Action W ℕ
  linux_inb port w =
      let (got, w') = file.read_at port w in
      elim got [
        | none ↦ (err (codes "inb failed at port " ++ hex_prefixed port), w')
        | some none ↦ (ok 0, w')
        | some (some b) ↦ (ok b, w')
      ]

  abbrev pub linux_port_io : RawPortIo W
  linux_port_io = record { outb = linux_outb; inb = linux_inb }

-- `Out32` and `Inp32` of the driver on Windows, which report no failure.
pub record InpOut (W : Type 0) : Type 0 where
  -- Whether the library is loaded, whether it exports a name, and `IsInpOutDriverOpen`.
  pub load : W → Bool × W
  pub exports : Text → Bool
  pub is_open : W → ℕ × W
  pub out32 : ℕ → ℕ → W → W
  pub inp32 : ℕ → W → ℕ × W

module _ {W : Type 0} (lib : InpOut W) where
  abbrev pub not_loaded : Text
  not_loaded = codes "Failed to load inpoutx64.dll. Ensure it's placed next to daemon.exe."

  -- An export of the library, by `get` with its error's context.
  abbrev pub found : Text → Action W (Unit {0})
  found name w =
      (if lib.exports name then ok tt else err (name ++ codes " export not found in DLL"), w)

  abbrev pub driver_opened : Action W (Unit {0})
  driver_opened w =
      let (opened, w') = lib.is_open w in
      (
        if opened == 0
            then err (codes "InpOut driver failed to open. Try running as Administrator.")
            else ok tt,
        w',
      )

  abbrev pub library_loaded : Action W (Unit {0})
  library_loaded w = let (loaded, w') = lib.load w in (if loaded then ok tt else err not_loaded, w')

  -- `RawPortIo::new`
  unfoldable pub windows_new : Action W (Unit {0})
  windows_new = do
    library_loaded
    found (codes "IsInpOutDriverOpen")
    found (codes "Out32")
    found (codes "Inp32")
    driver_opened

  abbrev pub windows_outb : ℕ → ℕ → Action W (Unit {0})
  windows_outb port val w = (ok tt, lib.out32 port val w)

  abbrev pub windows_inb : ℕ → Action W ℕ
  windows_inb port w = let (b, w') = lib.inp32 port w in (ok b, w')

  abbrev pub windows_port_io : RawPortIo W
  windows_port_io = record { outb = windows_outb; inb = windows_inb }
