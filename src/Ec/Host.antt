-- ===== src/Ec/Host.antt =====
-- What the daemon asks of the machine that it runs on. `W` is everything outside the daemon: the
-- chip, the clock and the file system. `RawPortIo` is the interface of the two port backends in
-- Ec/Ports; the other fields of `Host` are calls of the standard library and of bincode.
use lecoo_control_center.Base.{ℕ, Bool, Option}
use lecoo_control_center.Base.Text.{Text}
use lecoo_control_center.Base.Action.{Action}
use lecoo_control_center.Ipc.Settings.{CurrentSettings}

pub record RawPortIo (W : Type 0) : Type 0 where
  pub outb : ℕ → ℕ → Action W (Unit {0})
  pub inb : ℕ → Action W ℕ

pub record Host (W : Type 0) : Type 0 where
  pub io : RawPortIo W
  -- `RawPortIo::new`, and `thread::sleep` of so many milliseconds.
  pub open_ports : Action W (Unit {0})
  pub sleep : ℕ → Action W (Unit {0})
  -- The board's name as the system keeps it; `none` if it cannot be read.
  pub read_board_name : Action W (Option Text)
  -- The time since the epoch in milliseconds; `none` for a clock before it.
  pub now_ms : W → Option ℕ × W
  -- The hash of the current time, by the default hasher.
  pub hash_now : W → ℕ × W
  -- The state file: `fs::exists`, `create_dir_all` on its folder, `File::create`, the encoder,
  -- `File::open` and the decoder.
  pub state_exists : Action W Bool
  pub create_state_dir : Action W (Unit {0})
  pub create_state_file : Action W (Unit {0})
  pub encode_settings : CurrentSettings → Action W (Unit {0})
  pub open_state_file : Action W (Unit {0})
  pub decode_settings : Action W CurrentSettings
