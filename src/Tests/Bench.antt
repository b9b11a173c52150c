-- ===== src/Tests/Bench.antt =====
-- A machine to run the daemon on: one controller at port 0x4E, a clock that ticks, and a state
-- file. It shows that what the theorems ask of a host can be met.
use lecoo_control_center.Base.{
  ℕ, ◌+◌, refl, true, false, Option, none, some, ◌==◌, ◌&&◌, if◌then◌else◌, [], arith,
}
use lecoo_control_center.Base.Text.{codes}
use lecoo_control_center.Base.Action.{ok, err, Outcome, Action}
use lecoo_control_center.State.{Daemon}
use lecoo_control_center.Ipc.Settings.{CurrentSettings, default_settings}
use lecoo_control_center.Ec.Host.{Host}
use lecoo_control_center.Ec.I2ec.{I2ec, IsI2ec, write_index, write_data, address}
use lecoo_control_center.Ec.Offsets.{default_n155a, default_n155d}
use lecoo_control_center.Ec.Device.{EcDevice}

pub record Machine : Type 0 where
  pub chip : I2ec
  pub time : ℕ
  pub file : Option CurrentSettings

abbrev pub bench_outb : ℕ → ℕ → Action Machine (Unit {0})
bench_outb port val m = (
  ok tt,
  if port == 0x4E
      then record m { chip = write_index m.chip val }
      else if port == 0x4F
      then record m { chip = write_data m.chip val }
      else m,
)

abbrev pub bench_inb : ℕ → Action Machine ℕ
bench_inb port m =
    if port == 0x4F
    then (
      ok (
          if (m.chip.index == 0x2F) && (m.chip.selector == 0x12)
          then m.chip.regs (address m.chip)
          else 0),
      m,
    )
    else (ok 0xFF, m)

abbrev pub or_missing : {A : Type 0} → Option A → Outcome A
or_missing none = err (codes "missing")
or_missing (some a) = ok a

abbrev pub bench : Host Machine
bench = record {
  io = record { outb = bench_outb; inb = bench_inb };
  open_ports = λ m. (ok tt, m);
  sleep = λ ms m. (ok tt, record m { time = m.time + ms });
  read_board_name = λ m. (ok (some (codes " N155A-15 ")), m);
  now_ms = λ m. (some m.time, record m { time = m.time + 1 });
  hash_now = λ m. (m.time, record m { time = m.time + 1 });
  state_exists = λ m. (ok (elim m.file [ none ↦ false | some _ ↦ true ]), m);
  create_state_dir = λ m. (ok tt, m);
  create_state_file = λ m. (ok tt, m);
  encode_settings = λ s m. (ok tt, record m { file = some s });
  open_state_file = λ m. (ok tt, m);
  decode_settings = λ m. (or_missing m.file, m);
}

pub bench-IsI2ec : IsI2ec bench 0x4E (λ m. m.chip)
bench-IsI2ec = record {
  index_ok = λ v w. refl;
  index_view = λ v w. refl;
  data_ok = λ v w. refl;
  data_view = λ v w. refl;
  read_ok = λ w i s. ground arith;
  read_view = λ w. refl;
  clock_view = λ w. refl;
}

abbrev pub n155a : EcDevice
n155a = record { port = 0x4E; offsets = default_n155a; hram_offset = 0xC000 }

abbrev pub n155d : EcDevice
n155d = record { port = 0x4E; offsets = default_n155d; hram_offset = 0xC000 }

-- A controller that answers as an IT5570, 0x2A degrees warm.
abbrev pub fresh_regs : ℕ → ℕ
fresh_regs a =
    if a == 0x2000 then 0x55 else if a == 0x2001 then 0x70 else if a == 0xC070 then 0x2A else 0

abbrev pub started : Daemon Machine
started = record {
  world = record {
    chip = record { index = 0; selector = 0; addr_high = 0; addr_low = 0; regs = fresh_regs };
    time = 1000;
    file = none;
  };
  lock_held_since_ms = 0;
  statics = record {
    is_led_already_custom = false;
    settings = some (default_settings 7);
    state_locked = false;
    telemetry_enabled = true;
    telemetry_id = 7;
    telemetry_tx = some [];
  };
}
