-- ===== src/Tests/Start.antt =====
-- The daemon's start on the bench.
use lecoo_control_center.Base.{◌≡◌, refl, none, some, false, [], ◌∷◌}
use lecoo_control_center.Base.Text.{codes}
use lecoo_control_center.Base.Action.{ok}
use lecoo_control_center.Base.Ends.{Ends}
use lecoo_control_center.State.{Daemon}
use lecoo_control_center.Ec.Device.{read_reg}
use lecoo_control_center.Ec.I2ec.{I2ec}
use lecoo_control_center.Ec.Probe.{new_device}
use lecoo_control_center.Ec.Probe.Present.{IsAbsent, IsReady, new_device_finds}
use lecoo_control_center.Startup.{Target, Boot, startup}
use lecoo_control_center.Startup.Agrees.{Agrees, startup-Agrees}
use lecoo_control_center.Tests.Bench.{Machine, bench, bench-IsI2ec, n155a, started}

abbrev chip : Machine → I2ec
chip m = m.chip

abbrev boot : Boot Machine
boot = record {
  start_services = λ m. (ok tt, m);
  await_inited = λ m. (ok tt, m);
  bind = λ m. (ok tt, m);
  get_system_info = λ m. (ok (codes "cpu", codes "os", codes "board"), m);
}

-- The process before `main` has set anything.
abbrev fresh : Daemon Machine
fresh = record started {
  statics = record (started.statics) { settings = none; telemetry_tx = none };
}

startup-Agrees_example :
    Ends (Agrees bench boot) (startup bench boot Target.windows (codes "--service" ∷ []) fresh)
startup-Agrees_example =
    startup-Agrees bench boot Target.windows (codes "--service" ∷ []) fresh refl

empty_port : IsAbsent bench chip 0x2E
unfolding read_reg lecoo_control_center.Ec.Device.batch_read_reg
empty_port = record { unknown = λ o s. refl; kept = λ o s. refl }

ready : IsReady bench chip (some (codes " N155A-15 "))
ready = record {
  opens = λ w. refl;
  open_keeps = λ w. refl;
  named = λ w. refl;
  name_keeps = λ w. refl;
}

new_device_finds_example : (new_device bench false fresh).0 ≡ ok n155a
unfolding lecoo_control_center.Ec.Probe.offsets_for lecoo_control_center.Base.Text.contains
    lecoo_control_center.Base.Text.trim lecoo_control_center.Ec.Probe.adjusted_offsets
new_device_finds_example =
    new_device_finds bench 0x4E chip bench-IsI2ec false (some (codes " N155A-15 ")) (0x2E ∷ [])
      (0x6E ∷ []) 0xC000 fresh ready refl (empty_port, tt) refl refl
