-- ===== src/Tests/Desktop.antt =====
-- The desktop application in front of the daemon on the bench.
use lecoo_control_center.Base.{
  ◌≤◌, ◌≡◌, ◌+◌, ◌*◌, refl, true, false, ltb, if◌then◌else◌, arith, some, none, [], ◌∷◌,
}
use lecoo_control_center.Base.Text.{codes}
use lecoo_control_center.Base.Action.{ok}
use lecoo_control_center.State.{Daemon, Statics}
use lecoo_control_center.Ec.I2ec.{I2ec}
use lecoo_control_center.Ipc.Settings.{ChargeLimit}
use lecoo_control_center.Ipc.Message.{IpcRequest}
use lecoo_control_center.Handlers.Requests.{do_work}
use lecoo_control_center.Handlers.Stored.{intended}
use lecoo_control_center.Handlers.Answers.{Applied}
use lecoo_control_center.Gui.State.{Telemetry, new_state}
use lecoo_control_center.Gui.Desktop.{World, Gui, fetch_telemetry}
use lecoo_control_center.Gui.Desktop.Readings.{IsReading, fetch_telemetry_shows_registers}
use lecoo_control_center.Gui.Commands.{set_poll_interval, send_one}
use lecoo_control_center.Gui.Commands.Applies.{IsDaemonWorld, send_one_applies}
use lecoo_control_center.Gui.Commands.Interval.{set_poll_interval_bounds}
use lecoo_control_center.Gui.Poller.{Phase, at_least_500, run}
use lecoo_control_center.Gui.Poller.Paused.{paused_run_idles}
use lecoo_control_center.Gui.Poller.Acts.{Act, IsSound, acts, launched}
use lecoo_control_center.Gui.Poller.Invariant.{desktop_stays_IsSound}
use lecoo_control_center.Gui.Tray.{on_menu_event, tooltip}
use lecoo_control_center.Gui.Calendar.{ℤ, wide_civil, civil_from_days, nth_day}
use lecoo_control_center.Gui.Calendar.NextDay.{civil_from_days_follows}
use lecoo_control_center.Tests.Bench.{Machine, bench, bench-IsI2ec, n155a, started}

abbrev chip : Machine → I2ec
chip m = m.chip

abbrev desk : World (Daemon Machine)
desk = record {
  connect = λ s. (ok (0, 4), s);
  request = do_work bench n155a;
  debug = λ r. [];
  power_status = λ s. (some 1, s);
  now_ms = λ s. (some s.world.time, s);
  sleep = λ ms s. record s { world = record (s.world) { time = s.world.time + ms } };
}

desk-IsDaemonWorld : IsDaemonWorld bench n155a desk
desk-IsDaemonWorld = record { connect_keeps = λ s. refl; request_works = λ req s. refl }

abbrev shown : Gui (Daemon Machine)
shown = record { world = started; app = new_state }

abbrev limit_80 : IpcRequest
limit_80 = IpcRequest.set_charge_limit ChargeLimit.desk_mode

send_one_applies_example :
    Applied
      (intended limit_80 1000)
      started.statics.settings
      (send_one desk limit_80 shown).1.world.statics.settings
unfolding send_one lecoo_control_center.Gui.Desktop.gui_connect
    lecoo_control_center.Gui.Desktop.gui_request do_work
    lecoo_control_center.Handlers.Requests.handle
    lecoo_control_center.Handlers.Requests.set_charge_limit
    lecoo_control_center.Hw.Charge.apply_charge_limit lecoo_control_center.Ec.Device.with_batch
    lecoo_control_center.Ec.Device.batch_write_ram lecoo_control_center.Ec.Device.batch_write_reg
    lecoo_control_center.Handlers.Settings.get_state
    lecoo_control_center.Handlers.Settings.put_state
send_one_applies_example = send_one_applies bench n155a desk desk-IsDaemonWorld limit_80 shown refl

set_poll_interval_bounds_example :
    let state = set_poll_interval 90 new_state in
    (500 ≤ state.poll_interval_ms)
    × (state.poll_interval_ms ≤ 60000)
    × (state.poll_interval_ms ≡ (if ltb 90 1 then 500 else if ltb 60 90 then 60000 else 90 * 1000))
    × (at_least_500 state.poll_interval_ms ≡ state.poll_interval_ms)
    × (state.reconnect_signal ≡ true)
set_poll_interval_bounds_example = set_poll_interval_bounds 90 new_state

abbrev hidden : Gui (Daemon Machine)
hidden = record { world = started; app = record new_state { poll_paused = true } }

abbrev untimed : Daemon Machine → I2ec × Statics
untimed s = (s.world.chip, s.statics)

paused_run_idles_example :
    let (phase, s) = run desk 3 Phase.polling hidden in
    (phase ≡ ok Phase.polling) × (s.app.poll_paused ≡ true) × (untimed s.world ≡ untimed started)
paused_run_idles_example =
    paused_run_idles desk untimed (record { kept = λ ms s. refl }) 3 hidden refl

fetch_telemetry_shows_registers_example :
    (t : Telemetry) × ((fetch_telemetry desk shown).0 ≡ ok t)
    × IsReading bench n155a chip bench-IsI2ec t started
fetch_telemetry_shows_registers_example =
    fetch_telemetry_shows_registers bench n155a chip bench-IsI2ec desk shown desk-IsDaemonWorld

desktop_stays_IsSound_example :
    let (p, s) =
      acts desk
        (Act.round
          ∷ Act.round
          ∷ Act.interval 90
          ∷ Act.command limit_80
          ∷ Act.close
          ∷ Act.round
          ∷ [])
        (launched desk started) in
    IsSound p s.app
desktop_stays_IsSound_example =
    desktop_stays_IsSound desk
      (Act.round ∷ Act.round ∷ Act.interval 90 ∷ Act.command limit_80 ∷ Act.close ∷ Act.round ∷ [])
      started

civil_from_days_follows_example : civil_from_days 20454 ≡ record {
  year = ℤ.pos (nth_day 20454).year;
  month = (nth_day 20454).month;
  day = (nth_day 20454).day;
}
civil_from_days_follows_example = civil_from_days_follows 20454 (omega arith)

new_year_2026 : civil_from_days 20454 ≡ record { year = ℤ.pos 2026; month = 1; day = 1 }
unfolding civil_from_days wide_civil
new_year_2026 = refl

quit_exits : (on_menu_event desk (codes "quit") shown).0 ≡ ok true
unfolding on_menu_event
quit_exits = refl

front_resumes : (on_menu_event desk (codes "show") shown).1.app.reconnect_signal ≡ true
unfolding on_menu_event
front_resumes = refl

unknown_id_does_nothing : on_menu_event desk (codes "fan_max") shown ≡ (ok false, shown)
unfolding on_menu_event
unknown_id_does_nothing = refl

tooltip_lines :
    tooltip (record {
      cpu_temp_c = 55;
      sys_temp_c = 41;
      cpu_fan_rpm = 2300;
      gpu_fan_rpm = 0;
      battery_percent = 80;
      charge_limit_min = 0;
      charge_limit_max = 0;
      ac_connected = none;
      timestamp_ms = 0;
    })
    ≡ codes "Lecoo Control Center\nCPU 55°C · CPU fan 2300 rpm\nSys 41°C · GPU fan 0 rpm"
unfolding tooltip lecoo_control_center.Base.Text.decimal
tooltip_lines = refl
