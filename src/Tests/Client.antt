-- ===== src/Tests/Client.antt =====
-- The command line client in front of the daemon on the bench.
use lecoo_control_center.Base.{ℕ, ◌≡◌, ◌+◌, refl, some, Option, [], ◌∷◌, arith}
use lecoo_control_center.Base.Text.{codes}
use lecoo_control_center.Base.Action.{ok, panicked}
use lecoo_control_center.State.{Daemon}
use lecoo_control_center.Ec.I2ec.{I2ec}
use lecoo_control_center.Ipc.Settings.{ChargeLimit}
use lecoo_control_center.Ipc.Message.{IpcRequest, IpcResponse}
use lecoo_control_center.Handlers.Requests.{do_work}
use lecoo_control_center.Handlers.Stored.{intended}
use lecoo_control_center.Handlers.Answers.{Applied}
use lecoo_control_center.Cli.{CliFanIndex, CliFanMode, CliChargeLimit, Commands, choose}
use lecoo_control_center.Cli.Main.{
  Remote, Words, Console, monitor_line, monitor_round, report, main,
}
use lecoo_control_center.Cli.Served.{IsServed}
use lecoo_control_center.Cli.Requests.{refusal_line, fan_over_limit_changes_nothing}
use lecoo_control_center.Cli.Shows.{
  temps_at, speeds_at, temps_text, speeds_text, client_shows_registers,
}
use lecoo_control_center.Cli.Exits.{exit_0_applies}
use lecoo_control_center.Tests.Bench.{Machine, bench, bench-IsI2ec, n155a, started}

abbrev chip : Machine → I2ec
chip m = m.chip

abbrev remote : Remote (Daemon Machine)
remote = record {
  connect = λ s. (ok (0, 4), s);
  request = do_work bench n155a;
  sleep = λ ms s. record s { world = record (s.world) { time = s.world.time + ms } };
}

remote-IsServed : IsServed bench n155a remote
remote-IsServed = record { version = (0, 4); connects = λ s. refl; request_works = λ req s. refl }

-- A language in which every message is its key.
abbrev keys : Words
keys = record { t = λ key values. key; debug = λ st. codes "settings" }

abbrev millis : Option ℕ → ℕ
millis rate = 1000

abbrev screen : Console (Daemon Machine)
screen = record { daemon = started; stdout = []; stderr = [] }

fan_over_limit_changes_nothing_example :
    main remote keys millis 0 (Commands.fan CliFanIndex.both CliFanMode.custom (some 255)) screen
    ≡ (ok (some 1), record screen { stderr = refusal_line keys 255 ∷ [] })
fan_over_limit_changes_nothing_example =
    fan_over_limit_changes_nothing bench n155a remote keys ℕ millis 0 CliFanIndex.both 255 screen
      remote-IsServed (ground arith)

client_shows_registers_example :
    let temps = main remote keys millis 0 Commands.temps screen in
    let fans = main remote keys millis 0 Commands.fans screen in
    let round = monitor_round remote keys 1000 screen in
    (temps.0 ≡ ok (some 0))
    × (temps.1.stdout
        ≡ temps_text bench n155a chip bench-IsI2ec keys
            (temps_at bench n155a chip bench-IsI2ec keys started)
          ∷ [])
    × (fans.0 ≡ ok (some 0))
    × (fans.1.stdout
        ≡ speeds_text bench n155a chip bench-IsI2ec keys
            (speeds_at bench n155a chip bench-IsI2ec keys started)
          ∷ [])
    × (round.0 ≡ ok tt)
    × (round.1.stdout
        ≡ monitor_line remote keys
            (temps_at bench n155a chip bench-IsI2ec keys started)
            (speeds_at bench n155a chip bench-IsI2ec keys started)
          ∷ [])
client_shows_registers_example =
    client_shows_registers bench n155a chip bench-IsI2ec keys remote ℕ millis 0 1000 screen
      remote-IsServed

abbrev limit_80 : IpcRequest
limit_80 = IpcRequest.set_charge_limit ChargeLimit.desk_mode

exit_0_applies_example :
    Applied
      (intended limit_80 1000)
      started.statics.settings
      (main remote keys millis 0
        (Commands.charge (some CliChargeLimit.desk))
        screen).1.daemon.statics.settings
unfolding choose main do_work lecoo_control_center.Handlers.Requests.handle
    lecoo_control_center.Handlers.Requests.set_charge_limit
    lecoo_control_center.Hw.Charge.apply_charge_limit lecoo_control_center.Ec.Device.with_batch
    lecoo_control_center.Ec.Device.batch_write_ram lecoo_control_center.Ec.Device.batch_write_reg
    lecoo_control_center.Handlers.Settings.get_state
    lecoo_control_center.Handlers.Settings.put_state report
exit_0_applies_example =
    exit_0_applies bench n155a remote keys remote-IsServed ℕ millis 0
      (Commands.charge (some CliChargeLimit.desk)) limit_80 screen screen refl refl refl

-- What the daemon's errors do to the client: the monitoring panics.
abbrev broken : Remote (Daemon Machine)
broken = record remote { request = λ req s. (ok (IpcResponse.error (codes "EC")), s) }

monitoring_panics : (monitor_round broken keys 1000 screen).0 ≡ panicked
unfolding monitor_round
monitoring_panics = refl
