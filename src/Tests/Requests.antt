-- ===== src/Tests/Requests.antt =====
-- The theorems on requests, events and commands, applied on the bench.
use lecoo_control_center.Base.{◌≡◌, ◌⊎◌, refl, true, false, some, [], ◌∷◌}
use lecoo_control_center.Base.Action.{ok}
use lecoo_control_center.State.{Daemon}
use lecoo_control_center.Base.Text.{contains, trim}
use lecoo_control_center.Ec.Device.{
  read_reg, batch_read_reg, with_batch, batch_write_ram, batch_write_reg,
}
use lecoo_control_center.Ec.Probe.{
  new_device, get_board_name, probe_with_retries, probe_chip, find_hram, offsets_for,
  adjusted_offsets,
}
use lecoo_control_center.Ipc.Settings.{as_percent, FanMode, ChargeLimit, default_settings, gpu}
use lecoo_control_center.Ipc.Message.{DaemonCommand, IpcRequest}
use lecoo_control_center.Hw.Charge.{apply_charge_limit}
use lecoo_control_center.Handlers.Settings.{get_state, put_state}
use lecoo_control_center.Handlers.Requests.{do_work, handle, set_charge_limit}
use lecoo_control_center.Handlers.Stored.{Moved, intended}
use lecoo_control_center.Handlers.Moves.{do_work_moves}
use lecoo_control_center.Handlers.Answers.{Applied, succeeded}
use lecoo_control_center.Handlers.Success.{do_work_success_applies}
use lecoo_control_center.Handlers.Safe.{IsSafe, do_work_keeps_IsSafe}
use lecoo_control_center.Handlers.Telemetry.{
  flag, do_work_switches_telemetry, restore_defaults_leaves_telemetry_off,
}
use lecoo_control_center.Service.{InternalEvent, process_service}
use lecoo_control_center.Service.Chosen.{stored_choice, process_service_keeps_choice}
use lecoo_control_center.Tests.Bench.{Machine, bench, n155a, started}

-- The same machine with telemetry switched off at run time.
abbrev quiet : Daemon Machine
quiet = record started { statics = record (started.statics) { telemetry_enabled = false } }

abbrev reset : IpcRequest
reset = IpcRequest.daemon_command DaemonCommand.restore_defaults

-- The bench's controller is found at port 0x4E with its window at 0xC000.
bench_is_found : (new_device bench false started).0 ≡ ok n155a
unfolding new_device get_board_name probe_with_retries probe_chip find_hram offsets_for
    adjusted_offsets read_reg batch_read_reg contains trim
bench_is_found = refl

desk_mode_is_set :
    succeeded (do_work bench n155a (IpcRequest.set_charge_limit ChargeLimit.desk_mode) started).0
    ≡ true
unfolding do_work handle set_charge_limit apply_charge_limit with_batch batch_write_ram
    batch_write_reg get_state put_state as_percent
desk_mode_is_set = refl

do_work_moves_example :
    Moved
      (intended (IpcRequest.set_charge_limit ChargeLimit.desk_mode) 1000)
      (some (default_settings 7))
      (do_work bench n155a
        (IpcRequest.set_charge_limit ChargeLimit.desk_mode)
        started).1.statics.settings
do_work_moves_example =
    do_work_moves bench n155a (IpcRequest.set_charge_limit ChargeLimit.desk_mode) started

do_work_success_applies_example :
    Applied
      (intended (IpcRequest.set_charge_limit ChargeLimit.desk_mode) 1000)
      (some (default_settings 7))
      (do_work bench n155a
        (IpcRequest.set_charge_limit ChargeLimit.desk_mode)
        started).1.statics.settings
do_work_success_applies_example =
    do_work_success_applies bench n155a (IpcRequest.set_charge_limit ChargeLimit.desk_mode) started
      desk_mode_is_set

do_work_keeps_IsSafe_example :
    IsSafe
      (do_work bench n155a
        (IpcRequest.set_fan_mode gpu (FanMode.custom 230))
        started).1.statics.settings
do_work_keeps_IsSafe_example =
    do_work_keeps_IsSafe bench n155a (IpcRequest.set_fan_mode gpu (FanMode.custom 230)) started
      (tt, tt)

do_work_switches_telemetry_example :
    (flag
        (do_work bench n155a
          (IpcRequest.daemon_command (DaemonCommand.activate_telemetry false))
          started).1.statics
      ≡ true)
    ⊎ (some false
        ≡ some (
            flag
              (do_work bench n155a
                (IpcRequest.daemon_command (DaemonCommand.activate_telemetry false))
                started).1.statics))
do_work_switches_telemetry_example =
    do_work_switches_telemetry bench n155a
      (IpcRequest.daemon_command (DaemonCommand.activate_telemetry false)) started

restore_defaults_leaves_telemetry_off_example :
    ((do_work bench n155a reset quiet).1.statics.settings ≡ some (default_settings 1000))
    × ((default_settings 1000).telemetry_enabled ≡ true)
    × (flag (do_work bench n155a reset quiet).1.statics ≡ false)
restore_defaults_leaves_telemetry_off_example =
    restore_defaults_leaves_telemetry_off bench n155a quiet (default_settings 7) refl refl refl

process_service_keeps_choice_example :
    stored_choice
      (process_service bench n155a
        (InternalEvent.system_sleeping
          ∷ (InternalEvent.system_waking_up ∷ (InternalEvent.charger_connected ∷ [])))
        started).1.statics
    ≡ stored_choice started.statics
process_service_keeps_choice_example =
    process_service_keeps_choice bench n155a
      (InternalEvent.system_sleeping
        ∷ (InternalEvent.system_waking_up ∷ (InternalEvent.charger_connected ∷ [])))
      started
