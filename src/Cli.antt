-- ===== src/Cli.antt =====
-- The command line client: its arguments and the requests that they become (cli/src/main.rs).
-- Parsing the arguments is the work of a library; `f32` is a parameter.
use lecoo_control_center.Base.{ℕ, Bool, true, false, Option, none, some}
use lecoo_control_center.Base.Action.{Action, pure, ◌>>=◌, ◌>>◌}
use lecoo_control_center.Ipc.Settings.{
  PowerProfile, KeyboardBacklightLevel, FanIndex, FanMode, ChargeLimit, PowerLedMode, cpu, gpu,
}
use lecoo_control_center.Ipc.Message.{DaemonCommand, IpcRequest, IpcResponse}
pub mod Main
pub mod Served
pub mod Requests
pub mod Shows
pub mod Exits

pub data CliPowerProfile : Type 0 where
  silent default perf : CliPowerProfile

pub data CliFanIndex : Type 0 where
  only_cpu only_gpu both : CliFanIndex

pub data CliFanMode : Type 0 where
  auto full custom : CliFanMode

pub data CliKbdMode : Type 0 where
  off low medium high custom : CliKbdMode

pub data CliLedAction : Type 0 where
  auto : CliLedAction
  custom : ℕ → CliLedAction

pub data CliTelemetryAction : Type 0 where
  enable disable id : CliTelemetryAction

pub data CliSettingsAction : Type 0 where
  reset read apply : CliSettingsAction

pub data CliDaemonAction : Type 0 where
  telemetry : CliTelemetryAction → CliDaemonAction
  settings : CliSettingsAction → CliDaemonAction
  version : CliDaemonAction

pub data CliChargeLimit : Type 0 where
  full high balanced lifespan desk : CliChargeLimit

pub data Commands (F32 : Type 0) : Type 0 where
  info temps fans : Commands F32
  monitoring : Option F32 → Commands F32
  fan : CliFanIndex → CliFanMode → Option ℕ → Commands F32
  charge : Option CliChargeLimit → Commands F32
  power : Option CliPowerProfile → Commands F32
  kbd : Option CliKbdMode → Option ℕ → Commands F32
  led : CliLedAction → Commands F32
  daemon : CliDaemonAction → Commands F32

-- What the match on the command comes to: a request, or one of the arms that never return.
pub data Chosen (F32 : Type 0) : Type 0 where
  request : IpcRequest → Chosen F32
  monitor : Option F32 → Chosen F32
  print_version : Chosen F32

-- `val.unwrap_or(…)`
abbrev pub or_else : Option ℕ → ℕ → ℕ
or_else none d = d
or_else (some v) d = v

abbrev pub power_of : CliPowerProfile → PowerProfile
power_of CliPowerProfile.silent = PowerProfile.silent
power_of CliPowerProfile.default = PowerProfile.default
power_of CliPowerProfile.perf = PowerProfile.performance

abbrev pub fan_mode_of : CliFanMode → Option ℕ → FanMode
fan_mode_of CliFanMode.auto val = FanMode.auto
fan_mode_of CliFanMode.full val = FanMode.full
fan_mode_of CliFanMode.custom val = FanMode.custom (or_else val 0)

abbrev pub charge_of : CliChargeLimit → ChargeLimit
charge_of CliChargeLimit.full = ChargeLimit.full_capacity
charge_of CliChargeLimit.high = ChargeLimit.high_capacity
charge_of CliChargeLimit.balanced = ChargeLimit.balanced
charge_of CliChargeLimit.lifespan = ChargeLimit.maximum_lifespan
charge_of CliChargeLimit.desk = ChargeLimit.desk_mode

abbrev pub level_of : CliKbdMode → Option ℕ → KeyboardBacklightLevel
level_of CliKbdMode.off val = KeyboardBacklightLevel.off
level_of CliKbdMode.low val = KeyboardBacklightLevel.low
level_of CliKbdMode.medium val = KeyboardBacklightLevel.medium
level_of CliKbdMode.high val = KeyboardBacklightLevel.high
level_of CliKbdMode.custom val = KeyboardBacklightLevel.custom (or_else val 255)

abbrev pub led_mode_of : CliLedAction → PowerLedMode
led_mode_of CliLedAction.auto = PowerLedMode.auto
led_mode_of (CliLedAction.custom val) = PowerLedMode.custom val

abbrev pub telemetry_command : CliTelemetryAction → DaemonCommand
telemetry_command CliTelemetryAction.enable = DaemonCommand.activate_telemetry true
telemetry_command CliTelemetryAction.disable = DaemonCommand.activate_telemetry false
telemetry_command CliTelemetryAction.id = DaemonCommand.get_telemetry_id

abbrev pub settings_command : CliSettingsAction → DaemonCommand
settings_command CliSettingsAction.reset = DaemonCommand.restore_defaults
settings_command CliSettingsAction.read = DaemonCommand.get_settings
settings_command CliSettingsAction.apply = DaemonCommand.apply_settings

abbrev pub daemon_choice : {F32 : Type 0} → CliDaemonAction → Chosen F32
daemon_choice (CliDaemonAction.telemetry action) =
    Chosen.request (IpcRequest.daemon_command (telemetry_command action))
daemon_choice (CliDaemonAction.settings action) =
    Chosen.request (IpcRequest.daemon_command (settings_command action))
daemon_choice CliDaemonAction.version = Chosen.print_version

-- `client.request` is the parameter; for both fans the CPU fan's request goes out first.
module _ {S : Type 0} (client : IpcRequest → Action S IpcResponse) where
  abbrev pub fan_index_of : CliFanIndex → FanMode → Action S FanIndex
  fan_index_of CliFanIndex.only_cpu mode = pure cpu
  fan_index_of CliFanIndex.only_gpu mode = pure gpu
  fan_index_of CliFanIndex.both mode = do
    answer ← client (IpcRequest.set_fan_mode cpu mode)
    pure gpu

  unfoldable pub choose : {F32 : Type 0} → Commands F32 → Action S (Chosen F32)
  choose Commands.info = pure (Chosen.request IpcRequest.get_system_state)
  choose Commands.temps = pure (Chosen.request IpcRequest.get_temperatures)
  choose Commands.fans = pure (Chosen.request IpcRequest.get_fans_rpm)
  choose (Commands.monitoring rate) = pure (Chosen.monitor rate)
  choose (Commands.power none) = pure (Chosen.request IpcRequest.get_power_profile)
  choose (Commands.power (some p)) =
      pure (Chosen.request (IpcRequest.set_power_profile (power_of p)))
  choose (Commands.fan target mode val) = do
    index ← fan_index_of target (fan_mode_of mode val)
    pure (Chosen.request (IpcRequest.set_fan_mode index (fan_mode_of mode val)))
  choose (Commands.charge none) = pure (Chosen.request IpcRequest.get_charge_limit)
  choose (Commands.charge (some l)) =
      pure (Chosen.request (IpcRequest.set_charge_limit (charge_of l)))
  choose (Commands.kbd none val) = pure (Chosen.request IpcRequest.get_keyboard_backlight)
  choose (Commands.kbd (some m) val) =
      pure (Chosen.request (IpcRequest.set_keyboard_backlight (level_of m val)))
  choose (Commands.led action) =
      pure (Chosen.request (IpcRequest.set_led_mode (led_mode_of action)))
  choose (Commands.daemon action) = pure (daemon_choice action)
