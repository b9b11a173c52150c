-- ===== src/SystemEvents/PanicHook.antt =====
-- The hook that runs before a panic unwinds, the same on both systems: `init_logger` of
-- daemon/src/services/systemd_service.rs and of daemon/src/services/win_service.rs.
use lecoo_control_center.Base.{ℕ, ◌++◌}
use lecoo_control_center.Base.Text.{Text, codes, decimal}
use lecoo_control_center.Base.Action.{Action}
use lecoo_control_center.State.{Daemon}
use lecoo_control_center.Ipc.Message.{TelemetryData}
use lecoo_control_center.Telemetry.{send}

-- What a panic carries: a `&'static str`, a `String` or a value of another type.
pub data Payload : Type 0 where
  static_str : Text → Payload
  string : Text → Payload
  other : Payload

-- Where it happened.
pub record Location : Type 0 where
  pub file : Text
  pub line : ℕ

abbrev pub message_of : Payload → Text
message_of (Payload.static_str s) = s
message_of (Payload.string s) = s
message_of Payload.other = codes "Unknown panic message"

abbrev pub panic_text : Location → Payload → Text
panic_text location payload =
    codes "CRITICAL PANIC in file '"
    ++ (location.file
        ++ (codes "' at line " ++ (decimal location.line ++ (codes ": " ++ message_of payload))))

unfoldable pub panic_hook : {W : Type 0} → Location → Payload → Action (Daemon W) (Unit {0})
panic_hook location payload = send (TelemetryData.panic (panic_text location payload))
