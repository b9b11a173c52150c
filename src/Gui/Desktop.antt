-- ===== src/Gui/Desktop.antt =====
-- The application's state in its world, and what it asks of the world: the daemon behind a
-- connection, the power status, the clock and the waits (gui/src/ipc_client.rs,
-- gui/src/power_status.rs). The errors of the daemon's client are those of ipc/src/client.rs.
pub mod Readings
use lecoo_control_center.Base.{ℕ, Bool, true, false, Option, none, some, ◌++◌, ◌==◌, if◌then◌else◌}
use lecoo_control_center.Base.Text.{Text, codes}
use lecoo_control_center.Base.Action.{
  Action, ok, err, panicked, pure, fail, gets, modify, ◌>>=◌, ◌>>◌,
}
use lecoo_control_center.Ipc.Message.{IpcRequest, IpcResponse}
use lecoo_control_center.Handlers.Settings.{context}
use lecoo_control_center.Gui.State.{AppState, Telemetry}

pub record World (S : Type 0) : Type 0 where
  -- `ipc::IpcClient::connect`, with the daemon's version, and `request` on the connection.
  pub connect : Action S (ℕ × ℕ)
  pub request : IpcRequest → Action S IpcResponse
  -- `{:?}` of a response.
  pub debug : IpcResponse → Text
  -- The status byte of `GetSystemPowerStatus`; `none` if the call fails.
  pub power_status : S → Option ℕ × S
  -- The time since the epoch in milliseconds; `none` for a clock before it.
  pub now_ms : S → Option ℕ × S
  -- A sleep of so many milliseconds, which a notification during it may end.
  pub sleep : ℕ → S → S

pub record Gui (S : Type 0) : Type 0 where
  pub world : S
  pub app : AppState

abbrev pub in_world : {S A : Type 0} → Action S A → Action (Gui S) A
in_world m s = ((m s.world).0, record s { world = (m s.world).1 })

abbrev pub change : {S : Type 0} → (AppState → AppState) → Action (Gui S) (Unit {0})
change f = modify (λ s. record s { app = f s.app })

module _ {S : Type 0} (d : World S) where
  -- `IpcClient::connect` and `IpcClient::request` of the application.
  unfoldable pub gui_connect : Action (Gui S) (ℕ × ℕ)
  gui_connect = context (codes "daemon not reachable") (in_world d.connect)

  unfoldable pub gui_request : IpcRequest → Action (Gui S) IpcResponse
  gui_request req = context (codes "ipc request failed") (in_world (d.request req))

  -- `ac_connected` on Windows.
  abbrev pub line_status : Option ℕ → Option Bool
  line_status none = none
  line_status (some b) = if b == 0 then some false else if b == 1 then some true else none

  unfoldable pub ac_connected : Action (Gui S) (Option Bool)
  ac_connected = in_world (λ w. (ok (line_status (d.power_status w).0), (d.power_status w).1))

  abbrev pub or_zero : Option ℕ → ℕ
  or_zero none = 0
  or_zero (some n) = n

  abbrev pub timestamp : Action (Gui S) ℕ
  timestamp = in_world (λ w. (ok (or_zero (d.now_ms w).0), (d.now_ms w).1))

  -- The three matches of `fetch_telemetry`.
  abbrev pub temps_of : IpcResponse → Action (Gui S) (ℕ × ℕ)
  temps_of (IpcResponse.temp c s) = pure (c, s)
  temps_of (IpcResponse.error e) = fail (codes "daemon error (temps): " ++ e)
  temps_of other = fail (codes "unexpected response to GetTemperatures: " ++ d.debug other)

  abbrev pub fans_of : IpcResponse → Action (Gui S) (ℕ × ℕ)
  fans_of (IpcResponse.fan_rpm c g) = pure (c, g)
  fans_of (IpcResponse.error e) = fail (codes "daemon error (fans): " ++ e)
  fans_of other = fail (codes "unexpected response to GetFansRPM: " ++ d.debug other)

  abbrev pub battery_of : IpcResponse → ℕ × ℕ × ℕ
  battery_of (IpcResponse.charge_limit min max cur) = (min, max, cur)
  battery_of other = (0, 0, 0)

  unfoldable pub fetch_telemetry : Action (Gui S) Telemetry
  fetch_telemetry = do
    temps ← gui_request IpcRequest.get_temperatures
    temp ← temps_of temps
    fans ← gui_request IpcRequest.get_fans_rpm
    fan ← fans_of fans
    battery ← gui_request IpcRequest.get_charge_limit
    let limits = battery_of battery
    ac ← ac_connected
    now ← timestamp
    pure (record {
      cpu_temp_c = temp.0;
      sys_temp_c = temp.1;
      cpu_fan_rpm = fan.0;
      gpu_fan_rpm = fan.1;
      battery_percent = limits.2;
      charge_limit_min = limits.0;
      charge_limit_max = limits.1;
      ac_connected = ac;
      timestamp_ms = now;
    })
