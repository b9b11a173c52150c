-- ===== src/Gui/Poller.antt =====
-- The task that polls the daemon (gui/src/poller.rs). A round is one pass of the outer loop up to the
-- connection, or one pass of the inner loop. Events sent to the window and the tray's tooltip are
-- left out: nothing reads them back.
use lecoo_control_center.Base.{
  ℕ, zero, suc, Bool, true, false, Option, none, some, ltb, if◌then◌else◌,
}
use lecoo_control_center.Base.Text.{Text}
use lecoo_control_center.Base.Action.{
  Action, Outcome, ok, err, panicked, pure, panic, gets, attempt, ◌>>=◌, ◌>>◌,
}
use lecoo_control_center.Gui.State.{AppState, Telemetry, ConnectionStatus}
use lecoo_control_center.Gui.Desktop.{World, Gui, gui_connect, fetch_telemetry, change}
pub mod Paused
pub mod Acts
pub mod Invariant

-- Where the task is: before a connection, or in the inner loop with one.
pub data Phase : Type 0 where
  unconnected polling : Phase

abbrev pub reconnect_delay_ms : ℕ
reconnect_delay_ms = 2000

abbrev pub paused_check_ms : ℕ
paused_check_ms = 5000

-- `.max(500)`
abbrev pub at_least_500 : ℕ → ℕ
at_least_500 ms = if ltb ms 500 then 500 else ms

abbrev pub set_status : {S : Type 0} → ConnectionStatus → Action (Gui S) (Unit {0})
set_status status = change (λ a. record a { connection = status })

abbrev pub set_last_error : {S : Type 0} → Text → Action (Gui S) (Unit {0})
set_last_error msg = change (λ a. record a { last_connection_error = some msg })

module _ {S : Type 0} (d : World S) where
  -- The `select!` of a sleep and the signal: a permit that is kept ends the wait at once.
  abbrev pub slept : Bool → ℕ → Gui S → Gui S
  slept true ms s = record s { app = record (s.app) { reconnect_signal = false } }
  slept false ms s = record s { world = d.sleep ms s.world }

  unfoldable pub wait : ℕ → Action (Gui S) (Unit {0})
  wait ms s = (ok tt, slept s.app.reconnect_signal ms s)

  -- The match on the connection.
  abbrev pub on_connect : Outcome (ℕ × ℕ) → Action (Gui S) Phase
  on_connect (ok version) = do set_status (ConnectionStatus.connected version); pure Phase.polling
  on_connect (err msg) = do
    set_last_error msg
    set_status (ConnectionStatus.error msg)
    wait reconnect_delay_ms
    pure Phase.unconnected
  on_connect panicked = panic

  -- The match on the sample, and the wait at the end of the inner loop.
  abbrev pub on_sample : Outcome Telemetry → Action (Gui S) Phase
  on_sample (ok t) = do
    change (λ a. record a { last_telemetry = some t })
    interval_ms ← gets (λ s. at_least_500 s.app.poll_interval_ms)
    wait interval_ms
    pure Phase.polling
  on_sample (err msg) = do set_last_error msg; pure Phase.unconnected
  on_sample panicked = panic

  abbrev pub poll_unless : Bool → Action (Gui S) Phase
  poll_unless true = do wait paused_check_ms; pure Phase.polling
  poll_unless false = do sample ← attempt (fetch_telemetry d); on_sample sample

  unfoldable pub poll_round : Phase → Action (Gui S) Phase
  poll_round Phase.unconnected = do
    set_status ConnectionStatus.connecting
    client ← attempt (gui_connect d)
    on_connect client
  poll_round Phase.polling = do paused ← gets (λ s. s.app.poll_paused); poll_unless paused

  -- So many rounds of `run`.
  unfoldable pub run : ℕ → Phase → Action (Gui S) Phase
  run zero phase = pure phase
  run (suc rounds) phase = do next ← poll_round phase; run rounds next
