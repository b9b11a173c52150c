-- ===== src/Gui/Poller/Acts.antt =====
-- The application as a whole: the poller's rounds and the window's commands, one act at a time, and
-- what its state is to show after each.
use lecoo_control_center.Base.{ℕ, ◌≤◌, ◌≡◌, Bool, Option, none, some, List, [], ◌∷◌}
use lecoo_control_center.Base.Text.{Text}
use lecoo_control_center.Base.Action.{Outcome, ok}
use lecoo_control_center.Ipc.Message.{IpcRequest}
use lecoo_control_center.Gui.State.{AppState, ConnectionStatus, new_state}
use lecoo_control_center.Gui.Desktop.{World, Gui}
use lecoo_control_center.Gui.Commands.{
  reconnect_now, set_poll_paused, set_poll_interval, on_close_requested, bring_window_to_front,
  send_one,
}
use lecoo_control_center.Gui.Poller.{Phase, poll_round}

-- What happens to the application's state, one act at a time.
pub data Act : Type 0 where
  round reconnect close front : Act
  pause : Bool → Act
  interval : ℕ → Act
  command : IpcRequest → Act

-- The poller's place, `none` once a panic has ended its task, and the application.
abbrev pub Desktop : Type 0 → Type 0
Desktop S = Option Phase × Gui S

abbrev pub on_app : {S : Type 0} → (AppState → AppState) → Desktop S → Desktop S
on_app f (p, s) = (p, record s { app = f s.app })

abbrev pub place : Outcome Phase → Option Phase
place (ok p) = some p
place _ = none

-- The shown error is the last one, a poller in its inner loop is shown as connected, and the interval
-- is in its bounds.
pub record IsSound (p : Option Phase) (a : AppState) : Type 0 where
  pub explained :
      (m : Text) → a.connection ≡ ConnectionStatus.error m → a.last_connection_error ≡ some m
  pub in_touch :
      p ≡ some Phase.polling → (v : ℕ × ℕ) × (a.connection ≡ ConnectionStatus.connected v)
  pub at_least : 500 ≤ a.poll_interval_ms
  pub at_most : a.poll_interval_ms ≤ 60000

module _ {S : Type 0} (d : World S) where
  abbrev pub do_round : Option Phase → Gui S → Desktop S
  do_round none s = (none, s)
  do_round (some p) s = let (o, s') = poll_round d p s in (place o, s')

  abbrev pub act : Act → Desktop S → Desktop S
  act Act.round (p, s) = do_round p s
  act Act.reconnect s = on_app reconnect_now s
  act Act.close s = on_app on_close_requested s
  act Act.front s = on_app bring_window_to_front s
  act (Act.pause b) s = on_app (set_poll_paused b) s
  act (Act.interval seconds) s = on_app (set_poll_interval seconds) s
  act (Act.command req) (p, s) = (p, (send_one d req s).1)

  unfoldable pub acts : List Act → Desktop S → Desktop S
  acts [] s = s
  acts (a ∷ rest) s = acts rest (act a s)

  -- The state that the application starts in, whatever its world.
  abbrev pub launched : S → Desktop S
  launched w = (some Phase.unconnected, record { world = w; app = new_state })
