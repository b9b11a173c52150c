-- ===== src/Gui/Commands/Interval.antt =====
-- The poll interval that the user sets and the wait that the poller makes of it.
use lecoo_control_center.Base.{ℕ, ◌*◌, ◌≤◌, ◌≡◌, refl, true, ltb, if◌then◌else◌, arith}
use lecoo_control_center.Gui.State.{AppState}
use lecoo_control_center.Gui.Commands.{set_poll_interval}
use lecoo_control_center.Gui.Poller.{at_least_500}

-- Whatever number of seconds the window sends, the interval stored is between half a second and a
-- minute: half a second for none, a minute for more than a minute, else the one asked for. The
-- poller's own minimum does not change it, and the poller's wait is ended at once so that it applies.
pub set_poll_interval_bounds :
    (seconds : ℕ) (state : AppState)
    → let state' = set_poll_interval seconds state in
      (500 ≤ state'.poll_interval_ms)
      × (state'.poll_interval_ms ≤ 60000)
      × (state'.poll_interval_ms
          ≡ (if ltb seconds 1 then 500 else if ltb 60 seconds then 60000 else seconds * 1000))
      × (at_least_500 state'.poll_interval_ms ≡ state'.poll_interval_ms)
      × (state'.reconnect_signal ≡ true)
unfolding set_poll_interval
set_poll_interval_bounds seconds state =
    (ground arith, ground arith, ground arith, ground arith, refl)
