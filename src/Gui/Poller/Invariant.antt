-- ===== src/Gui/Poller/Invariant.antt =====
-- What holds of the application's state after any interleaving of the poller's rounds and the
-- window's commands.
use lecoo_control_center.Base.{
  ℕ, ◌≤◌, ◌≡◌, ◌≢◌, refl, ◌∙◌, sym, Bool, true, false, Option, none, some, List, [], ◌∷◌, arith,
}
use lecoo_control_center.Base.Text.{Text}
use lecoo_control_center.Base.Action.{Outcome, ok, err, panicked, proceed, reify}
use lecoo_control_center.Gui.State.{AppState, ConnectionStatus, Telemetry}
use lecoo_control_center.Gui.Desktop.{World, Gui, gui_connect, fetch_telemetry}
use lecoo_control_center.Gui.Frame.{
  gui_connect-KeepsApp, fetch_telemetry-KeepsApp, send_one-KeepsApp,
}
use lecoo_control_center.Gui.Commands.{set_poll_paused, set_poll_interval}
use lecoo_control_center.Gui.Commands.Interval.{set_poll_interval_bounds}
use lecoo_control_center.Gui.Poller.{
  Phase, slept, wait, poll_unless, poll_round, on_connect, on_sample,
}
use lecoo_control_center.Gui.Poller.Acts.{
  Act, Desktop, place, IsSound, do_round, act, acts, launched,
}

module _ {S : Type 0} (d : World S) where
  abbrev Holds : Desktop S → Type 0
  Holds (p, s) = IsSound p s.app

  -- Another state that shows the same.
  alike :
      (p : Option Phase) (a a' : AppState)
      → a'.connection ≡ a.connection
      → a'.last_connection_error ≡ a.last_connection_error
      → 500 ≤ a'.poll_interval_ms
      → a'.poll_interval_ms ≤ 60000
      → IsSound p a
      → IsSound p a'
  alike p a a' c e low high i = record {
    explained = λ m shown. e ∙ i.explained m (sym c ∙ shown);
    in_touch = λ at. let (v, shown) = i.in_touch at in (v, c ∙ shown);
    at_least = low;
    at_most = high;
  }

  -- The same state, with the poller outside of its inner loop.
  outside :
      (p q : Option Phase) (a : AppState) → (q ≢ some Phase.polling) → IsSound p a → IsSound q a
  outside p q a out i = record {
    explained = i.explained;
    in_touch = λ at. absurd (out at);
    at_least = i.at_least;
    at_most = i.at_most;
  }

  apart :
      (v : ℕ × ℕ) (m : Text) {msg : Text}
      → ConnectionStatus.connected v ≡ ConnectionStatus.error m
      → some msg ≡ some m
  apart v m e = ground arith

  slept-IsSound :
      (p : Option Phase) (b : Bool) (ms : ℕ) (s : Gui S)
      → IsSound p s.app
      → IsSound p (slept d b ms s).app
  slept-IsSound p true ms s i = alike p s.app _ refl refl i.at_least i.at_most i
  slept-IsSound p false ms s i = i

  on_connect-IsSound :
      (o : Outcome (ℕ × ℕ)) (s : Gui S)
      → IsSound (some Phase.unconnected) s.app
      → let r = on_connect d o s in IsSound (place r.0) r.1.app
  unfolding wait
  on_connect-IsSound (ok v) s i = record {
    explained = λ m e. ground arith;
    in_touch = λ e. (v, refl);
    at_least = i.at_least;
    at_most = i.at_most;
  }
  on_connect-IsSound (err msg) s i =
      slept-IsSound (some Phase.unconnected) s.app.reconnect_signal _ _ (record {
        explained = λ m e. ground arith;
        in_touch = λ e. ground arith;
        at_least = i.at_least;
        at_most = i.at_most;
      })
  on_connect-IsSound panicked s i = outside _ none s.app (λ e. ground arith) i

  on_sample-IsSound :
      (o : Outcome Telemetry) (s : Gui S)
      → IsSound (some Phase.polling) s.app
      → let r = on_sample d o s in IsSound (place r.0) r.1.app
  unfolding wait
  on_sample-IsSound (ok t) s i =
      slept-IsSound (some Phase.polling) s.app.reconnect_signal _ _
        (alike (some Phase.polling) s.app _ refl refl i.at_least i.at_most i)
  on_sample-IsSound (err msg) s i = record {
    explained = λ m e. let (v, shown) = i.in_touch refl in apart v m (sym shown ∙ e);
    in_touch = λ e. ground arith;
    at_least = i.at_least;
    at_most = i.at_most;
  }
  on_sample-IsSound panicked s i = outside _ none s.app (λ e. ground arith) i

  connecting-IsSound :
      (s : Gui S)
      → Holds (some Phase.unconnected, s)
      → Holds (do_round d (some Phase.unconnected) s)
  unfolding poll_round
  connecting-IsSound s i =
      let t = record s { app = record s.app { connection = ConnectionStatus.connecting } } in
      let m = gui_connect d in
      tried (m t).0 (m t).1 (
        rw ((gui_connect-KeepsApp d).same t) (record {
          explained = λ m e. ground arith;
          in_touch = λ e. ground arith;
          at_least = i.at_least;
          at_most = i.at_most;
        }))
    where
      tried :
          (o : Outcome (ℕ × ℕ)) (u : Gui S)
          → IsSound (some Phase.unconnected) u.app
          → Holds (let r = proceed (reify o) (on_connect d) u in (place r.0, r.1))
      tried (ok v) u k = on_connect-IsSound (ok v) u k
      tried (err e) u k = on_connect-IsSound (err e) u k
      tried panicked u k = on_connect-IsSound panicked u k

  sampling-IsSound :
      (b : Bool) (s : Gui S)
      → Holds (some Phase.polling, s)
      → Holds (let r = poll_unless d b s in (place r.0, r.1))
  unfolding wait
  sampling-IsSound true s i = slept-IsSound (some Phase.polling) s.app.reconnect_signal _ s i
  sampling-IsSound false s i =
      let m = fetch_telemetry d in
      tried (m s).0 (m s).1 (rw ((fetch_telemetry-KeepsApp d).same s) i)
    where
      tried :
          (o : Outcome Telemetry) (u : Gui S)
          → IsSound (some Phase.polling) u.app
          → Holds (let r = proceed (reify o) (on_sample d) u in (place r.0, r.1))
      tried (ok t) u k = on_sample-IsSound (ok t) u k
      tried (err e) u k = on_sample-IsSound (err e) u k
      tried panicked u k = on_sample-IsSound panicked u k

  round-IsSound : (p : Option Phase) (s : Gui S) → Holds (p, s) → Holds (do_round d p s)
  unfolding poll_round
  round-IsSound none s i = i
  round-IsSound (some Phase.unconnected) s i = connecting-IsSound s i
  round-IsSound (some Phase.polling) s i = sampling-IsSound s.app.poll_paused s i

  pause-IsSound :
      (p : Option Phase) (b : Bool) (a : AppState) → IsSound p a → IsSound p (set_poll_paused b a)
  unfolding set_poll_paused
  pause-IsSound p true a i = alike p a _ refl refl i.at_least i.at_most i
  pause-IsSound p false a i = alike p a _ refl refl i.at_least i.at_most i

  interval-IsSound :
      (p : Option Phase) (seconds : ℕ) (a : AppState)
      → IsSound p a
      → IsSound p (set_poll_interval seconds a)
  unfolding set_poll_interval
  interval-IsSound p seconds a i =
      let bounds = set_poll_interval_bounds seconds a in alike p a _ refl refl bounds.0 bounds.1 i

  act-IsSound : (a : Act) (s : Desktop S) → Holds s → Holds (act d a s)
  act-IsSound Act.round (p, s) i = round-IsSound p s i
  act-IsSound Act.reconnect (p, s) i = alike p s.app _ refl refl i.at_least i.at_most i
  act-IsSound Act.close (p, s) i = alike p s.app _ refl refl i.at_least i.at_most i
  act-IsSound Act.front (p, s) i = alike p s.app _ refl refl i.at_least i.at_most i
  act-IsSound (Act.pause b) (p, s) i = pause-IsSound p b s.app i
  act-IsSound (Act.interval seconds) (p, s) i = interval-IsSound p seconds s.app i
  act-IsSound (Act.command req) (p, s) i = rw ((send_one-KeepsApp d req).same s) i

  acts-IsSound : (l : List Act) (s : Desktop S) → Holds s → Holds (acts d l s)
  unfolding acts
  acts-IsSound [] s i = i
  acts-IsSound (a ∷ rest) s i = acts-IsSound rest (act d a s) (act-IsSound a s i)

  -- However the poller's rounds and the window's commands interleave, and whatever the daemon
  -- answers: a connection error that the window shows is the last one recorded, a poller in its inner
  -- loop is shown as connected, and the poll interval is between half a second and a minute.
  pub desktop_stays_IsSound :
      (l : List Act) (w : S) → let (p, s) = acts d l (launched d w) in IsSound p s.app
  desktop_stays_IsSound l w = acts-IsSound l (launched d w) (record {
    explained = λ m e. ground arith;
    in_touch = λ e. ground arith;
    at_least = ground arith;
    at_most = ground arith;
  })
