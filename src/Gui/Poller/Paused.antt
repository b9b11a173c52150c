-- ===== src/Gui/Poller/Paused.antt =====
-- A paused poller leaves the daemon alone.
use lecoo_control_center.Base.{ℕ, zero, suc, ◌≡◌, refl, ◌∙◌, Bool, true, false, arith}
use lecoo_control_center.Base.Action.{Outcome, ok}
use lecoo_control_center.Gui.Desktop.{World, Gui}
use lecoo_control_center.Gui.Poller.{
  Phase, paused_check_ms, slept, wait, poll_unless, poll_round, run,
}

-- What the world shows of itself that a sleep does not change.
pub record IsAsleep {S X : Type 0} (d : World S) (obs : S → X) : Type 0 where
  pub kept : (ms : ℕ) (w : S) → obs (d.sleep ms w) ≡ obs w

module _ {S X : Type 0} (d : World S) (obs : S → X) (asleep : IsAsleep d obs) where
  -- In the inner loop, still paused, and the daemon as it was.
  abbrev Idle : Outcome Phase × Gui S → X → Type 0
  Idle r x = (r.0 ≡ ok Phase.polling) × (r.1.app.poll_paused ≡ true) × (obs r.1.world ≡ x)

  slept-Idle :
      (b : Bool) (ms : ℕ) (s : Gui S)
      → s.app.poll_paused ≡ true
      → Idle (ok Phase.polling, slept d b ms s) (obs s.world)
  slept-Idle true ms s p = (refl, p, refl)
  slept-Idle false ms s p = (refl, p, asleep.kept ms s.world)

  unless-Idle :
      (b : Bool) (s : Gui S)
      → b ≡ true
      → s.app.poll_paused ≡ true
      → Idle (poll_unless d b s) (obs s.world)
  unfolding wait
  unless-Idle true s e p = slept-Idle s.app.reconnect_signal paused_check_ms s p
  unless-Idle false s e p = ground arith

  round-Idle :
      (s : Gui S) → s.app.poll_paused ≡ true → Idle (poll_round d Phase.polling s) (obs s.world)
  unfolding poll_round
  round-Idle s p = unless-Idle s.app.poll_paused s p p

  -- However many rounds it makes, a paused poller stays in its inner loop and paused, and whatever a
  -- sleep leaves alone of the world is as it was: in particular it sends the daemon nothing.
  pub paused_run_idles :
      (rounds : ℕ) (s : Gui S)
      → s.app.poll_paused ≡ true
      → let (phase, s') = run d rounds Phase.polling s in
        (phase ≡ ok Phase.polling) × (s'.app.poll_paused ≡ true) × (obs s'.world ≡ obs s.world)
  unfolding run
  paused_run_idles zero s p = (refl, p, refl)
  paused_run_idles (suc rounds) s p =
      let one = round-Idle s p in
      let rest = paused_run_idles rounds (poll_round d Phase.polling s).1 one.1 in
      rw one.0 (rest.0, rest.1, rest.2 ∙ one.2)
