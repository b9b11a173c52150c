-- ===== src/Cli/Requests.antt =====
-- What the client's commands make the daemon do, each request answered by `do_work`.
use lecoo_control_center.Base.{ℕ, ◌<◌, ◌≡◌, refl, [], ◌∷◌, ◌++◌, Option, some}
use lecoo_control_center.Base.Text.{Text, codes, decimal}
use lecoo_control_center.Base.Action.{ok}
use lecoo_control_center.State.{Daemon}
use lecoo_control_center.Ec.Host.{Host}
use lecoo_control_center.Ec.Device.{EcDevice}
use lecoo_control_center.Ipc.Settings.{FanIndex, FanMode, cpu, gpu}
use lecoo_control_center.Ipc.Message.{IpcRequest, IpcResponse}
use lecoo_control_center.Hw.Fan.Limit.{apply_fan_mode_refuses}
use lecoo_control_center.Handlers.Requests.{set_fan_mode, handle, do_work}
use lecoo_control_center.Cli.{CliFanIndex, CliFanMode, Commands, choose}
use lecoo_control_center.Cli.Main.{Remote, Words, Console, main, report}
use lecoo_control_center.Cli.Served.{IsServed}

abbrev pub over_limit_text : ℕ → Text
over_limit_text d =
    codes "Processing request failed: "
    ++ (codes "Requested fan duty cycle (" ++ (decimal d ++ codes ") exceeds safe limit (220)."))

abbrev pub refusal_line : Words → ℕ → Text
refusal_line words d =
    words.t (codes "msg_error") ((codes "msg", over_limit_text d) ∷ []) ++ 10 ∷ []

module _ {W : Type 0} (h : Host W) (ec : EcDevice) where
  refused :
      (fan : FanIndex) (d : ℕ) (s : Daemon W)
      → 220 < d
      → do_work h ec (IpcRequest.set_fan_mode fan (FanMode.custom d)) s
        ≡ (ok (IpcResponse.error (over_limit_text d)), s)
  unfolding do_work handle set_fan_mode
  refused fan d s p = rw (apply_fan_mode_refuses h ec fan d s p) refl

  -- On any host, `lecoo-ctrl fan` with a custom duty cycle above 220, for one fan or for both: the
  -- process exits with 1 after one line on the standard error, the message for the daemon's refusal,
  -- and the daemon and its hardware are as they were.
  pub fan_over_limit_changes_nothing :
      (remote : Remote (Daemon W)) (words : Words) (F32 : Type 0) (millis : Option F32 → ℕ)
      (rounds : ℕ) (target : CliFanIndex) (d : ℕ) (s : Console (Daemon W))
      → IsServed h ec remote
      → 220 < d
      → main remote words millis rounds (Commands.fan target CliFanMode.custom (some d)) s
        ≡ (ok (some 1), record s { stderr = s.stderr ++ refusal_line words d ∷ [] })
  unfolding main choose report
  fan_over_limit_changes_nothing remote words F32 millis rounds CliFanIndex.only_cpu d s served p =
      rw (served.connects s.daemon, served.request_works, refused cpu d s.daemon p) refl
  fan_over_limit_changes_nothing remote words F32 millis rounds CliFanIndex.only_gpu d s served p =
      rw (served.connects s.daemon, served.request_works, refused gpu d s.daemon p) refl
  fan_over_limit_changes_nothing remote words F32 millis rounds CliFanIndex.both d s served p =
      rw
        (
          served.connects s.daemon,
          served.request_works (IpcRequest.set_fan_mode cpu (FanMode.custom d)),
          refused cpu d s.daemon p,
          served.request_works,
          refused gpu d s.daemon p,
        )
        refl
