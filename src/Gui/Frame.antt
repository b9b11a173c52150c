-- ===== src/Gui/Frame.antt =====
-- Calls to the daemon's connection leave the application's state alone, however they end.
use lecoo_control_center.Base.{◌≡◌, refl, ◌∙◌}
use lecoo_control_center.Base.Text.{Text}
use lecoo_control_center.Base.Action.{
  Action, Outcome, ok, err, panicked, pure, fail, proceed, ◌>>=◌,
}
use lecoo_control_center.Ipc.Message.{IpcRequest, IpcResponse}
use lecoo_control_center.Gui.Desktop.{
  World, Gui, gui_connect, gui_request, ac_connected, timestamp, temps_of, fans_of, fetch_telemetry,
}
use lecoo_control_center.Gui.Commands.{accepted, send_one}

pub record KeepsApp {S A : Type 0} (m : Action (Gui S) A) : Type 0 where
  pub same : (s : Gui S) → (m s).1.app ≡ s.app

module _ {S : Type 0} where
  proceed-same :
      {A B : Type 0} (o : Outcome A) (f : A → Action (Gui S) B) (s : Gui S)
      → ((a : A) → KeepsApp (f a))
      → (proceed o f s).1.app ≡ s.app
  proceed-same (ok a) f s k = (k a).same s
  proceed-same (err e) f s k = refl
  proceed-same panicked f s k = refl

  bind-KeepsApp :
      {A B : Type 0} {m : Action (Gui S) A} {f : A → Action (Gui S) B}
      → KeepsApp m
      → ((a : A) → KeepsApp (f a))
      → KeepsApp (m >>= f)
  bind-KeepsApp {m} {f} k l = record { same = λ s. proceed-same (m s).0 f (m s).1 l ∙ k.same s }

  pure-KeepsApp : {A : Type 0} (a : A) → KeepsApp (pure {S = Gui S} a)
  pure-KeepsApp a = record { same = λ s. refl }

  fail-KeepsApp : {A : Type 0} (e : Text) → KeepsApp (fail {S = Gui S} {A = A} e)
  fail-KeepsApp e = record { same = λ s. refl }

ruleset app_frame = (bind-KeepsApp, pure-KeepsApp, fail-KeepsApp)

module _ {S : Type 0} (d : World S) where
  pub gui_connect-KeepsApp : KeepsApp (gui_connect d)
  unfolding gui_connect
  gui_connect-KeepsApp = record { same = λ s. refl }

  gui_request-KeepsApp : (req : IpcRequest) → KeepsApp (gui_request d req)
  unfolding gui_request
  gui_request-KeepsApp req = record { same = λ s. refl }

  ac_connected-KeepsApp : KeepsApp (ac_connected d)
  unfolding ac_connected
  ac_connected-KeepsApp = record { same = λ s. refl }

  timestamp-KeepsApp : KeepsApp (timestamp d)
  timestamp-KeepsApp = record { same = λ s. refl }

  temps_of-KeepsApp : (r : IpcResponse) → KeepsApp (temps_of d r)
  temps_of-KeepsApp (IpcResponse.temp c s) = search app_frame
  temps_of-KeepsApp (IpcResponse.error e) = search app_frame
  temps_of-KeepsApp _ = search app_frame

  fans_of-KeepsApp : (r : IpcResponse) → KeepsApp (fans_of d r)
  fans_of-KeepsApp (IpcResponse.fan_rpm c g) = search app_frame
  fans_of-KeepsApp (IpcResponse.error e) = search app_frame
  fans_of-KeepsApp _ = search app_frame

  accepted-KeepsApp : (r : IpcResponse) → KeepsApp (accepted d r)
  accepted-KeepsApp IpcResponse.success = search app_frame
  accepted-KeepsApp (IpcResponse.error e) = search app_frame
  accepted-KeepsApp _ = search app_frame

  pub fetch_telemetry-KeepsApp : KeepsApp (fetch_telemetry d)
  unfolding fetch_telemetry
  fetch_telemetry-KeepsApp =
      search
        (
          app_frame, gui_request-KeepsApp, temps_of-KeepsApp, fans_of-KeepsApp,
          ac_connected-KeepsApp, timestamp-KeepsApp,
        )
        depth 12

  pub send_one-KeepsApp : (req : IpcRequest) → KeepsApp (send_one d req)
  unfolding send_one
  send_one-KeepsApp req =
      search (app_frame, gui_connect-KeepsApp, gui_request-KeepsApp, accepted-KeepsApp)
