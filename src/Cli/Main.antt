-- ===== src/Cli/Main.antt =====
-- `main` of the command line client (cli/src/main.rs): what it asks of the daemon, what it prints,
-- and the code that it exits with.
use lecoo_control_center.Base.{
  ℕ, zero, suc, Option, none, some, List, [], ◌∷◌, ◌++◌, ◌==◌, ◌&&◌, if◌then◌else◌,
}
use lecoo_control_center.Base.Text.{Text, codes, decimal, hex_digits}
use lecoo_control_center.Base.Action.{Action, pure, panic, modify, ◌>>=◌, ◌>>◌}
use lecoo_control_center.Ipc.Settings.{CurrentSettings, display_profile, display_level}
use lecoo_control_center.Ipc.Message.{DaemonResponse, IpcRequest, IpcResponse}
use lecoo_control_center.Handlers.Settings.{context}
use lecoo_control_center.Cli.{Commands, Chosen, choose}

-- The daemon as the client reaches it: `IpcClient::connect` with the daemon's version, a request on
-- the connection, and a sleep of so many milliseconds.
pub record Remote (D : Type 0) : Type 0 where
  pub connect : Action D (ℕ × ℕ)
  pub request : IpcRequest → Action D IpcResponse
  pub sleep : ℕ → D → D

-- The macro `t!` on a key and its values, and `{:#?}` of the settings.
pub record Words : Type 0 where
  pub t : Text → List (Text × Text) → Text
  pub debug : CurrentSettings → Text

-- What has been printed, the latest last.
pub record Console (D : Type 0) : Type 0 where
  pub daemon : D
  pub stdout : List Text
  pub stderr : List Text

module _ {D : Type 0} (remote : Remote D) (words : Words) where
  abbrev pub in_daemon : {A : Type 0} → Action D A → Action (Console D) A
  in_daemon m s = ((m s.daemon).0, record s { daemon = (m s.daemon).1 })

  abbrev pub ask : IpcRequest → Action (Console D) IpcResponse
  ask req = in_daemon (remote.request req)

  abbrev pub print : Text → Action (Console D) (Unit {0})
  print text = modify (λ s. record s { stdout = s.stdout ++ text ∷ [] })

  abbrev pub println : Text → Action (Console D) (Unit {0})
  println text = print (text ++ 10 ∷ [])

  abbrev pub eprintln : Text → Action (Console D) (Unit {0})
  eprintln text = modify (λ s. record s { stderr = s.stderr ++ (text ++ 10 ∷ []) ∷ [] })

  abbrev pub charge_line : ℕ → ℕ → Text
  charge_line min max =
      if (min == 0) && (max == 0)
      then words.t (codes "resp_charge_full") []
      else words.t (codes "resp_charge_range")
          ((codes "min", decimal min) ∷ (codes "max", decimal max) ∷ [])

  -- The match on the answer: the code that the process exits with.
  unfoldable pub report : IpcResponse → Action (Console D) ℕ
  report IpcResponse.success = do println (words.t (codes "msg_success") []); pure 0
  report (IpcResponse.system_info chip rev offset ver) = do
    println (
        words.t (codes "resp_sys_info") (
          (codes "chip", chip)
          ∷ (codes "rev", rev)
          ∷ (codes "offset", hex_digits 4 offset)
          ∷ (codes "ver", ver)
          ∷ []))
    pure 0
  report (IpcResponse.fan_rpm cpu gpu) = do
    println (
        words.t (codes "resp_fans_rpm")
          ((codes "cpu", decimal cpu) ∷ (codes "gpu", decimal gpu) ∷ []))
    pure 0
  report (IpcResponse.temp cpu sys) = do
    println (
        words.t (codes "resp_temps") ((codes "cpu", decimal cpu) ∷ (codes "sys", decimal sys) ∷ []))
    pure 0
  report (IpcResponse.keyboard_backlight lvl) = do
    println (words.t (codes "resp_kbd_backlight") ((codes "lvl", display_level lvl) ∷ []))
    pure 0
  report (IpcResponse.charge_limit min max cur) = do
    println (words.t (codes "resp_charge_title") [])
    println (charge_line min max)
    println (words.t (codes "resp_charge_current") ((codes "cur", decimal cur) ∷ []))
    pure 0
  report (IpcResponse.power_limit prof) = do
    println (words.t (codes "resp_power_title") [])
    println (words.t (codes "resp_power_current") ((codes "prof", display_profile prof) ∷ []))
    pure 0
  report IpcResponse.telemetry_disabled_info = do
    println (words.t (codes "resp_telemetry_disabled") [])
    pure 0
  report (IpcResponse.error msg) = do
    eprintln (words.t (codes "msg_error") ((codes "msg", msg) ∷ []))
    pure 1
  report (IpcResponse.daemon_response (DaemonResponse.settings s)) = do
    println (words.debug s)
    pure 0
  report (IpcResponse.daemon_response (DaemonResponse.telemetry_id id)) = do
    println (words.t (codes "resp_telemetry_id") ((codes "id", hex_digits 16 id) ∷ []))
    pure 0

  -- `let … else { unreachable!() }`
  abbrev pub only_temp : IpcResponse → Action (Console D) (ℕ × ℕ)
  only_temp (IpcResponse.temp cpu system) = pure (cpu, system)
  only_temp other = panic

  abbrev pub only_fans : IpcResponse → Action (Console D) (ℕ × ℕ)
  only_fans (IpcResponse.fan_rpm cpu_fan gpu_fan) = pure (cpu_fan, gpu_fan)
  only_fans other = panic

  abbrev pub monitor_line : ℕ × ℕ → ℕ × ℕ → Text
  monitor_line temps fans =
      13
        ∷ words.t (codes "msg_monitoring_loop") (
            (codes "cpu", decimal temps.0)
            ∷ (codes "sys", decimal temps.1)
            ∷ (codes "cpu_f", decimal fans.0)
            ∷ (codes "gpu_f", decimal fans.1)
            ∷ [])
      ++ codes "      "

  -- A round of the monitoring loop, and so many rounds.
  unfoldable pub monitor_round : ℕ → Action (Console D) (Unit {0})
  monitor_round update_rate = do
    temp ← ask IpcRequest.get_temperatures
    temps ← only_temp temp
    rpm ← ask IpcRequest.get_fans_rpm
    fans ← only_fans rpm
    print (monitor_line temps fans)
    modify (λ s. record s { daemon = remote.sleep update_rate s.daemon })

  unfoldable pub monitor : ℕ → ℕ → Action (Console D) (Unit {0})
  monitor zero update_rate = pure tt
  monitor (suc rounds) update_rate =
      let rest = monitor rounds update_rate in monitor_round update_rate >> rest

  module _ {F32 : Type 0} (millis : Option F32 → ℕ) where
    -- The code that the process exits with; `none` if it still monitors after so many rounds.
    abbrev pub finish : ℕ → ℕ × ℕ → Chosen F32 → Action (Console D) (Option ℕ)
    finish rounds version (Chosen.request req) = do
      res ← ask req
      code ← report res
      pure (some code)
    finish rounds version (Chosen.monitor rate) = do
      println (words.t (codes "msg_monitoring_start") ((codes "rate", decimal (millis rate)) ∷ []))
      monitor rounds (millis rate)
      pure none
    finish rounds version Chosen.print_version = do
      println (decimal version.0 ++ (codes "." ++ decimal version.1))
      pure (some 0)

    unfoldable pub main : ℕ → Commands F32 → Action (Console D) (Option ℕ)
    main rounds command = do
      version ← context (words.t (codes "err_daemon_connection") []) (in_daemon remote.connect)
      choice ← choose ask command
      finish rounds version choice
