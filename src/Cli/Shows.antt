-- ===== src/Cli/Shows.antt =====
-- What the client prints of the controller's registers, each request answered by `do_work`.
use lecoo_control_center.Base.{ℕ, ◌≡◌, refl, Option, some, [], ◌∷◌, ◌++◌}
use lecoo_control_center.Base.Text.{Text, codes, decimal}
use lecoo_control_center.Base.Action.{ok}
use lecoo_control_center.State.{Daemon}
use lecoo_control_center.Ec.Host.{Host}
use lecoo_control_center.Ec.I2ec.{I2ec, IsI2ec}
use lecoo_control_center.Ec.Device.{EcDevice}
use lecoo_control_center.Hw.Getters.{join_bytes, read_temperatures}
use lecoo_control_center.Handlers.Readings.{at, answers_temperatures, answers_fans, temperatures_at}
use lecoo_control_center.Cli.{Commands, choose}
use lecoo_control_center.Cli.Main.{
  Remote, Words, Console, monitor_line, monitor_round, report, main,
}
use lecoo_control_center.Cli.Served.{IsServed}

module _ {W : Type 0} (h : Host W) (ec : EcDevice) (view : W → I2ec) (chip : IsI2ec h ec.port view)
    (words : Words) where
  -- The temperatures and the fan speeds that the registers hold.
  abbrev pub temps_at : Daemon W → ℕ × ℕ
  temps_at s =
      (at h ec view chip ec.offsets.ram_temp_cpu s, at h ec view chip ec.offsets.ram_temp_sys s)

  abbrev pub speeds_at : Daemon W → ℕ × ℕ
  speeds_at s = (
    join_bytes (at h ec view chip ec.offsets.ram_fan_cpu_msb s)
        (at h ec view chip ec.offsets.ram_fan_cpu_lsb s),
    join_bytes (at h ec view chip ec.offsets.ram_fan_gpu_msb s)
        (at h ec view chip ec.offsets.ram_fan_gpu_lsb s),
  )

  abbrev pub temps_text : ℕ × ℕ → Text
  temps_text temps =
      words.t (codes "resp_temps")
        ((codes "cpu", decimal temps.0) ∷ (codes "sys", decimal temps.1) ∷ [])
      ++ 10 ∷ []

  abbrev pub speeds_text : ℕ × ℕ → Text
  speeds_text fans =
      words.t (codes "resp_fans_rpm")
        ((codes "cpu", decimal fans.0) ∷ (codes "gpu", decimal fans.1) ∷ [])
      ++ 10 ∷ []

  -- With an I2EC controller behind the daemon: `temps` and `fans` exit with 0 and print one text, the
  -- temperatures or the fan speeds that the registers hold, and a round of the monitoring prints both,
  -- and does not panic.
  pub client_shows_registers :
      (remote : Remote (Daemon W)) (F32 : Type 0) (millis : Option F32 → ℕ) (rounds rate : ℕ)
      (s : Console (Daemon W))
      → IsServed h ec remote
      → let temps = main remote words millis rounds Commands.temps s in
        let fans = main remote words millis rounds Commands.fans s in
        let round = monitor_round remote words rate s in
        (temps.0 ≡ ok (some 0))
        × (temps.1.stdout ≡ s.stdout ++ temps_text (temps_at s.daemon) ∷ [])
        × (fans.0 ≡ ok (some 0))
        × (fans.1.stdout ≡ s.stdout ++ speeds_text (speeds_at s.daemon) ∷ [])
        × (round.0 ≡ ok tt)
        × (round.1.stdout
            ≡ s.stdout ++ monitor_line remote words (temps_at s.daemon) (speeds_at s.daemon) ∷ [])
  unfolding main choose report monitor_round
  client_shows_registers remote F32 millis rounds rate s served =
      let connected = served.connects s.daemon in
      let temps = answers_temperatures h ec view chip s.daemon in
      let later = (read_temperatures h ec s.daemon).1 in
      let speeds = answers_fans h ec view chip later in
      (
        rw (connected, served.request_works, temps) refl,
        rw (connected, served.request_works, temps) refl,
        rw (connected, served.request_works, answers_fans h ec view chip s.daemon) refl,
        rw (connected, served.request_works, answers_fans h ec view chip s.daemon) refl,
        rw (served.request_works, temps, served.request_works, speeds) refl,
        rw (served.request_works, temps, served.request_works, speeds)
            (simp (temperatures_at h ec view chip)),
      )
