-- ===== src/Gui/Desktop/Readings.antt =====
-- What a sample of the desktop application shows, through the daemon's answers to the registers of
-- an I2EC controller.
use lecoo_control_center.Base.{◌≡◌, refl}
use lecoo_control_center.Base.Action.{ok}
use lecoo_control_center.State.{Daemon}
use lecoo_control_center.Ec.Host.{Host}
use lecoo_control_center.Ec.I2ec.{I2ec, IsI2ec}
use lecoo_control_center.Ec.Device.{EcDevice}
use lecoo_control_center.Hw.Getters.{join_bytes}
use lecoo_control_center.Gui.Commands.Applies.{IsDaemonWorld}
use lecoo_control_center.Handlers.Readings.{
  at, answers_temperatures, answers_fans, answers_limits, temperatures_at, fans_at,
}
use lecoo_control_center.Gui.State.{Telemetry}
use lecoo_control_center.Gui.Desktop.{World, Gui, gui_request, ac_connected, fetch_telemetry}

module _ {W : Type 0} (h : Host W) (ec : EcDevice) (view : W → I2ec)
    (chip : IsI2ec h ec.port view) where
  -- A sample shows the temperatures, the fan speeds, the charge and its limits that registers hold.
  abbrev pub IsReading : Telemetry → Daemon W → Type 0
  IsReading t s =
      (t.cpu_temp_c ≡ at h ec view chip ec.offsets.ram_temp_cpu s)
      × (t.sys_temp_c ≡ at h ec view chip ec.offsets.ram_temp_sys s)
      × (t.cpu_fan_rpm
          ≡ join_bytes (at h ec view chip ec.offsets.ram_fan_cpu_msb s)
              (at h ec view chip ec.offsets.ram_fan_cpu_lsb s))
      × (t.gpu_fan_rpm
          ≡ join_bytes (at h ec view chip ec.offsets.ram_fan_gpu_msb s)
              (at h ec view chip ec.offsets.ram_fan_gpu_lsb s))
      × (t.battery_percent ≡ at h ec view chip ec.offsets.ram_bat_rsoc s)
      × (t.charge_limit_min ≡ at h ec view chip ec.offsets.ram_bat_limit_min s)
      × (t.charge_limit_max ≡ at h ec view chip ec.offsets.ram_bat_limit_max s)

  -- With an I2EC controller behind the daemon that answers, a sample succeeds, and shows the
  -- temperatures, the fan speeds, the charge and its limits that the controller's registers hold.
  pub fetch_telemetry_shows_registers :
      (d : World (Daemon W)) (s : Gui (Daemon W))
      → IsDaemonWorld h ec d
      → (t : Telemetry) × ((fetch_telemetry d s).0 ≡ ok t) × IsReading t s.world
  unfolding fetch_telemetry gui_request ac_connected
  fetch_telemetry_shows_registers d s real =
      simp
        (
          real.request_works,
          answers_temperatures h ec view chip,
          answers_fans h ec view chip,
          answers_limits h ec view chip,
        )
        (
          _,
          refl,
          (
            refl,
            refl,
            simp (temperatures_at h ec view chip),
            simp (temperatures_at h ec view chip),
            simp (fans_at h ec view chip, temperatures_at h ec view chip),
            simp (fans_at h ec view chip, temperatures_at h ec view chip),
            simp (fans_at h ec view chip, temperatures_at h ec view chip),
          ),
        )
