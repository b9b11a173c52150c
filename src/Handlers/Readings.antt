-- ===== src/Handlers/Readings.antt =====
-- What the daemon answers to requests for readings, with an I2EC controller: what the registers hold.
use lecoo_control_center.Base.{ℕ, ◌≡◌, ap}
use lecoo_control_center.Base.Action.{ok, proceed}
use lecoo_control_center.State.{Daemon}
use lecoo_control_center.Ec.Host.{Host}
use lecoo_control_center.Ec.I2ec.{I2ec, IsI2ec}
use lecoo_control_center.Ec.Device.{EcDevice, ram_addr}
use lecoo_control_center.Ec.Registers.{regs, IsRegisterFile, read_ram_at, i2ec-IsRegisterFile}
use lecoo_control_center.Ipc.Message.{IpcRequest, IpcResponse}
use lecoo_control_center.Hw.Charge.{read_charge_limit, read_battery_rsoc}
use lecoo_control_center.Hw.Charge.RoundTrip.{read_charge_limit_ok}
use lecoo_control_center.Hw.Getters.{join_bytes, read_fans_rpm, read_temperatures}
use lecoo_control_center.Hw.Getters.Reads.{
  read_temperatures_ok, read_temperatures_regs, read_fans_rpm_ok, read_fans_rpm_regs,
}
use lecoo_control_center.Handlers.Requests.{
  get_temperatures, get_fans_rpm, get_charge_limit, handle, do_work,
}

module _ {W : Type 0} (h : Host W) (ec : EcDevice) (view : W → I2ec)
    (chip : IsI2ec h ec.port view) where
  file : IsRegisterFile h ec (regs view)
  file = i2ec-IsRegisterFile h ec view chip

  -- The byte at an offset of the RAM window.
  abbrev pub at : ℕ → Daemon W → ℕ
  at offset s = regs view s.world (ram_addr ec offset)

  pub answers_temperatures :
      (s : Daemon W)
      → do_work h ec IpcRequest.get_temperatures s ≡ (
        ok (IpcResponse.temp (at ec.offsets.ram_temp_cpu s) (at ec.offsets.ram_temp_sys s)),
        (read_temperatures h ec s).1,
      )
  unfolding do_work handle get_temperatures
  answers_temperatures s = simp (read_temperatures_ok h ec (regs view) file)

  pub answers_fans :
      (s : Daemon W)
      → do_work h ec IpcRequest.get_fans_rpm s ≡ (
        ok (
            IpcResponse.fan_rpm
              (join_bytes (at ec.offsets.ram_fan_cpu_msb s) (at ec.offsets.ram_fan_cpu_lsb s))
              (join_bytes (at ec.offsets.ram_fan_gpu_msb s) (at ec.offsets.ram_fan_gpu_lsb s))),
        (read_fans_rpm h ec s).1,
      )
  unfolding do_work handle get_fans_rpm
  answers_fans s = simp (read_fans_rpm_ok h ec (regs view) file)

  limits_at :
      (s : Daemon W) (b : ℕ) → regs view (read_charge_limit h ec s).1.world b ≡ regs view s.world b
  unfolding read_charge_limit
  limits_at s b = simp (proceed, file.read_ram_ok) (simp (read_ram_at file))

  pub answers_limits :
      (s : Daemon W)
      → (do_work h ec IpcRequest.get_charge_limit s).0
        ≡ ok (
            IpcResponse.charge_limit
              (at ec.offsets.ram_bat_limit_min s)
              (at ec.offsets.ram_bat_limit_max s)
              (at ec.offsets.ram_bat_rsoc s))
  unfolding do_work handle get_charge_limit read_battery_rsoc
  answers_limits s =
      simp (read_charge_limit_ok h ec (regs view) file, file.read_ram_ok) (simp limits_at)

  pub temperatures_at :
      (s : Daemon W) (b : ℕ) → regs view (read_temperatures h ec s).1.world b ≡ regs view s.world b
  temperatures_at s b = ap (λ (f : ℕ → ℕ). f b) (read_temperatures_regs h ec (regs view) file s)

  pub fans_at :
      (s : Daemon W) (b : ℕ) → regs view (read_fans_rpm h ec s).1.world b ≡ regs view s.world b
  fans_at s b = ap (λ (f : ℕ → ℕ). f b) (read_fans_rpm_regs h ec (regs view) file s)
