-- ===== src/Telemetry/Status.antt =====
-- What the worker sends on a timeout, on an I2EC controller.
use lecoo_control_center.Base.{ℕ, ◌≡◌, refl, ◌∙◌, ap, true, some, List}
use lecoo_control_center.Base.Action.{Outcome, ok, err, panicked, pure, proceed}
use lecoo_control_center.State.{Daemon}
use lecoo_control_center.Ec.Host.{Host}
use lecoo_control_center.Ec.I2ec.{I2ec, IsI2ec}
use lecoo_control_center.Ec.Device.{EcDevice, ram_addr}
use lecoo_control_center.Ec.Registers.{regs, IsRegisterFile, i2ec-IsRegisterFile}
use lecoo_control_center.Ipc.Settings.{PowerProfile, profile_byte}
use lecoo_control_center.Ipc.Message.{TelemetryData}
use lecoo_control_center.Hw.Power.{read_power_profile}
use lecoo_control_center.Hw.Getters.{join_bytes, read_fans_rpm, read_temperatures}
use lecoo_control_center.Hw.Getters.Reads.{
  read_temperatures_ok, read_temperatures_regs, read_temperatures_statics, read_fans_rpm_ok,
  read_fans_rpm_regs, read_fans_rpm_statics, read_power_profile_ok, read_power_profile_regs,
  read_power_profile_statics,
}
use lecoo_control_center.Telemetry.{Uplink, Received, send_to_server, work_once}

-- The reading that the registers show.
abbrev pub status_of : EcDevice → (ℕ → ℕ) → PowerProfile → TelemetryData
status_of ec r profile =
    let b = λ (offset : ℕ). r (ram_addr ec offset) in
    TelemetryData.status profile (b ec.offsets.ram_temp_cpu, b ec.offsets.ram_temp_sys)
      (
        join_bytes (b ec.offsets.ram_fan_cpu_msb) (b ec.offsets.ram_fan_cpu_lsb),
        join_bytes (b ec.offsets.ram_fan_gpu_msb) (b ec.offsets.ram_fan_gpu_lsb),
      )

module _ {W : Type 0} (h : Host W) (uplink : Uplink W) (ec : EcDevice) (view : W → I2ec)
    (chip : IsI2ec h ec.port view) where
  file : IsRegisterFile h ec (regs view)
  file = i2ec-IsRegisterFile h ec view chip

  -- The state after the three reads.
  abbrev sampled : Daemon W → Daemon W
  sampled s = (read_fans_rpm h ec (read_temperatures h ec (read_power_profile h ec s).1).1).1

  sampled-regs : (s : Daemon W) → regs view (sampled s).world ≡ regs view s.world
  sampled-regs s =
      read_fans_rpm_regs h ec (regs view) file _
      ∙ read_temperatures_regs h ec (regs view) file _
      ∙ read_power_profile_regs h ec (regs view) file s

  sampled-statics : (s : Daemon W) → (sampled s).statics ≡ s.statics
  sampled-statics s =
      read_fans_rpm_statics h ec (regs view) file _
      ∙ read_temperatures_statics h ec (regs view) file _
      ∙ read_power_profile_statics h ec (regs view) file s

  -- The same at one register.
  profile_at :
      (s : Daemon W) (b : ℕ) → regs view (read_power_profile h ec s).1.world b ≡ regs view s.world b
  profile_at s b = ap (λ (f : ℕ → ℕ). f b) (read_power_profile_regs h ec (regs view) file s)

  temperatures_at :
      (s : Daemon W) (b : ℕ) → regs view (read_temperatures h ec s).1.world b ≡ regs view s.world b
  temperatures_at s b = ap (λ (f : ℕ → ℕ). f b) (read_temperatures_regs h ec (regs view) file s)

  then_true : (o : Outcome (Unit {0})) (t : Daemon W) → (proceed o (λ x. pure true) t).1 ≡ t
  then_true (ok u) t = refl
  then_true (err e) t = refl
  then_true panicked t = refl

  -- The worker's call on the timeout is the call that sends the status.
  timeout_sends :
      (profile : PowerProfile) (s : Daemon W)
      → s.statics.telemetry_enabled ≡ true
      → regs view s.world (ram_addr ec ec.offsets.ram_power_profile) ≡ profile_byte profile
      → (work_once h uplink (some ec) Received.timeout s).1
        ≡ (send_to_server h uplink (status_of ec (regs view s.world) profile) (sampled s)).1
  unfolding work_once
  timeout_sends profile s on shown =
      simp
        (
          on,
          read_power_profile_ok h ec (regs view) file profile s shown,
          read_temperatures_ok h ec (regs view) file,
          read_fans_rpm_ok h ec (regs view) file,
          then_true,
        )
        (simp (temperatures_at, profile_at))

  -- A payload that is encoded is posted, once.
  sent :
      (content : TelemetryData) (bytes : List ℕ) (t : Daemon W)
      → uplink.encode (record { id = t.statics.telemetry_id; content = content }) ≡ some bytes
      → (send_to_server h uplink content t).1 ≡ record t { world = (uplink.post bytes t.world).1 }
  unfolding send_to_server
  sent content bytes t e = rw e refl

  -- On an I2EC controller whose profile register shows a profile, with the switch on, and where the
  -- encoder has bytes for the status under the stored id with that profile and the temperatures and
  -- fan speeds that the registers hold: a timeout posts exactly those bytes to the server, once, with
  -- the registers as they were, and leaves the statics as they were.
  pub timeout_sends_registers :
      (profile : PowerProfile) (bytes : List ℕ) (s : Daemon W)
      → s.statics.telemetry_enabled ≡ true
      → regs view s.world (ram_addr ec ec.offsets.ram_power_profile) ≡ profile_byte profile
      → uplink.encode (record {
        id = s.statics.telemetry_id;
        content = status_of ec (regs view s.world) profile;
      })
        ≡ some bytes
      → let after = (work_once h uplink (some ec) Received.timeout s).1 in
        (w : W) × (regs view w ≡ regs view s.world)
        × (after.world ≡ (uplink.post bytes w).1)
        × (after.statics ≡ s.statics)
  timeout_sends_registers profile bytes s on shown encoded =
      let content = status_of ec (regs view s.world) profile in
      let same =
        ap (λ st. uplink.encode (record { id = st.telemetry_id; content = content }))
          (sampled-statics s) in
      let posted =
        timeout_sends profile s on shown ∙ sent content bytes (sampled s) (same ∙ encoded) in
      (
        (sampled s).world,
        sampled-regs s,
        ap (λ t. t.world) posted,
        ap (λ t. t.statics) posted ∙ sampled-statics s,
      )
