-- ===== src/Hw/Charge/RoundTrip.antt =====
-- A charge limit that is applied is the one that is read back.
use lecoo_control_center.Base.{ℕ, ◌≡◌, ◌≢◌, ◌↔◌, refl, ap, some, arith}
use lecoo_control_center.Base.Action.{ok, proceed}
use lecoo_control_center.State.{Daemon}
use lecoo_control_center.Ec.Host.{Host}
use lecoo_control_center.Ec.I2ec.{I2ec, IsI2ec, update}
use lecoo_control_center.Ec.Device.{
  EcDevice, with_batch_result, with_batch_world, with_batch_statics, ram_addr,
}
use lecoo_control_center.Ec.Registers.{regs, IsRegisterFile, read_ram_at, i2ec-IsRegisterFile}
use lecoo_control_center.Ipc.Settings.{ChargeLimit, as_percent, from_predefined}
use lecoo_control_center.Hw.Charge.{read_charge_limit, apply_charge_limit}

-- `from_predefined` recognises exactly the pairs that `as_percent` gives, each as its own limit.
pub from_predefined-as_percent :
    (min max : ℕ) (limit : ChargeLimit)
    → (from_predefined min max ≡ some limit) ↔ (as_percent limit ≡ (min, max))
unfolding from_predefined as_percent
from_predefined-as_percent min max limit = ground arith

module _ {W : Type 0} (h : Host W) (ec : EcDevice) (r : W → ℕ → ℕ)
    (file : IsRegisterFile h ec r) where
  pub apply_charge_limit_ok :
      (limit : ChargeLimit) (s : Daemon W) → (apply_charge_limit h ec limit s).0 ≡ ok tt
  unfolding apply_charge_limit
  apply_charge_limit_ok limit s = simp (proceed, with_batch_result, file.batch_write_ram_ok)

  pub apply_charge_limit_regs :
      (limit : ChargeLimit) (s : Daemon W)
      → r (apply_charge_limit h ec limit s).1.world
        ≡ update
            (update (r s.world) (ram_addr ec ec.offsets.ram_bat_limit_min) (as_percent limit).0)
            (ram_addr ec ec.offsets.ram_bat_limit_max)
            (as_percent limit).1
  unfolding apply_charge_limit
  apply_charge_limit_regs limit s =
      simp (proceed, with_batch_result, with_batch_world, file.batch_write_ram_ok)
        (simp (file.batch_write_ram_regs, file.clock))

  pub apply_charge_limit_statics :
      (limit : ChargeLimit) (s : Daemon W) → (apply_charge_limit h ec limit s).1.statics ≡ s.statics
  unfolding apply_charge_limit
  apply_charge_limit_statics limit s = simp (
    proceed, with_batch_result, with_batch_statics, file.batch_write_ram_ok,
    file.batch_write_ram_statics,
  )

  pub read_charge_limit_ok :
      (s : Daemon W)
      → (read_charge_limit h ec s).0
        ≡ ok (
          r s.world (ram_addr ec ec.offsets.ram_bat_limit_min),
          r s.world (ram_addr ec ec.offsets.ram_bat_limit_max),
        )
  unfolding read_charge_limit
  read_charge_limit_ok s = simp (proceed, file.read_ram_ok) (simp (read_ram_at file))

module _ {W : Type 0} (h : Host W) (ec : EcDevice) (view : W → I2ec)
    (chip : IsI2ec h ec.port view) where
  file : IsRegisterFile h ec (regs view)
  file = i2ec-IsRegisterFile h ec view chip

  readback :
      (limit : ChargeLimit) (s : Daemon W)
      → ram_addr ec ec.offsets.ram_bat_limit_min ≢ ram_addr ec ec.offsets.ram_bat_limit_max
      → (read_charge_limit h ec (apply_charge_limit h ec limit s).1).0 ≡ ok (as_percent limit)
  readback limit s ne =
      let written = apply_charge_limit_regs h ec (regs view) file limit s in
      ground (
        arith,
        read_charge_limit_ok h ec (regs view) file (apply_charge_limit h ec limit s).1,
        ap (λ (f : ℕ → ℕ). f (ram_addr ec ec.offsets.ram_bat_limit_min)) written,
        ap (λ (f : ℕ → ℕ). f (ram_addr ec ec.offsets.ram_bat_limit_max)) written,
      )

  -- On an I2EC controller whose two limit registers are different ones, applying a limit succeeds, and reading the
  -- limits afterwards gives a pair that `from_predefined` recognises as the limit applied.
  pub charge_limit_round_trip :
      (limit : ChargeLimit) (s : Daemon W)
      → ram_addr ec ec.offsets.ram_bat_limit_min ≢ ram_addr ec ec.offsets.ram_bat_limit_max
      → let (done, s') = apply_charge_limit h ec limit s in
        (done ≡ ok tt)
        × ((read_charge_limit h ec s').0 ≡ ok (as_percent limit))
        × (from_predefined (as_percent limit).0 (as_percent limit).1 ≡ some limit)
  charge_limit_round_trip limit s ne = (
    apply_charge_limit_ok h ec (regs view) file limit s,
    readback limit s ne,
    (from_predefined-as_percent _ _ limit).1 refl,
  )
