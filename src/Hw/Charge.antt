-- ===== src/Hw/Charge.antt =====
-- The battery's charge limit and its state of charge: daemon/src/ec/hw/flexicharger.rs.
pub mod RoundTrip
use lecoo_control_center.Base.{ℕ}
use lecoo_control_center.Base.Action.{Action, pure, ◌>>=◌, ◌>>◌}
use lecoo_control_center.State.{Daemon}
use lecoo_control_center.Ec.Host.{Host}
use lecoo_control_center.Ec.Device.{EcDevice, read_ram, with_batch, batch_write_ram}
use lecoo_control_center.Ipc.Settings.{ChargeLimit, as_percent}

module _ {W : Type 0} (h : Host W) where
  unfoldable pub read_charge_limit : EcDevice → Action (Daemon W) (ℕ × ℕ)
  read_charge_limit ec = do
    min ← read_ram h ec ec.offsets.ram_bat_limit_min
    max ← read_ram h ec ec.offsets.ram_bat_limit_max
    pure (min, max)

  unfoldable pub read_battery_rsoc : EcDevice → Action (Daemon W) ℕ
  read_battery_rsoc ec = read_ram h ec ec.offsets.ram_bat_rsoc

  unfoldable pub apply_charge_limit : EcDevice → ChargeLimit → Action (Daemon W) (Unit {0})
  apply_charge_limit ec limit = do
    let min = (as_percent limit).0
    let max = (as_percent limit).1
    with_batch h (do
      batch_write_ram h ec ec.offsets.ram_bat_limit_min min
      batch_write_ram h ec ec.offsets.ram_bat_limit_max max)
    pure tt
