-- ===== src/Hw/Getters.antt =====
-- The readings: daemon/src/ec/hw/getters.rs.
pub mod Reads
use Prim.Native.Nat.{bit_or}
use lecoo_control_center.Base.{ℕ, ◌*◌, ◌%◌}
use lecoo_control_center.Base.Action.{Action, pure, ◌>>=◌}
use lecoo_control_center.State.{Daemon}
use lecoo_control_center.Ec.Host.{Host}
use lecoo_control_center.Ec.Device.{EcDevice, with_batch, batch_read_reg, batch_read_ram}

-- `(msb << 8) | lsb` on `u16`.
abbrev pub join_bytes : ℕ → ℕ → ℕ
join_bytes msb lsb = bit_or (msb * 256 % 65536) lsb

module _ {W : Type 0} (h : Host W) where
  unfoldable pub read_system_info : EcDevice → Action (Daemon W) (ℕ × ℕ × ℕ)
  read_system_info ec = with_batch h (do
    chip_id1 ← batch_read_reg h ec ec.offsets.reg_chip_id1
    chip_id2 ← batch_read_reg h ec ec.offsets.reg_chip_id2
    chip_ver ← batch_read_reg h ec ec.offsets.reg_chip_ver
    pure (chip_id1, chip_id2, chip_ver))

  unfoldable pub read_fans_rpm : EcDevice → Action (Daemon W) (ℕ × ℕ)
  read_fans_rpm ec = with_batch h (do
    cpu_msb ← batch_read_ram h ec ec.offsets.ram_fan_cpu_msb
    cpu_lsb ← batch_read_ram h ec ec.offsets.ram_fan_cpu_lsb
    gpu_msb ← batch_read_ram h ec ec.offsets.ram_fan_gpu_msb
    gpu_lsb ← batch_read_ram h ec ec.offsets.ram_fan_gpu_lsb
    pure (join_bytes cpu_msb cpu_lsb, join_bytes gpu_msb gpu_lsb))

  unfoldable pub read_temperatures : EcDevice → Action (Daemon W) (ℕ × ℕ)
  read_temperatures ec = with_batch h (do
    cpu_temp ← batch_read_ram h ec ec.offsets.ram_temp_cpu
    sys_temp ← batch_read_ram h ec ec.offsets.ram_temp_sys
    pure (cpu_temp, sys_temp))
