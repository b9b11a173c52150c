-- ===== src/Tests/Hardware.antt =====
-- The theorems on the hardware functions, applied on the bench.
use lecoo_control_center.Base.{◌≤◌, ◌≡◌, ◌%◌, refl, true, false, some, inl, arith}
use lecoo_control_center.Base.Action.{ok}
use lecoo_control_center.Ec.I2ec.{I2ec, update}
use lecoo_control_center.Ec.Registers.{regs}
use lecoo_control_center.Ec.Device.{write_reg, read_reg, ram_addr}
use lecoo_control_center.Ec.ReadBack.{write_reg_reads_back}
use lecoo_control_center.Ec.Offsets.{default_n155a}
use lecoo_control_center.Ec.Probe.{new_device, find_hram, possible_bases}
use lecoo_control_center.Ec.Probe.Finds.{first_base, find_hram_first}
use lecoo_control_center.Ec.Probe.Returns.{Returns}
use lecoo_control_center.Ec.Probe.Detected
use lecoo_control_center.Ec.Probe.Detected.{
  IsDetected, SuperIoPort, Window, detected, new_device-IsDetected,
}
use lecoo_control_center.Ipc.Breath.{sleep}
use lecoo_control_center.Ipc.Settings.{
  FanMode, ChargeLimit, PowerLedMode, cpu, gpu, fan_word, as_percent, from_predefined,
}
use lecoo_control_center.Hw.Fan.{apply_fan_mode, thermal_policy_override}
use lecoo_control_center.Hw.Fan.Limit.{apply_fan_mode_sets, apply_fan_mode_limit}
use lecoo_control_center.Hw.Charge.{apply_charge_limit, read_charge_limit}
use lecoo_control_center.Hw.Charge.RoundTrip.{charge_limit_round_trip}
use lecoo_control_center.Hw.Led.{apply_led_mode}
use lecoo_control_center.Hw.Led.Sync.{Shows, InSync, apply_led_mode-Shows}
use lecoo_control_center.Hw.Led.Fans.{n155d_led_clears_fan_policy}
use lecoo_control_center.Tests.Bench.{Machine, bench, bench-IsI2ec, n155a, n155d, started}

abbrev chip : Machine → I2ec
chip m = m.chip

apply_fan_mode_limit_example :
    regs chip
      (apply_fan_mode bench n155a cpu (FanMode.custom 200) started).1.world
      (ram_addr n155a (fan_word gpu))
    ≤ 220
apply_fan_mode_limit_example =
    apply_fan_mode_limit bench n155a chip bench-IsI2ec cpu gpu (FanMode.custom 200) started
      (ground arith) (ground arith)

apply_fan_mode_sets_example :
    ((apply_fan_mode bench n155a gpu (FanMode.custom 200) started).0 ≡ ok tt)
    × (regs chip (apply_fan_mode bench n155a gpu (FanMode.custom 200) started).1.world
        ≡ update
            (update
              (regs chip started.world)
              (ram_addr n155a (thermal_policy_override n155a.offsets gpu))
              0x40)
            (ram_addr n155a (fan_word gpu))
            200)
    × ((apply_fan_mode bench n155a gpu (FanMode.custom 200) started).1.statics ≡ started.statics)
apply_fan_mode_sets_example =
    apply_fan_mode_sets bench n155a chip bench-IsI2ec gpu (FanMode.custom 200) started
      (ground arith)

charge_limit_round_trip_example :
    ((apply_charge_limit bench n155a ChargeLimit.balanced started).0 ≡ ok tt)
    × ((read_charge_limit bench n155a
          (apply_charge_limit bench n155a ChargeLimit.balanced started).1).0
        ≡ ok (as_percent ChargeLimit.balanced))
    × (from_predefined (as_percent ChargeLimit.balanced).0 (as_percent ChargeLimit.balanced).1
        ≡ some ChargeLimit.balanced)
charge_limit_round_trip_example =
    charge_limit_round_trip bench n155a chip bench-IsI2ec ChargeLimit.balanced started
      (ground arith)

apply_led_mode-Shows_example :
    ((apply_led_mode bench n155a (PowerLedMode.animation sleep) started).0 ≡ ok tt)
    × Shows n155a
        (PowerLedMode.animation sleep)
        (regs chip (apply_led_mode bench n155a (PowerLedMode.animation sleep) started).1.world)
    × ((apply_led_mode bench n155a
          (PowerLedMode.animation sleep)
          started).1.statics.is_led_already_custom
        ≡ true)
    × InSync n155a
        (apply_led_mode bench n155a
          (PowerLedMode.animation sleep)
          started).1.statics.is_led_already_custom
        (regs chip (apply_led_mode bench n155a (PowerLedMode.animation sleep) started).1.world)
apply_led_mode-Shows_example =
    apply_led_mode-Shows SuperIoPort.at_4e bench chip bench-IsI2ec Detected.n155a Window.at_c000
      (PowerLedMode.animation sleep) started (inl refl)

n155d_led_clears_fan_policy_example :
    (regs chip
        (apply_fan_mode bench n155d cpu (FanMode.custom 100) started).1.world
        (ram_addr n155d n155d.offsets.ram_thermal_policy_cpu)
      ≡ 0x40)
    × (regs chip
          (apply_led_mode bench n155d PowerLedMode.auto
            (apply_fan_mode bench n155d cpu (FanMode.custom 100) started).1).1.world
          (ram_addr n155d n155d.offsets.ram_thermal_policy_cpu)
        ≡ 0)
n155d_led_clears_fan_policy_example =
    n155d_led_clears_fan_policy SuperIoPort.at_4e bench chip bench-IsI2ec Window.at_c000
      (FanMode.custom 100) started (ground arith)

write_reg_reads_back_example :
    ((write_reg bench n155a 0x1804 0x80 started).0 ≡ ok tt)
    × ((read_reg bench n155a 0x1804 (write_reg bench n155a 0x1804 0x80 started).1).0
        ≡ ok (update (regs chip started.world) (0x1804 % 65536) 0x80 (0x1804 % 65536)))
write_reg_reads_back_example =
    write_reg_reads_back bench n155a chip bench-IsI2ec 0x1804 0x80 0x1804 started

new_device-IsDetected_example : Returns IsDetected (new_device bench false started).0
new_device-IsDetected_example = new_device-IsDetected bench false started

find_hram_first_example :
    (find_hram bench default_n155a 0x4E possible_bases started).0
    ≡ ok (first_base (regs chip started.world) default_n155a.ram_temp_cpu possible_bases)
find_hram_first_example =
    find_hram_first bench default_n155a 0x4E chip bench-IsI2ec possible_bases started
