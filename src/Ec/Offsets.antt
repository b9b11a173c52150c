-- ===== src/Ec/Offsets.antt =====
-- The register addresses of the supported boards (daemon/src/ec/offsets.rs).
use lecoo_control_center.Base.{ℕ}

pub record EcOffsets : Type 0 where
  pub reg_chip_id1 : ℕ
  pub reg_chip_id2 : ℕ
  pub reg_chip_ver : ℕ
  pub ram_temp_cpu : ℕ
  pub ram_temp_sys : ℕ
  pub ram_power_profile : ℕ
  pub ram_fan_cpu_msb : ℕ
  pub ram_fan_cpu_lsb : ℕ
  pub ram_fan_gpu_msb : ℕ
  pub ram_fan_gpu_lsb : ℕ
  pub ram_thermal_policy_cpu : ℕ
  pub ram_thermal_policy_gpu : ℕ
  pub ram_bat_rsoc : ℕ
  pub ram_bat_limit_min : ℕ
  pub ram_bat_limit_max : ℕ
  pub ram_led_bypass : ℕ
  pub ram_kbd_bypass_timeout : ℕ
  pub reg_kbd_backlight : ℕ
  pub reg_kbd_custom_val : ℕ
  pub reg_gpdra : ℕ
  pub reg_gpio_a0_mux : ℕ
  pub reg_gpio_a4_mux : ℕ
  pub reg_pwm_prescaler : ℕ
  pub reg_pwm_cycle : ℕ
  pub reg_pwm_duty : ℕ
  pub reg_pwm_clock_ctrl : ℕ
  pub reg_led_breath_en : ℕ
  pub reg_led_breath_step : ℕ
  pub reg_led_breath_delay : ℕ
  pub mask_orange_led : ℕ
  pub mask_white_led : ℕ

-- The Lecoo Pro 14 N155A and the standard IT5570 and IT5571 boards.
abbrev pub default_n155a : EcOffsets
default_n155a = record {
  reg_chip_id1 = 0x2000;
  reg_chip_id2 = 0x2001;
  reg_chip_ver = 0x2002;
  ram_temp_cpu = 0x70;
  ram_temp_sys = 0x62;
  ram_power_profile = 0xB1;
  ram_fan_cpu_msb = 0x76;
  ram_fan_cpu_lsb = 0x77;
  ram_fan_gpu_msb = 0x79;
  ram_fan_gpu_lsb = 0x7A;
  ram_thermal_policy_cpu = 0x4F;
  ram_thermal_policy_gpu = 0x4E;
  ram_bat_rsoc = 0x93;
  ram_bat_limit_min = 0xBC;
  ram_bat_limit_max = 0xBB;
  ram_led_bypass = 0x55;
  ram_kbd_bypass_timeout = 0xA6;
  reg_kbd_backlight = 0x0F05;
  reg_kbd_custom_val = 0x1806;
  reg_gpdra = 0x1601;
  reg_gpio_a0_mux = 0x1610;
  reg_gpio_a4_mux = 0x1614;
  reg_pwm_prescaler = 0x1800;
  reg_pwm_cycle = 0x1801;
  reg_pwm_duty = 0x1802;
  reg_pwm_clock_ctrl = 0x1823;
  reg_led_breath_en = 0x1850;
  reg_led_breath_step = 0x1851;
  reg_led_breath_delay = 0x1852;
  mask_orange_led = 0x02;
  mask_white_led = 0x04;
}

abbrev pub default_n155d : EcOffsets
default_n155d = record default_n155a { ram_led_bypass = 0x4F }
