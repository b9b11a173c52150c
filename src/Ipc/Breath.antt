-- ===== src/Ipc/Breath.antt =====
-- The breathing animation of the LED ring: `BreathConfig` and its presets (ipc/src/structs.rs).
use lecoo_control_center.Base.{ℕ}

pub data BreathBrightness : Type 0 where
  max25percent max50percent max75percent max100percent : BreathBrightness

pub data BreathStep : Type 0 where
  slow medium fast instant : BreathStep

pub data BreathDelay : Type 0 where
  ms15 ms125 ms250 sec0_5 sec1 sec2 sec4 : BreathDelay

pub record BreathConfig : Type 0 where
  pub max_brightness : BreathBrightness
  pub step_up : BreathStep
  pub step_down : BreathStep
  pub delay_at_max : BreathDelay
  pub delay_at_min : BreathDelay

-- The enums' discriminants, as `as u8` gives them.
abbrev pub brightness_bits : BreathBrightness → ℕ
brightness_bits max25percent = 0b00
brightness_bits max50percent = 0b01
brightness_bits max75percent = 0b10
brightness_bits max100percent = 0b11

abbrev pub step_bits : BreathStep → ℕ
step_bits slow = 0b00
step_bits medium = 0b01
step_bits fast = 0b10
step_bits instant = 0b11

abbrev pub delay_bits : BreathDelay → ℕ
delay_bits ms15 = 0x00
delay_bits ms125 = 0x01
delay_bits ms250 = 0x02
delay_bits sec0_5 = 0x03
delay_bits sec1 = 0x04
delay_bits sec2 = 0x05
delay_bits sec4 = 0x06

abbrev pub smooth : BreathConfig
smooth = record {
  max_brightness = max75percent;
  step_up = medium;
  step_down = medium;
  delay_at_max = ms250;
  delay_at_min = ms250;
}

abbrev pub sleep : BreathConfig
sleep = record {
  max_brightness = max25percent;
  step_up = slow;
  step_down = slow;
  delay_at_max = sec0_5;
  delay_at_min = sec1;
}

abbrev pub alert : BreathConfig
alert = record {
  max_brightness = max75percent;
  step_up = instant;
  step_down = instant;
  delay_at_max = ms125;
  delay_at_min = ms125;
}

abbrev pub zen : BreathConfig
zen = record {
  max_brightness = max50percent;
  step_up = slow;
  step_down = slow;
  delay_at_max = sec1;
  delay_at_min = sec1;
}

abbrev pub ping : BreathConfig
ping = record {
  max_brightness = max100percent;
  step_up = instant;
  step_down = slow;
  delay_at_max = ms15;
  delay_at_min = sec0_5;
}

abbrev pub energetic : BreathConfig
energetic = record {
  max_brightness = max100percent;
  step_up = fast;
  step_down = medium;
  delay_at_max = ms125;
  delay_at_min = ms125;
}

abbrev pub warning : BreathConfig
warning = record {
  max_brightness = max100percent;
  step_up = fast;
  step_down = fast;
  delay_at_max = ms15;
  delay_at_min = ms15;
}

abbrev pub vacuum : BreathConfig
vacuum = record {
  max_brightness = max75percent;
  step_up = slow;
  step_down = instant;
  delay_at_max = sec1;
  delay_at_min = ms250;
}

abbrev pub panic : BreathConfig
panic = record {
  max_brightness = max100percent;
  step_up = instant;
  step_down = instant;
  delay_at_max = ms15;
  delay_at_min = ms15;
}

abbrev pub sonar : BreathConfig
sonar = record {
  max_brightness = max25percent;
  step_up = fast;
  step_down = slow;
  delay_at_max = sec0_5;
  delay_at_min = sec2;
}

abbrev pub toxic : BreathConfig
toxic = record {
  max_brightness = max50percent;
  step_up = fast;
  step_down = slow;
  delay_at_max = ms250;
  delay_at_min = sec1;
}
