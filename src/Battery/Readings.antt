-- ===== src/Battery/Readings.antt =====
-- The readings of main/battery_sensor.c: the ADC's samples, the voltage, and the percentage.
use esp32_wifi_ap_cp.Base.{
  ℕ, ◌+◌, ◌-◌, ◌*◌, ◌/◌, Bool, Option, none, some, List, [], ◌∷◌, if◌then◌else◌, leb, length,
}

-- battery_state_t
pub data BatteryState : Type 0 where
  normal warning critical wake_up charging_on : BatteryState

abbrev pub voltage_full : ℕ
voltage_full = 13_020_000

abbrev pub voltage_empty : ℕ
voltage_empty = 11_600_000

-- battery_reading_t of a valid reading; `percent` counts 1/14200 of a percent.
pub record Reading : Type 0 where
  pub raw_mv : ℕ
  pub voltage : ℕ
  pub percent : ℕ
  pub state : BatteryState

unfoldable pub battery_percent_from_voltage : ℕ → ℕ
battery_percent_from_voltage v =
    if leb voltage_full v
    then 100 * 14200
    else if leb v voltage_empty
    then 0
    else (v - voltage_empty) * (100 * 14200) / (voltage_full - voltage_empty)

-- The loop over the samples: a read that fails ends it. `none` is a failed read.
pub sum_samples : List (Option ℕ) → Option ℕ
sum_samples [] = some 0
sum_samples (none ∷ raws) = none
sum_samples (some raw ∷ raws) = elim (sum_samples raws) [ none ↦ none | some n ↦ some (raw + n) ]

-- adc_cali_raw_to_voltage where there is a calibration, else the linear scale.
pub to_mv : Option (ℕ → Option ℕ) → ℕ → Option ℕ
to_mv none raw_avg = some (raw_avg * 3300 / 4095)
to_mv (some cali) raw_avg = cali raw_avg

unfoldable pub battery_sample_mv : Bool → Option (ℕ → Option ℕ) → List (Option ℕ) → Option ℕ
battery_sample_mv initialized cali raws =
    let sum = sum_samples raws in
    if initialized then elim sum [ none ↦ none | some n ↦ to_mv cali (n / length raws) ] else none

-- battery_sensor_read, from the millivolts sampled.
pub battery_sensor_read : BatteryState → Option ℕ → Option Reading
battery_sensor_read state none = none
battery_sensor_read state (some mv) = some (record {
  raw_mv = mv;
  voltage = mv * 5661;
  percent = battery_percent_from_voltage (mv * 5661);
  state = state;
})
