-- ===== src/Examples/Batteries.antt =====
-- The theorems on battery_sensor.c, on a battery that runs low and is charged.
use esp32_wifi_ap_cp.Base.{
  ℕ, ◌<◌, ◌⊎◌, ◌↔◌, ◌≡◌, refl, true, false, Option, none, some, List, [], ◌∷◌, arith,
}
use esp32_wifi_ap_cp.Battery.{
  BatteryState, normal, warning, charging_on, battery_debounce_samples, Battery, Round,
  evaluate_transitions, evaluate_in, count_to_warning, battery_boot, battery_task,
}
use esp32_wifi_ap_cp.Battery.Actions.{ports_follow_state}
use esp32_wifi_ap_cp.Battery.Debounce.{evaluate_all, six_low_samples_warn}

abbrev battery_in : BatteryState → Battery
battery_in state = record {
  state = state;
  dbc_to_warning = 0;
  dbc_to_critical = 0;
  dbc_to_charging = 0;
  dbc_to_normal = 0;
  user_ap_enabled = true;
  ports_allowed = true;
  set_mode_ok = true;
  upserts = [];
}

-- Rounds in which the ADC reads these millivolts.
abbrev round_of : Option ℕ → Round
round_of sample = record { mode_ok = true; sample = sample }

abbrev after_three : Battery
after_three =
    battery_task (round_of (some 2200) ∷ round_of none ∷ round_of (some 2100) ∷ [])
      (battery_boot (some 2400 ∷ none ∷ some 2401 ∷ []) (battery_in normal))

ports_follow_state_example :
    ((after_three.ports_allowed ≡ true) ↔ (
      (after_three.state ≡ normal)
      ⊎ ((after_three.state ≡ warning) ⊎ (after_three.state ≡ charging_on))))
    × (after_three.dbc_to_warning < battery_debounce_samples)
    × (after_three.dbc_to_critical < battery_debounce_samples)
    × (after_three.dbc_to_charging < battery_debounce_samples)
    × (after_three.dbc_to_normal < battery_debounce_samples)
ports_follow_state_example =
    ports_follow_state (some 2400 ∷ none ∷ some 2401 ∷ [])
      (round_of (some 2200) ∷ round_of none ∷ round_of (some 2100) ∷ []) (battery_in normal) refl
      refl refl refl

nothing_changes : (evaluate_transitions 12_000_000 (battery_in normal)).state ≡ normal
unfolding evaluate_transitions evaluate_in count_to_warning
nothing_changes = refl

abbrev low : List ℕ
low = 12_000_000 ∷ 12_000_000 ∷ 12_000_000 ∷ 12_000_000 ∷ 12_000_000 ∷ 12_000_000 ∷ []

six_low_samples_warn_example :
    let b' = evaluate_all low (battery_in normal) in
    (b'.state ≡ BatteryState.warning) × (b'.user_ap_enabled ≡ false) × (b'.ports_allowed ≡ true)
six_low_samples_warn_example =
    six_low_samples_warn low (battery_in normal) refl refl
      (omega arith, (omega arith, (omega arith, (omega arith, (omega arith, (omega arith, tt))))))
      refl
