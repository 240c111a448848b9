-- ===== src/Battery.antt =====
-- The battery monitor, main/battery_sensor.c: the readings, the state machine, and its task. A voltage
-- is in microvolts, which the divider's ratio of 5.661 makes whole: the floats of the source stay
-- on the same side of each threshold, since no reading comes nearer to one than 29 microvolts.
mod Readings
pub mod Debounce
pub mod Actions
pub use Readings.*
use esp32_wifi_ap_cp.Base.{
  ℕ, suc, ◌+◌, ◌-◌, ◌*◌, ◌/◌, Bool, true, false, not, ◌&&◌, ◌||◌, Option, none, some, List, [], ◌∷◌,
  ◌++◌, if◌then◌else◌, ◌==◌, ltb, leb, length,
}

abbrev pub battery_debounce_samples : ℕ
battery_debounce_samples = 6

abbrev pub warning_fall : ℕ
warning_fall = 12_600_000

abbrev pub critical_fall : ℕ
critical_fall = 11_800_000

abbrev pub wakeup_boot_low : ℕ
wakeup_boot_low = 12_400_000

abbrev pub charging_rise : ℕ
charging_rise = 12_800_000

abbrev pub normal_rise : ℕ
normal_rise = 13_200_000

abbrev pub min_valid_voltage : ℕ
min_valid_voltage = 5_000_000

-- The statics of battery_sensor.c; of the rest what the actions set (the users' access point and
-- the ports), whether esp_wifi_set_mode succeeds in this round, and the readings sent to Supabase, the
-- last first.
pub record Battery : Type 0 where
  pub state : BatteryState
  pub dbc_to_warning : ℕ
  pub dbc_to_critical : ℕ
  pub dbc_to_charging : ℕ
  pub dbc_to_normal : ℕ
  pub user_ap_enabled : Bool
  pub ports_allowed : Bool
  pub set_mode_ok : Bool
  pub upserts : List Reading

abbrev pub is_normal : BatteryState → Bool
is_normal normal = true
is_normal warning = false
is_normal critical = false
is_normal wake_up = false
is_normal charging_on = false

abbrev pub ports_on : BatteryState → Bool
ports_on normal = true
ports_on warning = true
ports_on critical = false
ports_on wake_up = false
ports_on charging_on = true

-- The switch stays where it is if esp_wifi_set_mode fails.
abbrev pub set_user_ap_enabled : Bool → Bool → Bool → Bool
set_user_ap_enabled mode_ok enabled current =
    if (current && enabled) || (not current && not enabled)
    then current
    else if mode_ok
    then enabled
    else current

unfoldable pub apply_actions_for_state : BatteryState → Battery → Battery
apply_actions_for_state state b = record b {
  user_ap_enabled = set_user_ap_enabled b.set_mode_ok (is_normal state) b.user_ap_enabled;
  ports_allowed = ports_on state;
}

abbrev pub same_state : BatteryState → BatteryState → Bool
same_state normal normal = true
same_state warning warning = true
same_state critical critical = true
same_state wake_up wake_up = true
same_state charging_on charging_on = true
same_state _ _ = false

unfoldable pub transition_to : BatteryState → Battery → Battery
transition_to new_state b =
    if same_state new_state b.state
    then b
    else apply_actions_for_state new_state (record b {
      state = new_state;
      dbc_to_warning = 0;
      dbc_to_critical = 0;
      dbc_to_charging = 0;
      dbc_to_normal = 0;
    })

-- if (c) { if (++counter >= 6) transition_to(s) } else { counter = 0 }, for each counter.
unfoldable pub count_to_warning : Bool → Battery → Battery
count_to_warning c b =
    let b1 = record b { dbc_to_warning = b.dbc_to_warning + 1 } in
    if not c
    then record b { dbc_to_warning = 0 }
    else if leb battery_debounce_samples b1.dbc_to_warning
    then transition_to warning b1
    else b1

pub count_to_critical : Bool → Battery → Battery
count_to_critical c b =
    let b1 = record b { dbc_to_critical = b.dbc_to_critical + 1 } in
    if not c
    then record b { dbc_to_critical = 0 }
    else if leb battery_debounce_samples b1.dbc_to_critical
    then transition_to critical b1
    else b1

pub count_to_charging : Bool → Battery → Battery
count_to_charging c b =
    let b1 = record b { dbc_to_charging = b.dbc_to_charging + 1 } in
    if not c
    then record b { dbc_to_charging = 0 }
    else if leb battery_debounce_samples b1.dbc_to_charging
    then transition_to charging_on b1
    else b1

pub count_to_normal : Bool → Battery → Battery
count_to_normal c b =
    let b1 = record b { dbc_to_normal = b.dbc_to_normal + 1 } in
    if not c
    then record b { dbc_to_normal = 0 }
    else if leb battery_debounce_samples b1.dbc_to_normal
    then transition_to normal b1
    else b1

-- The switch of evaluate_transitions.
unfoldable pub evaluate_in : BatteryState → ℕ → Battery → Battery
evaluate_in normal v b = count_to_warning (ltb v warning_fall) b
evaluate_in warning v b =
    count_to_normal (ltb normal_rise v) (count_to_critical (ltb v critical_fall) b)
evaluate_in critical v b = count_to_charging (ltb charging_rise v) b
evaluate_in wake_up v b = count_to_charging (ltb charging_rise v) b
evaluate_in charging_on v b = count_to_normal (ltb normal_rise v) b

unfoldable pub evaluate_transitions : ℕ → Battery → Battery
evaluate_transitions v b = evaluate_in b.state v b

unfoldable pub determine_boot_state : ℕ → BatteryState
determine_boot_state v =
    if ltb normal_rise v
    then normal
    else if ltb charging_rise v
    then charging_on
    else if ltb wakeup_boot_low v
    then wake_up
    else if ltb critical_fall v
    then warning
    else critical

-- The boot loop: the sum and the number of the readings that succeed.
pub boot_sum : List (Option ℕ) → ℕ × ℕ
boot_sum [] = (0, 0)
boot_sum (none ∷ mvs) = boot_sum mvs
boot_sum (some mv ∷ mvs) = let (sum, n) = boot_sum mvs in (mv * 5661 + sum, suc n)

unfoldable pub boot_voltage : List (Option ℕ) → ℕ
boot_voltage mvs = let (sum, n) = boot_sum mvs in if ltb 0 n then sum / n else 0

-- battery_task before its loop, from the readings of the boot.
unfoldable pub battery_boot : List (Option ℕ) → Battery → Battery
battery_boot mvs b =
    let state = determine_boot_state (boot_voltage mvs) in
    apply_actions_for_state state (record b { state = state })

-- battery_sync_to_supabase, where the voltage is no power-loss artifact.
pub sync_reading : Reading → Battery → Battery
sync_reading r b =
    if leb min_valid_voltage r.voltage then record b { upserts = r ∷ b.upserts } else b

pub battery_step_read : Option Reading → Battery → Battery
battery_step_read none b = b
battery_step_read (some r) b =
    let b1 = evaluate_transitions r.voltage b in sync_reading (record r { state = b1.state }) b1

-- A round of the loop: whether esp_wifi_set_mode would succeed, and what battery_sample_mv answers.
pub record Round : Type 0 where
  pub mode_ok : Bool
  pub sample : Option ℕ

unfoldable pub battery_step : Round → Battery → Battery
battery_step r b =
    battery_step_read (battery_sensor_read b.state r.sample) (record b { set_mode_ok = r.mode_ok })

unfoldable pub battery_task : List Round → Battery → Battery
battery_task [] b = b
battery_task (r ∷ rs) b = battery_task rs (battery_step r b)
