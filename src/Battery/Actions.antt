-- ===== src/Battery/Actions.antt =====
-- The state machine of main/battery_sensor.c: its edges, its counters, and what it switches.
use esp32_wifi_ap_cp.Base.{
  ℕ, ◌<◌, ◌≡◌, ◌↔◌, ◌⊎◌, ◌∙◌, inl, inr, sym, refl, true, Option, none, some, List, [], ◌∷◌, arith,
  All,
}
use esp32_wifi_ap_cp.Battery.{
  BatteryState, normal, warning, critical, wake_up, charging_on, battery_debounce_samples, Reading,
  Battery, is_normal, ports_on, apply_actions_for_state, transition_to, count_to_warning,
  count_to_critical, count_to_charging, count_to_normal, evaluate_in, evaluate_transitions,
  battery_boot, sync_reading, battery_step_read, battery_step, battery_task, Round,
}

-- The ports are allowed as the state says, and no counter has reached its bound.
abbrev BatteryInv : Battery → Type 0
BatteryInv b =
    (b.ports_allowed ≡ ports_on b.state)
    × (b.dbc_to_warning < battery_debounce_samples)
    × (b.dbc_to_critical < battery_debounce_samples)
    × (b.dbc_to_charging < battery_debounce_samples)
    × (b.dbc_to_normal < battery_debounce_samples)

evaluate_in-BatteryInv :
    (v : ℕ) (s : BatteryState) (b : Battery)
    → b.state ≡ s
    → BatteryInv b
    → BatteryInv (evaluate_in s v b)
unfolding evaluate_in count_to_warning count_to_critical count_to_charging count_to_normal
    transition_to apply_actions_for_state
evaluate_in-BatteryInv v normal b e i = ground (arith, e, i)
evaluate_in-BatteryInv v warning b e i = ground (arith, e, i)
evaluate_in-BatteryInv v critical b e i = ground (arith, e, i)
evaluate_in-BatteryInv v wake_up b e i = ground (arith, e, i)
evaluate_in-BatteryInv v charging_on b e i = ground (arith, e, i)

evaluate_in-ap :
    (v : ℕ) (s : BatteryState) (b : Battery)
    → b.state ≡ s
    → b.set_mode_ok ≡ true
    → b.user_ap_enabled ≡ is_normal s
    → let b' = evaluate_in s v b in b'.user_ap_enabled ≡ is_normal b'.state
unfolding evaluate_in count_to_warning count_to_critical count_to_charging count_to_normal
    transition_to apply_actions_for_state
evaluate_in-ap v normal b e m i = ground (arith, e, m, i)
evaluate_in-ap v warning b e m i = ground (arith, e, m, i)
evaluate_in-ap v critical b e m i = ground (arith, e, m, i)
evaluate_in-ap v wake_up b e m i = ground (arith, e, m, i)
evaluate_in-ap v charging_on b e m i = ground (arith, e, m, i)

step_read-ap :
    (r : Option Reading) (b : Battery)
    → b.set_mode_ok ≡ true
    → b.user_ap_enabled ≡ is_normal b.state
    → let b' = battery_step_read r b in b'.user_ap_enabled ≡ is_normal b'.state
unfolding battery_step_read sync_reading evaluate_transitions
step_read-ap none b m i = i
step_read-ap (some r) b m i =
    let j = evaluate_in-ap r.voltage b.state b refl m i in ground (arith, j)

step_read-BatteryInv :
    (r : Option Reading) (b : Battery) → BatteryInv b → BatteryInv (battery_step_read r b)
unfolding battery_step_read sync_reading evaluate_transitions
step_read-BatteryInv none b i = i
step_read-BatteryInv (some r) b i =
    let j = evaluate_in-BatteryInv r.voltage b.state b refl i in ground (arith, j)

task-BatteryInv : (rs : List Round) (b : Battery) → BatteryInv b → BatteryInv (battery_task rs b)
unfolding battery_task battery_step
task-BatteryInv [] b i = i
task-BatteryInv (r ∷ rs) b i =
    task-BatteryInv rs (battery_step r b)
      (step_read-BatteryInv _ (record b { set_mode_ok = r.mode_ok }) i)

abbrev pub ModeSet : Round → Type 0
ModeSet r = r.mode_ok ≡ true

task-ap :
    (rs : List Round) (b : Battery)
    → All ModeSet rs
    → b.user_ap_enabled ≡ is_normal b.state
    → let b' = battery_task rs b in b'.user_ap_enabled ≡ is_normal b'.state
unfolding battery_task battery_step
task-ap [] b m i = i
task-ap (r ∷ rs) b m i =
    task-ap rs (battery_step r b) m.1 (step_read-ap _ (record b { set_mode_ok = r.mode_ok }) m.0 i)

-- The states of battery_sensor.c in which a charging port may have power.
abbrev Charges : BatteryState → Type 0
Charges s = (s ≡ normal) ⊎ ((s ≡ warning) ⊎ (s ≡ charging_on))

ports_on_lem : (s : BatteryState) → (ports_on s ≡ true) ↔ Charges s
ports_on_lem normal = (λ h. inl refl, λ h. refl)
ports_on_lem warning = (λ h. inr (inl refl), λ h. refl)
ports_on_lem charging_on = (λ h. inr (inr refl), λ h. refl)
ports_on_lem critical = (λ h. cc, λ h. ground arith)
ports_on_lem wake_up = (λ h. cc, λ h. ground arith)

-- From boot on, with all counters at 0, whatever the readings are and whichever fail, the ports
-- are allowed in the normal, warning and charging states, and in no other, and no counter reaches
-- its bound.
pub ports_follow_state :
    (boot : List (Option ℕ)) (rs : List Round) (b : Battery)
    → b.dbc_to_warning ≡ 0
    → b.dbc_to_critical ≡ 0
    → b.dbc_to_charging ≡ 0
    → b.dbc_to_normal ≡ 0
    → let b' = battery_task rs (battery_boot boot b) in
      ((b'.ports_allowed ≡ true)
        ↔ ((b'.state ≡ normal) ⊎ ((b'.state ≡ warning) ⊎ (b'.state ≡ charging_on))))
      × (b'.dbc_to_warning < battery_debounce_samples)
      × (b'.dbc_to_critical < battery_debounce_samples)
      × (b'.dbc_to_charging < battery_debounce_samples)
      × (b'.dbc_to_normal < battery_debounce_samples)
unfolding battery_boot apply_actions_for_state
ports_follow_state boot rs b w c h n =
    let kept = task-BatteryInv rs (battery_boot boot b) (ground (arith, w, c, h, n)) in
    let on = ports_on_lem (battery_task rs (battery_boot boot b)).state in
    ((λ e. on.0 (sym kept.0 ∙ e), λ e. kept.0 ∙ on.1 e), kept.1, kept.2, kept.3, kept.4)

-- Where esp_wifi_set_mode never fails, the users' access point is on in the normal state and in no other.
pub user_ap_follows_state :
    (boot : List (Option ℕ)) (rs : List Round) (b : Battery)
    → b.set_mode_ok ≡ true
    → All ModeSet rs
    → let b' = battery_task rs (battery_boot boot b) in b'.user_ap_enabled ≡ is_normal b'.state
unfolding battery_boot apply_actions_for_state
user_ap_follows_state boot rs b m ms = task-ap rs (battery_boot boot b) ms (ground (arith, m))
