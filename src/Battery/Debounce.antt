-- ===== src/Battery/Debounce.antt =====
-- The debouncing in evaluate_transitions of main/battery_sensor.c: six samples in a row.
use esp32_wifi_ap_cp.Base.{
  ℕ, suc, ◌+◌, ◌<◌, ◌≤◌, ◌≡◌, refl, ap, ◌∙◌, true, false, not, ◌&&◌, List, [], ◌∷◌, arith, ltb,
  length, All,
}
use esp32_wifi_ap_cp.Battery.{
  BatteryState, normal, warning, critical, wake_up, charging_on, battery_debounce_samples, Battery,
  apply_actions_for_state, transition_to, count_to_warning, count_to_critical, count_to_charging,
  count_to_normal, evaluate_in, evaluate_transitions, warning_fall, normal_rise,
}

-- The samples of some voltages, the first of the list first.
unfoldable pub evaluate_all : List ℕ → Battery → Battery
evaluate_all [] b = b
evaluate_all (v ∷ vs) b = evaluate_all vs (evaluate_transitions v b)

abbrev pub AtMost : ℕ → Battery → Type 0
AtMost k b =
    (b.dbc_to_warning ≤ k)
    × (b.dbc_to_critical ≤ k)
    × (b.dbc_to_charging ≤ k)
    × (b.dbc_to_normal ≤ k)

early :
    (v k : ℕ) (s : BatteryState) (b : Battery)
    → b.state ≡ s
    → AtMost k b
    → suc k < battery_debounce_samples
    → ((evaluate_in s v b).state ≡ s) × AtMost (suc k) (evaluate_in s v b)
unfolding evaluate_in count_to_warning count_to_critical count_to_charging count_to_normal
    transition_to apply_actions_for_state
early v k normal b e a l = ground (arith, e, a)
early v k warning b e a l = ground (arith, e, a)
early v k critical b e a l = ground (arith, e, a)
early v k wake_up b e a l = ground (arith, e, a)
early v k charging_on b e a l = ground (arith, e, a)

steady_from :
    (vs : List ℕ) (k : ℕ) (b : Battery)
    → AtMost k b
    → length vs + k < battery_debounce_samples
    → (evaluate_all vs b).state ≡ b.state
unfolding evaluate_all evaluate_transitions
steady_from [] k b a l = refl
steady_from (v ∷ vs) k b a l =
    let next = early v k b.state b refl a (omega arith) in
    steady_from vs (suc k) (evaluate_in b.state v b) next.1 (omega arith) ∙ next.0

-- With all counters at 0, as after a change, fewer than six samples, of whatever voltages, leave
-- the state as it is.
pub steady_for_five :
    (vs : List ℕ) (b : Battery)
    → AtMost 0 b
    → length vs < battery_debounce_samples
    → (evaluate_all vs b).state ≡ b.state
steady_for_five vs b a l = steady_from vs 0 b a (omega arith)

abbrev pub Below : ℕ → ℕ → Type 0
Below limit v = v < limit

low_sample :
    (v : ℕ) (b : Battery)
    → b.state ≡ normal
    → v < warning_fall
    → let b' = evaluate_transitions v b in
      (suc b.dbc_to_warning < battery_debounce_samples
        → (b'.state ≡ normal)
          × (b'.dbc_to_warning ≡ suc b.dbc_to_warning)
          × (b'.set_mode_ok ≡ b.set_mode_ok)
          × (b'.user_ap_enabled ≡ b.user_ap_enabled))
      × (suc b.dbc_to_warning ≡ battery_debounce_samples
          → (b'.state ≡ warning)
            × (b'.user_ap_enabled ≡ (b.user_ap_enabled && not b.set_mode_ok))
            × (b'.ports_allowed ≡ true))
unfolding evaluate_transitions evaluate_in count_to_warning transition_to apply_actions_for_state
low_sample v b e l = ground (arith, e)

falls_from :
    (vs : List ℕ) (b : Battery)
    → b.state ≡ normal
    → All (Below warning_fall) vs
    → b.dbc_to_warning < battery_debounce_samples
    → b.dbc_to_warning + length vs ≡ battery_debounce_samples
    → let b' = evaluate_all vs b in
      (b'.state ≡ warning)
      × (b'.user_ap_enabled ≡ (b.user_ap_enabled && not b.set_mode_ok))
      × (b'.ports_allowed ≡ true)
unfolding evaluate_all
falls_from [] b e h l n = absurd (omega arith)
falls_from (v ∷ []) b e h l n = (low_sample v b e h.0).1 (omega arith)
falls_from (v ∷ w ∷ vs) b e h l n =
    let next = (low_sample v b e h.0).0 (omega arith) in
    let rest =
      falls_from (w ∷ vs) (evaluate_transitions v b) next.0 h.1 (omega (arith, next.1))
        (omega (arith, next.1)) in
    (
      rest.0,
      rest.1
          ∙ ap (λ a. a && not (evaluate_transitions v b).set_mode_ok) next.3
          ∙ ap (λ m. b.user_ap_enabled && not m) next.2,
      rest.2,
    )

-- In the normal state, with no low sample counted yet, six samples in a row below 12.6 V lead to
-- the warning state: the users' access point goes off, unless esp_wifi_set_mode fails, and the
-- ports stay on.
pub six_low_samples_warn :
    (vs : List ℕ) (b : Battery)
    → b.state ≡ normal
    → b.dbc_to_warning ≡ 0
    → All (Below warning_fall) vs
    → length vs ≡ battery_debounce_samples
    → let b' = evaluate_all vs b in
      (b'.state ≡ warning)
      × (b'.user_ap_enabled ≡ (b.user_ap_enabled && not b.set_mode_ok))
      × (b'.ports_allowed ≡ true)
six_low_samples_warn vs b e z h l = falls_from vs b e h (omega arith) (omega arith)

ap_kept :
    (v : ℕ) (s : BatteryState) (b : Battery)
    → b.state ≡ s
    → (evaluate_in s v b).state ≡ s
    → (evaluate_in s v b).user_ap_enabled ≡ b.user_ap_enabled
unfolding evaluate_in count_to_warning count_to_critical count_to_charging count_to_normal
    transition_to apply_actions_for_state
ap_kept v normal b e h = ground (arith, e, h)
ap_kept v warning b e h = ground (arith, e, h)
ap_kept v critical b e h = ground (arith, e, h)
ap_kept v wake_up b e h = ground (arith, e, h)
ap_kept v charging_on b e h = ground (arith, e, h)

-- A sample that leaves the state as it is does not switch the users' access point: where a switch has
-- failed, it is not tried again.
pub failed_switch_is_not_retried :
    (v : ℕ) (b : Battery)
    → (evaluate_transitions v b).state ≡ b.state
    → (evaluate_transitions v b).user_ap_enabled ≡ b.user_ap_enabled
unfolding evaluate_transitions
failed_switch_is_not_retried v b e = ap_kept v b.state b refl e

abbrev pub NotAbove : ℕ → ℕ → Type 0
NotAbove limit v = ltb limit v ≡ false

charging_sample :
    (v : ℕ) (b : Battery)
    → b.state ≡ charging_on
    → ltb normal_rise v ≡ false
    → let b' = evaluate_transitions v b in
      (b'.state ≡ charging_on) × (b'.ports_allowed ≡ b.ports_allowed)
unfolding evaluate_transitions evaluate_in count_to_normal
charging_sample v b e h = ground (arith, e)

-- The charging state is left by a rise above 13.2 V only: however low the samples are, the ports stay
-- as they were.
pub charging_never_falls :
    (vs : List ℕ) (b : Battery)
    → b.state ≡ charging_on
    → All (NotAbove normal_rise) vs
    → let b' = evaluate_all vs b in (b'.state ≡ charging_on) × (b'.ports_allowed ≡ b.ports_allowed)
unfolding evaluate_all
charging_never_falls [] b e h = (e, refl)
charging_never_falls (v ∷ vs) b e h =
    let next = charging_sample v b e h.0 in
    let rest = charging_never_falls vs (evaluate_transitions v b) next.0 h.1 in
    (rest.0, rest.1 ∙ next.1)
