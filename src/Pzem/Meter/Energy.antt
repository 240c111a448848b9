-- ===== src/Pzem/Meter/Energy.antt =====
-- The energy of the day in main/pzem_reader.c.
use esp32_wifi_ap_cp.Base.{
  ℕ, ◌+◌, ◌-◌, ◌/◌, ◌≤◌, ◌≡◌, sym, subst, false, some, List, [], ◌∷◌, arith,
}
use esp32_wifi_ap_cp.Pzem.Meter.{Meter, is_day, energy_wh_today}

-- The counter read several times: each time with the clock, and the counter's step since the last time.
abbrev pub later_reads : List (ℕ × ℕ) → ℕ → Meter → ℕ × Meter
later_reads [] c m = (c, m)
later_reads ((now, step) ∷ rs) c m = later_reads rs (c + step) (energy_wh_today now (c + step) m).1

abbrev pub AllOnDay : ℕ → List (ℕ × ℕ) → Type 0
AllOnDay day [] = Unit
AllOnDay day ((now, step) ∷ rs) = (now / 86400 ≡ day) × AllOnDay day rs

abbrev pub total : List (ℕ × ℕ) → ℕ
total [] = 0
total ((now, step) ∷ rs) = step + total rs

-- The first reading of the day has been taken, at a counter of `base`.
record CountsFrom (day base : ℕ) (m : Meter) : Type 0 where
  day_is : m.utc_day_anchor ≡ some day
  base_is : m.energy_wh_at_midnight ≡ base

today-CountsFrom :
    (now c base : ℕ) (m : Meter)
    → CountsFrom (now / 86400) base m
    → base ≤ c
    → CountsFrom (now / 86400) base (energy_wh_today now c m).1
unfolding energy_wh_today
today-CountsFrom now c base m a l = ground (arith, a)

later_reads-CountsFrom :
    (day base c : ℕ) (rs : List (ℕ × ℕ)) (m : Meter)
    → CountsFrom day base m
    → AllOnDay day rs
    → base ≤ c
    → CountsFrom day base (later_reads rs c m).1
later_reads-CountsFrom day base c [] m a d l = a
later_reads-CountsFrom day base c ((now, step) ∷ rs) m a d l =
    later_reads-CountsFrom day base (c + step) rs (energy_wh_today now (c + step) m).1
      (subst (λ (k : ℕ). CountsFrom k base (energy_wh_today now (c + step) m).1) d.0
        (today-CountsFrom now (c + step) base m (subst (λ (k : ℕ). CountsFrom k base m) (sym d.0) a)
          (omega arith)))
      d.1 (omega arith)

later_reads-total : (c : ℕ) (rs : List (ℕ × ℕ)) (m : Meter) → (later_reads rs c m).0 ≡ c + total rs
later_reads-total c [] m = omega arith
later_reads-total c ((now, step) ∷ rs) m =
    omega (arith, later_reads-total (c + step) rs (energy_wh_today now (c + step) m).1)

anchored_today :
    (now c base : ℕ) (m : Meter)
    → CountsFrom (now / 86400) base m
    → base ≤ c
    → (energy_wh_today now c m).0 ≡ c - base
unfolding energy_wh_today
anchored_today now c base m a l = ground (arith, a)

first-CountsFrom :
    (now c : ℕ) (m : Meter)
    → is_day m.utc_day_anchor (now / 86400) ≡ false
    → CountsFrom (now / 86400) c (energy_wh_today now c m).1
unfolding energy_wh_today
first-CountsFrom now c m n = ground arith

-- Whatever the meter's state, once its counter has been read for the first time on a day, each later
-- reading of that day reports what the counter has gone up by since, however often it was read in
-- between.
pub energy_since_first_reading :
    (first now c step : ℕ) (rs : List (ℕ × ℕ)) (m : Meter)
    → is_day m.utc_day_anchor (first / 86400) ≡ false
    → AllOnDay (first / 86400) rs
    → now / 86400 ≡ first / 86400
    → let (counter, m1) = later_reads rs c (energy_wh_today first c m).1 in
      (energy_wh_today now (counter + step) m1).0 ≡ total rs + step
energy_since_first_reading first now c step rs m n d e =
    let m0 = (energy_wh_today first c m).1 in
    let m1 = (later_reads rs c m0).1 in
    let counter = (later_reads rs c m0).0 in
    let sum = later_reads-total c rs m0 in
    let a : CountsFrom (first / 86400) c m1 =
      later_reads-CountsFrom (first / 86400) c c rs m0 (first-CountsFrom first c m n) d
        (omega arith) in
    let b : CountsFrom (now / 86400) c m1 = subst (λ (k : ℕ). CountsFrom k c m1) (sym e) a in
    omega (arith, sum, anchored_today now (counter + step) c m1 b (omega (arith, sum)))
