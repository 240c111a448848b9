-- ===== src/Ports/Sync/Counting.antt =====
-- The seconds in use that main/port_sensors.c counts.
use esp32_wifi_ap_cp.Base.{ℕ, ◌+◌, ◌<◌, ◌≡◌, refl, ◌⊎◌, inl, inr, Bool, true, List, [], ◌∷◌, arith}
use esp32_wifi_ap_cp.Ports.Bus.{Status, Port}
use esp32_wifi_ap_cp.Ports.Sync.{accumulate, reset_port, is_availability, sync_port}

-- A poll of a port: the time, the status read, and whether the database takes what is sent.
abbrev pub polls : ℕ → List (ℕ × Status × Bool) → Port → Port
polls id [] p = p
polls id ((now_ms, status, post_ok) ∷ ps) p = polls id ps (sync_port id now_ms status post_ok p).0

-- Each poll comes less than a second after the one before, and reads the port.
abbrev pub WithinASecond : ℕ → List (ℕ × Status × Bool) → Type 0
WithinASecond before [] = Unit
WithinASecond before ((now_ms, status, post_ok) ∷ ps) =
    (now_ms < before + 1000) × (is_availability status ≡ true) × WithinASecond now_ms ps

accumulate_keeps :
    (now_ms : ℕ) (status : Status) (p : Port)
    → let p' = accumulate now_ms status p in
      (p'.last_accum_ts_ms ≡ now_ms) × (p'.present ≡ p.present)
unfolding accumulate
accumulate_keeps now_ms status p = (refl, refl)

-- A step of less than a second counts for nothing, and neither does the first.
accumulate_frequent :
    (now_ms : ℕ) (status : Status) (p : Port)
    → (p.last_accum_ts_ms ≡ 0) ⊎ (now_ms < p.last_accum_ts_ms + 1000)
    → p.daily_in_use_seconds ≡ 0
    → (accumulate now_ms status p).daily_in_use_seconds ≡ 0
unfolding accumulate
accumulate_frequent now_ms status p (inl first) z = ground arith
accumulate_frequent now_ms status p (inr soon) z = ground arith

sync_port_frequent :
    (id now_ms : ℕ) (status : Status) (post_ok : Bool) (p : Port)
    → (p.last_accum_ts_ms ≡ 0) ⊎ (now_ms < p.last_accum_ts_ms + 1000)
    → p.present ≡ true
    → is_availability status ≡ true
    → p.daily_in_use_seconds ≡ 0
    → let p' = (sync_port id now_ms status post_ok p).0 in
      (p'.daily_in_use_seconds ≡ 0) × (p'.last_accum_ts_ms ≡ now_ms) × (p'.present ≡ true)
unfolding sync_port
sync_port_frequent id now_ms status post_ok p soon on a z =
    ground (arith, accumulate_frequent now_ms status p soon z, accumulate_keeps now_ms status p)

frequent_polls :
    (id before : ℕ) (ps : List (ℕ × Status × Bool)) (p : Port)
    → p.last_accum_ts_ms ≡ before
    → p.present ≡ true
    → p.daily_in_use_seconds ≡ 0
    → WithinASecond before ps
    → (polls id ps p).daily_in_use_seconds ≡ 0
frequent_polls id before [] p e on z f = z
frequent_polls id before ((now_ms, status, post_ok) ∷ ps) p e on z f =
    let next = sync_port_frequent id now_ms status post_ok p (inr (omega (arith, f.0))) on f.1 z in
    frequent_polls id now_ms ps (sync_port id now_ms status post_ok p).0 next.1 next.2 next.0 f.2

-- From the start of the task on, as long as a port that is present is polled each time less than a
-- second after the time before, and on one day, its seconds in use stay 0, however long it is in use.
pub frequent_polls_count_nothing :
    (id first : ℕ) (status : Status) (post_ok : Bool) (ps : List (ℕ × Status × Bool)) (p : Port)
    → p.present ≡ true
    → is_availability status ≡ true
    → WithinASecond first ps
    → (polls id ((first, status, post_ok) ∷ ps) (reset_port p)).daily_in_use_seconds ≡ 0
frequent_polls_count_nothing id first status post_ok ps p on a f =
    let next = sync_port_frequent id first status post_ok (reset_port p) (inl refl) on a refl in
    frequent_polls id first ps (sync_port id first status post_ok (reset_port p)).0 next.1 next.2
      next.0 f
