-- ===== src/Pzem/Meter.antt =====
-- The state of main/pzem_reader.c and its task: the last reading, the energy of the day, and what is
-- published.
pub mod Energy
pub mod Outlet
use esp32_wifi_ap_cp.Base.{
  ℕ, ◌-◌, ◌/◌, Bool, true, false, not, ◌&&◌, ◌||◌, Option, none, some, List, [], ◌∷◌, if◌then◌else◌,
  ◌==◌, ltb,
}
use esp32_wifi_ap_cp.Base.Errors.{
  EspErr, esp_ok, esp_err_no_mem, esp_err_invalid_state, is_ok, is_invalid_state,
}
use esp32_wifi_ap_cp.Pzem.Frames.{Reading, Uart, no_reading, pzem_v3_read}

-- PZEM_OUTLET_IN_USE_W, in units of 0.1 W.
abbrev pub outlet_in_use : ℕ
outlet_in_use = 10

-- What the task sends to the database, whether or not that arrives.
pub data Post : Type 0 where
  station_state : Reading → ℕ → Post
  outlet_status : Bool → Post

-- The statics of pzem_reader.c and the locals of pzem_task; the day of the anchor is `none` for -1.
-- `posts` holds what was sent, the last first.
pub record Meter : Type 0 where
  pub initialized : Bool
  pub last_reading : Reading
  pub last_reading_valid : Bool
  pub energy_wh_at_midnight : ℕ
  pub utc_day_anchor : Option ℕ
  pub anchor_valid : Bool
  pub last_outlet_in_use : Bool
  pub last_outlet_published : Bool
  pub posts : List Post

abbrev pub is_day : Option ℕ → ℕ → Bool
is_day none day = false
is_day (some d) day = d == day

abbrev pub anchor : ℕ → ℕ → Meter → Meter
anchor day cumulative m = if is_day m.utc_day_anchor day then m else record m {
  energy_wh_at_midnight = cumulative;
  utc_day_anchor = some day;
  anchor_valid = true;
}

-- `now` in seconds since 1970.
unfoldable pub energy_wh_today : ℕ → ℕ → Meter → ℕ × Meter
energy_wh_today now cumulative m =
    let m1 = anchor (now / 86400) cumulative m in
    if ltb cumulative m1.energy_wh_at_midnight
    then (0, record m1 { energy_wh_at_midnight = cumulative })
    else (cumulative - m1.energy_wh_at_midnight, m1)

unfoldable pub pzem_sync_station_state : ℕ → Reading → Meter → Meter
pzem_sync_station_state now r m =
    let (today, m1) = energy_wh_today now r.energy_wh m in
    record m1 { posts = station_state r today ∷ m1.posts }

abbrev pub pzem_sync_outlet_status : Bool → Meter → Meter
pzem_sync_outlet_status in_use m = record m { posts = outlet_status in_use ∷ m.posts }

abbrev pub same_use : Bool → Bool → Bool
same_use true b = b
same_use false b = not b

-- The outlet's status, if it is new.
unfoldable pub publish_outlet : Bool → Meter → Meter
publish_outlet in_use_now m =
    if not m.last_outlet_published || not (same_use in_use_now m.last_outlet_in_use)
    then record (pzem_sync_outlet_status in_use_now m) {
      last_outlet_in_use = in_use_now;
      last_outlet_published = true;
    }
    else m

unfoldable pub pzem_reader_read : Uart → Meter → EspErr × Reading
pzem_reader_read u m =
    if not m.initialized then (esp_err_invalid_state, no_reading) else pzem_v3_read u

-- What the task does with a reading.
unfoldable pub take_reading : ℕ → EspErr → Reading → Meter → Meter
take_reading now err r m =
    if not (is_ok err)
    then m
    else publish_outlet (ltb outlet_in_use r.power)
        (pzem_sync_station_state now r (record m { last_reading = r; last_reading_valid = true }))

-- One round of the loop of pzem_task.
unfoldable pub pzem_round : ℕ → Uart → Meter → Meter
pzem_round now u m = let (err, r) = pzem_reader_read u m in take_reading now err r m

-- The answers of the UART driver's set-up.
pub record UartSetup : Type 0 where
  pub install : EspErr
  pub param_config : EspErr
  pub set_pin : EspErr

unfoldable pub pzem_reader_init : UartSetup → Meter → EspErr × Meter
pzem_reader_init s m =
    if m.initialized
    then (esp_ok, m)
    else if not (is_ok s.install) && not (is_invalid_state s.install)
    then (s.install, m)
    else if not (is_ok s.param_config)
    then (s.param_config, m)
    else if not (is_ok s.set_pin)
    then (s.set_pin, m)
    else (esp_ok, record m { initialized = true })

-- The error, and whether the task was started.
unfoldable pub pzem_reader_start : UartSetup → Bool → Meter → EspErr × Bool × Meter
pzem_reader_start s task_created m =
    let (err, m1) = pzem_reader_init s m in
    if not (is_ok err)
    then (err, false, m1)
    else if task_created
    then (esp_ok, true, m1)
    else (esp_err_no_mem, false, m1)

-- Whether there is a reading, and the reading, cleared if there is none.
unfoldable pub pzem_reader_get_last : Meter → Bool × Reading
pzem_reader_get_last m =
    if m.last_reading_valid then (true, m.last_reading) else (false, no_reading)
