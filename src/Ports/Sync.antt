-- ===== src/Ports/Sync.antt =====
-- The task of main/port_sensors.c that publishes the ports' status, and the seconds in use on the day.
pub mod Counting
pub mod Keeping
pub mod Publishing
pub mod Runs
use esp32_wifi_ap_cp.Base.{
  ℕ, zero, suc, ◌+◌, ◌-◌, ◌/◌, ◌%◌, ◌^◌, Bool, true, false, not, ◌&&◌, ◌||◌, Option, none, some,
  List, [], ◌∷◌, if◌then◌else◌, ◌==◌, ltb, leb, get_or, map,
}
use esp32_wifi_ap_cp.Base.Errors.{EspErr, esp_ok, esp_err_no_mem, is_ok}
use esp32_wifi_ap_cp.Ports.Bus.{
  port_sensor_count, Status, not_ready, available, in_use, fault, I2c, Port, Push, Ports, no_port,
  port_at, put_port, port_sensors_init,
}
use esp32_wifi_ap_cp.Ports.Reads.{Reading, fill_not_ready_reading, port_sensors_read_all, first_of}

-- PORT_SENSORS_HEARTBEAT_INTERVAL_MS
abbrev pub heartbeat_interval_ms : ℕ
heartbeat_interval_ms = 30000

abbrev pub is_day : Option ℕ → ℕ → Bool
is_day none day = false
is_day (some d) day = d == day

abbrev pub clear_seconds : Port → Port
clear_seconds p = record p { daily_in_use_seconds = 0 }

-- The counters start anew on a new day, but not on the first one.
abbrev pub roll_ports : Option ℕ → List Port → List Port
roll_ports none ports = ports
roll_ports (some d) ports = map clear_seconds ports

-- `now` in seconds since 1970.
unfoldable pub update_daily_anchor_and_maybe_reset : ℕ → Ports → Ports
update_daily_anchor_and_maybe_reset now s =
    let day_now = now / 86400 in
    if is_day s.utc_day_anchor day_now
    then s
    else record s { ports = roll_ports s.utc_day_anchor s.ports; utc_day_anchor = some day_now }

abbrev pub is_in_use : Status → Bool
is_in_use in_use = true
is_in_use available = false
is_in_use fault = false
is_in_use not_ready = false

-- Only these two are published.
abbrev pub is_availability : Status → Bool
is_availability in_use = true
is_availability available = true
is_availability fault = false
is_availability not_ready = false

abbrev pub same_status : Status → Status → Bool
same_status not_ready not_ready = true
same_status available available = true
same_status in_use in_use = true
same_status fault fault = true
same_status _ _ = false

-- The seconds since the last poll are added to the day's. They are counted in uint32_t.
unfoldable pub accumulate : ℕ → Status → Port → Port
accumulate now_ms status p =
    let dt_ms = now_ms - p.last_accum_ts_ms in
    let counts = is_in_use status && not (p.last_accum_ts_ms == 0) in
    record p {
      daily_in_use_seconds =
          if counts && (ltb 0 dt_ms && ltb dt_ms 60000)
          then (p.daily_in_use_seconds + dt_ms / 1000) % 2 ^ 32
          else p.daily_in_use_seconds;
      last_accum_ts_ms = now_ms;
    }

abbrev pub is_due : ℕ → Status → Port → Bool
is_due now_ms status p =
    not (same_status status p.last_pushed_status)
    || leb heartbeat_interval_ms (now_ms - p.last_pushed_ts_ms)

-- The task's round for one port, and whether the database takes what is sent. The answer is what is
-- kept of the port, and what was sent.
unfoldable pub sync_port : ℕ → ℕ → Status → Bool → Port → Port × Option Push
sync_port id now_ms status post_ok p =
    let p1 = accumulate now_ms status p in
    let push : Push = record { port = id; status = status; seconds = p1.daily_in_use_seconds } in
    if not p.present || not (is_availability status)
    then (p, none)
    else if not (is_due now_ms status p1)
    then (p1, none)
    else if post_ok
    then (record p1 { last_pushed_status = status; last_pushed_ts_ms = now_ms }, some push)
    else (p1, some push)

abbrev pub log_push : Option Push → Ports → Ports
log_push none s = s
log_push (some push) s = record s { pushes = push ∷ s.pushes }

-- `n` ports from `id` on are left.
unfoldable pub sync_from : ℕ → List Reading → (ℕ → Bool) → ℕ → ℕ → Ports → Ports
sync_from now_ms readings post_ok zero id s = s
sync_from now_ms readings post_ok (suc n) id s =
    let status = (get_or readings id (fill_not_ready_reading id)).status in
    let (p, push) = sync_port id now_ms status (post_ok id) (port_at s id) in
    sync_from now_ms readings post_ok n (id + 1) (log_push push (put_port id p s))

abbrev pub reset_port : Port → Port
reset_port p = record no_port { present = p.present }

-- port_sensors_sync_task before its loop.
unfoldable pub sync_task_begin : Ports → Ports
sync_task_begin s = record s { ports = map reset_port s.ports }

-- What a round of the loop meets: the bus, the time since boot, the time of day, and whether the
-- database takes what is sent for a port.
pub record Round : Type 0 where
  pub bus : I2c
  pub now_ms : ℕ
  pub now : ℕ
  pub post_ok : ℕ → Bool

unfoldable pub sync_round : Round → Ports → Ports
sync_round r s =
    let (err, readings, s1) = port_sensors_read_all r.bus s in
    sync_from r.now_ms readings r.post_ok port_sensor_count 0
      (update_daily_anchor_and_maybe_reset r.now s1)

-- The loop of port_sensors_sync_once; `post` is what the requests answer.
unfoldable pub sync_once_from :
    List Reading → (ℕ → EspErr) → ℕ → ℕ → EspErr → Ports → EspErr × Ports
sync_once_from readings post zero id first_err s = (first_err, s)
sync_once_from readings post (suc n) id first_err s =
    let status = (get_or readings id (fill_not_ready_reading id)).status in
    let p = port_at s id in
    let push : Push = record { port = id; status = status; seconds = p.daily_in_use_seconds } in
    let sends = p.present && is_availability status in
    sync_once_from readings post n (id + 1)
      (if sends then first_of first_err (post id) else first_err)
      (if sends then record s { pushes = push ∷ s.pushes } else s)

unfoldable pub port_sensors_sync_once : I2c → (ℕ → EspErr) → Ports → EspErr × Ports
port_sensors_sync_once io post s =
    let (err, readings, s1) = port_sensors_read_all io s in
    sync_once_from readings post port_sensor_count 0 err s1

unfoldable pub port_sensors_start_supabase_sync : I2c → Bool → Ports → EspErr × Ports
port_sensors_start_supabase_sync io task_created s =
    let (err, s1) = port_sensors_init io s in
    if s.sync_task_started
    then (esp_ok, s)
    else if not (is_ok err)
    then (err, s1)
    else if task_created
    then (esp_ok, record s1 { sync_task_started = true })
    else (esp_err_no_mem, s1)
