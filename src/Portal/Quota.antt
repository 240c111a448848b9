-- ===== src/Portal/Quota.antt =====
-- The daily quota table of main/http_server.c: days, records, and their persistence in NVS.
pub mod Usage
pub mod Remaining
use esp32_wifi_ap_cp.Base.{
  ℕ, ◌+◌, ◌-◌, ◌*◌, ◌/◌, ◌%◌, ◌^◌, Bool, true, false, not, ◌&&◌, Option, none, some, List,
  if◌then◌else◌, ◌==◌, ltb, leb, replicate, find_slot, get_or, set,
}

abbrev pub max_clients : ℕ
max_clients = 20

abbrev pub daily_quota_sec : ℕ
daily_quota_sec = 3600

-- One second in microseconds.
abbrev pub second_us : ℕ
second_us = 1_000_000

abbrev pub quota_flush_interval_us : ℕ
quota_flush_interval_us = 60 * second_us

-- A value cast to uint32_t.
abbrev pub u32 : ℕ → ℕ
u32 n = n % 2 ^ 32

-- What the handlers read from their surroundings. `now` is esp_timer_get_time, `wall` is time(NULL);
-- a Boolean is true where the call returns ESP_OK or pdTRUE.
pub record Env : Type 0 where
  pub now : ℕ
  pub wall : ℕ
  pub nvs_open_ok : Bool
  pub nvs_set_blob_ok : Bool
  pub nvs_set_u32_ok : Bool
  pub nvs_commit_ok : Bool
  pub napt_enable_ok : Bool
  pub napt_disable_ok : Bool
  pub queue_create_ok : Bool
  pub task_create_ok : Bool
  -- esp_wifi_ap_get_sta_list: the MACs of the stations, `none` on an error.
  pub stations : Option (List ℕ)
  -- esp_netif_dhcps_get_clients_by_mac: the addresses of the given MACs, `none` on an error.
  pub leases : List ℕ → Option (List ℕ)
  -- generate_session_token and generate_hash_from_mac (esp_random and SHA-256).
  pub new_token : List ℕ
  pub hash_from_mac : ℕ → List ℕ

pub record QuotaRecord : Type 0 where
  pub valid : Bool
  pub mac : ℕ
  pub day_id : ℕ
  pub used_seconds : ℕ

abbrev pub no_record : QuotaRecord
no_record = record { valid = false; mac = 0; day_id = 0; used_seconds = 0 }

-- s_quota_records, s_quota_dirty, s_day_hint, s_last_quota_flush_us; `stored` is what NVS has
-- committed of the table and of the day hint.
pub record Quota : Type 0 where
  pub records : List QuotaRecord
  pub dirty : Bool
  pub day_hint : ℕ
  pub last_flush : ℕ
  pub stored : Option (List QuotaRecord × ℕ)

abbrev pub has_valid_system_time : Env → Bool
has_valid_system_time env = leb 1_700_000_000 env.wall

unfoldable pub get_current_day_id : Env → Quota → ℕ × Quota
get_current_day_id env q =
    let day = u32 (env.wall / 86400) in
    if has_valid_system_time env
    then (day, record q { day_hint = day })
    else ((if q.day_hint == 0 then 1 else q.day_hint), q)

unfoldable pub get_seconds_until_next_day : Env → ℕ
get_seconds_until_next_day env =
    let seconds = (env.wall / 86400 + 1) * 86400 - env.wall in
    if has_valid_system_time env then (if ltb 0 seconds then seconds else 1) else daily_quota_sec

abbrev pub mac_is_zero : ℕ → Bool
mac_is_zero mac = mac == 0

abbrev pub nvs_write_ok : Env → Bool
nvs_write_ok env = env.nvs_open_ok && env.nvs_set_blob_ok && env.nvs_set_u32_ok && env.nvs_commit_ok

-- The difference of the two clock readings is written as a sum, since the earlier one is smaller.
unfoldable pub flush_quota_state : Env → Bool → Quota → Quota
flush_quota_state env force q =
    if not q.dirty
    then q
    else if not force && ltb env.now (q.last_flush + quota_flush_interval_us)
    then q
    else if nvs_write_ok env
    then record q { dirty = false; last_flush = env.now; stored = some (q.records, q.day_hint) }
    else q

-- With DEV_RESET_QUOTA_ON_BOOT, as the source sets it: the table is cleared, and so is NVS if it opens.
unfoldable pub load_quota_state : Env → Quota → Quota
load_quota_state env q = record {
  records = replicate max_clients no_record;
  dirty = false;
  day_hint = 0;
  last_flush = env.now;
  stored = if env.nvs_open_ok && env.nvs_commit_ok then none else q.stored;
}

abbrev pub valid_with_mac : ℕ → QuotaRecord → Bool
valid_with_mac mac r = r.valid && (r.mac == mac)

abbrev pub invalid : QuotaRecord → Bool
invalid r = not r.valid

abbrev pub record_at : Quota → ℕ → QuotaRecord
record_at q i = get_or q.records i no_record

-- The record found: its counter starts again on a new day.
pub roll_over : ℕ → ℕ → Quota → Quota
roll_over i day q = if (record_at q i).day_id == day then q else record q {
  records = set q.records i (record (record_at q i) { day_id = day; used_seconds = 0 });
  dirty = true;
}

abbrev pub or_zero : Option ℕ → ℕ
or_zero none = 0
or_zero (some i) = i

-- The first invalid record is taken, or record 0 if there is none.
pub alloc_record : ℕ → ℕ → Quota → ℕ × Quota
alloc_record mac day q =
    let i = or_zero (find_slot invalid q.records) in
    (
      i,
      record q {
        records =
            set q.records i (record { valid = true; mac = mac; day_id = day; used_seconds = 0 });
        dirty = true;
      },
    )

pub find_or_alloc_nonzero : ℕ → ℕ → Option ℕ → Quota → ℕ × Quota
find_or_alloc_nonzero mac day (some i) q = (i, roll_over i day q)
find_or_alloc_nonzero mac day none q = alloc_record mac day q

-- The pointer returned is an index; NULL is `none`.
unfoldable pub find_or_alloc_quota_record : ℕ → ℕ → Quota → Option ℕ × Quota
find_or_alloc_quota_record mac day q =
    let found = find_or_alloc_nonzero mac day (find_slot (valid_with_mac mac) q.records) q in
    if mac_is_zero mac then (none, q) else (some found.0, found.1)

unfoldable pub remaining_of : Option ℕ × Quota → ℕ
remaining_of (none, q) = 0
remaining_of (some i, q) =
    if leb daily_quota_sec (record_at q i).used_seconds
    then 0
    else daily_quota_sec - (record_at q i).used_seconds

unfoldable pub get_quota_remaining_for_mac : Env → ℕ → Quota → ℕ × Quota
get_quota_remaining_for_mac env mac q =
    let (day, q1) = get_current_day_id env q in
    let found = find_or_alloc_quota_record mac day q1 in
    if mac_is_zero mac then (daily_quota_sec, q1) else (remaining_of found, found.1)
