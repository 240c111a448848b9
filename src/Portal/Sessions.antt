-- ===== src/Portal/Sessions.antt =====
-- The client sessions of main/http_server.c: the slots, the searches, and the charging of the quota.
pub mod Charging
pub mod Midnight
use esp32_wifi_ap_cp.Base.{
  ℕ, ◌+◌, ◌-◌, ◌/◌, Bool, true, false, not, ◌&&◌, ◌||◌, Option, none, some, List, [], if◌then◌else◌,
  ◌==◌, ltb, leb, str_eq, is_empty, find_slot, set, take,
}
use esp32_wifi_ap_cp.Portal.Quota.{
  Env, Quota, second_us, u32, daily_quota_sec, mac_is_zero, get_current_day_id, flush_quota_state,
  find_or_alloc_quota_record, record_at,
}

-- `token` and `device_hash` are the bytes before the NUL.
pub record Session : Type 0 where
  pub ip_addr : ℕ
  pub mac : ℕ
  pub token : List ℕ
  pub device_hash : List ℕ
  pub end_time : ℕ
  pub start_time : ℕ
  pub granted_seconds : ℕ
  pub accounted_seconds : ℕ
  pub day_id : ℕ
  pub admitted : Bool
  pub active : Bool

abbrev pub no_session : Session
no_session = record {
  ip_addr = 0;
  mac = 0;
  token = [];
  device_hash = [];
  end_time = 0;
  start_time = 0;
  granted_seconds = 0;
  accounted_seconds = 0;
  day_id = 0;
  admitted = false;
  active = false;
}

abbrev pub session_token_len : ℕ
session_token_len = 33

abbrev pub device_hash_len : ℕ
device_hash_len = 65

-- strlcpy into a buffer of `size` bytes, which ends in a NUL.
abbrev pub strlcpy : ℕ → List ℕ → List ℕ
strlcpy size src = take (size - 1) src

abbrev pub active_with_ip : ℕ → Session → Bool
active_with_ip ip s = s.active && (s.ip_addr == ip)

abbrev pub active_with_mac : ℕ → Session → Bool
active_with_mac mac s = s.active && (s.mac == mac)

abbrev pub active_with_token : List ℕ → Session → Bool
active_with_token token s = s.active && str_eq s.token token

unfoldable pub find_session_index_by_ip : ℕ → List Session → Option ℕ
find_session_index_by_ip ip sessions = find_slot (active_with_ip ip) sessions

unfoldable pub find_session_index_by_mac : Option ℕ → List Session → Option ℕ
find_session_index_by_mac none sessions = none
find_session_index_by_mac (some mac) sessions = find_slot (active_with_mac mac) sessions

unfoldable pub find_session_index_by_token : List ℕ → List Session → Option ℕ
find_session_index_by_token token sessions =
    if is_empty token then none else find_slot (active_with_token token) sessions

unfoldable pub find_free_session_slot : List Session → Option ℕ
find_free_session_slot sessions = find_slot (λ s. not s.active) sessions

-- Whole seconds until the session ends; `none` stands for -1.
unfoldable pub get_session_remaining_seconds : Session → ℕ → Option ℕ
get_session_remaining_seconds s now =
    if not s.active
    then none
    else if leb s.end_time now
    then none
    else some ((s.end_time - now) / second_us)

-- `elapsed_seconds`, capped at what was granted.
abbrev pub elapsed_of : Session → ℕ → ℕ
elapsed_of s now =
    let elapsed = u32 ((now - s.start_time) / second_us) in
    if ltb s.granted_seconds elapsed then s.granted_seconds else elapsed

abbrev pub flush_if_forced : Env → Bool → Quota → Quota
flush_if_forced env force q = if force then flush_quota_state env true q else q

-- The three early returns of checkpoint_session_usage.
abbrev pub nothing_to_charge : Session → ℕ → Bool
nothing_to_charge s now =
    mac_is_zero s.mac
    || (s.start_time == 0)
    || (s.granted_seconds == 0)
    || leb now s.start_time
    || leb (elapsed_of s now) s.accounted_seconds

abbrev pub capped_use : ℕ → ℕ
capped_use used = if ltb daily_quota_sec used then daily_quota_sec else used

pub charge : ℕ → Option ℕ × Quota → Quota
charge delta (none, q) = q
charge delta (some i, q) = record q {
  records = set q.records i (record (record_at q i) {
    used_seconds = capped_use (u32 ((record_at q i).used_seconds + delta));
  });
  dirty = true;
}

pub session_day : Env → Session → Quota → ℕ × Quota
session_day env s q = if s.day_id == 0 then get_current_day_id env q else (s.day_id, q)

pub charge_session : Env → Session → Quota → Quota
charge_session env s q =
    let (day, q1) = session_day env s q in
    charge (elapsed_of s env.now - s.accounted_seconds) (find_or_alloc_quota_record s.mac day q1)

unfoldable pub checkpoint_session_usage : Env → Bool → Session → Quota → Session × Quota
checkpoint_session_usage env force s q =
    if nothing_to_charge s env.now then (s, flush_if_forced env force q) else (
      record s { accounted_seconds = elapsed_of s env.now },
      flush_quota_state env force (charge_session env s q),
    )
