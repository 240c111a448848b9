-- ===== src/Portal/Start.antt =====
-- start_or_resume_session of main/http_server.c: a client that was admitted gets a session.
-- A MAC that is NULL is `none`. A token or hash that is NULL reads as the empty one, since the
-- source tests for both at once.
pub mod Searching
pub mod Link
pub mod Granting
pub mod Admitting
pub mod Ending
use esp32_wifi_ap_cp.Base.{
  ℕ, ◌+◌, ◌*◌, true, false, ◌&&◌, Option, none, some, List, [], if◌then◌else◌, ◌==◌, ltb, is_empty,
  set,
}
use esp32_wifi_ap_cp.Acl.{client_acl_admit}
use esp32_wifi_ap_cp.Portal.Quota.{Env, daily_quota_sec, second_us, get_current_day_id}
use esp32_wifi_ap_cp.Portal.Sessions.{
  Session, session_token_len, device_hash_len, strlcpy, find_session_index_by_ip,
  find_session_index_by_mac, find_session_index_by_token, find_free_session_slot,
}
use esp32_wifi_ap_cp.Portal.State.{Portal, session_at, put_session, refresh_portal_auth_state}

-- The arguments of a call of start_or_resume_session.
pub record Client : Type 0 where
  pub ip : ℕ
  pub mac : Option ℕ
  pub token : List ℕ
  pub device_hash : List ℕ
  pub granted_seconds : ℕ

abbrev pub session_duration_sec : Client → ℕ
session_duration_sec c = if ltb 0 c.granted_seconds then c.granted_seconds else daily_quota_sec

abbrev pub end_of : Env → Client → ℕ
end_of env c = env.now + session_duration_sec c * second_us

abbrev pub mac_or : ℕ → Option ℕ → ℕ
mac_or mac none = mac
mac_or mac (some m) = m

-- strlcpy(dst, src) where src is not empty; else dst stays.
abbrev pub text_or : ℕ → List ℕ → List ℕ → List ℕ
text_or size dst src = if is_empty src then dst else strlcpy size src

-- The assignments to the slot on the two paths that start a session anew: both set every field.
abbrev pub new_session : Env → Client → ℕ → Session
new_session env c day = record {
  ip_addr = c.ip;
  mac = mac_or 0 c.mac;
  token = text_or session_token_len [] c.token;
  device_hash = text_or device_hash_len [] c.device_hash;
  end_time = end_of env c;
  start_time = env.now;
  granted_seconds = session_duration_sec c;
  accounted_seconds = 0;
  day_id = day;
  admitted = true;
  active = true;
}

pub start_in_slot : Env → Client → ℕ → Portal → Portal
start_in_slot env c i p =
    let (day, q) = get_current_day_id env p.quota in
    record p {
      sessions = set p.sessions i (new_session env c day);
      quota = q;
      global_end_time = if c.ip == 0 then p.global_end_time else 0;
    }

-- The end of each path: refresh_portal_auth_state, then client_acl_admit.
pub refresh_and_admit : Env → Client → Portal → Portal
refresh_and_admit env c p =
    let p1 = refresh_portal_auth_state env p in
    record p1 { acl = client_acl_admit c.ip c.mac p1.acl }

-- A session found that has not ended keeps its time.
abbrev pub reused_session : Client → Session → Session
reused_session c s = record s {
  ip_addr = c.ip;
  admitted = true;
  mac = mac_or s.mac c.mac;
  token = if is_empty s.token then text_or session_token_len s.token c.token else s.token;
  device_hash = text_or device_hash_len s.device_hash c.device_hash;
}

pub reuse_slot : Env → Client → ℕ → Portal → Portal
reuse_slot env c i p = refresh_and_admit env c (put_session i (reused_session c (session_at p i)) p)

abbrev pub or_else : Option ℕ → Option ℕ → Option ℕ
or_else (some i) j = some i
or_else none j = j

-- Slot 0 is overwritten where every slot is active.
abbrev pub slot_or_first : Option ℕ → ℕ
slot_or_first none = 0
slot_or_first (some i) = i

-- The index kept from the first search is stale where no MAC is given, and is used as it is.
abbrev pub second_search : Option ℕ → Client → Portal → Option ℕ
second_search stale c p = elim c.mac [
  | none ↦ or_else stale (find_session_index_by_token c.token p.sessions)
  | some m ↦
      or_else (find_session_index_by_mac (some m) p.sessions)
        (find_session_index_by_token c.token p.sessions)
]

abbrev pub slot_to_start : Option ℕ → Client → Portal → ℕ
slot_to_start stale c p =
    slot_or_first (or_else (second_search stale c p) (find_free_session_slot p.sessions))

pub start_anew : Env → Client → Option ℕ → Portal → ℕ × Portal
start_anew env c stale p =
    let i = slot_to_start stale c p in (i, refresh_and_admit env c (start_in_slot env c i p))

pub resume_at : Env → Client → Option ℕ → Portal → ℕ × Portal
resume_at env c none p = start_anew env c none p
resume_at env c (some i) p =
    let s = session_at p i in
    if ltb env.now s.end_time
    then (i, reuse_slot env c i p)
    else start_anew env c (some i) (put_session i (record s { active = false }) p)

abbrev pub first_search : Client → Portal → Option ℕ
first_search c p =
    if c.ip == 0
    then find_session_index_by_token c.token p.sessions
    else or_else (find_session_index_by_mac c.mac p.sessions)
        (find_session_index_by_ip c.ip p.sessions)

-- Without an address the portal is opened for all, and each later test ignores that.
pub open_global : Env → Client → Portal → Portal
open_global env c p = refresh_portal_auth_state env (record p { global_end_time = end_of env c })

-- The pointer returned is an index, NULL is `none`.
unfoldable pub start_or_resume_session : Env → Client → Portal → Option ℕ × Portal
start_or_resume_session env c p =
    let p1 = if c.ip == 0 then open_global env c p else p in
    let found = resume_at env c (first_search c p1) p1 in
    if c.ip == 0 && is_empty c.token then (none, p1) else (some found.0, found.1)

unfoldable pub start_session : Env → ℕ → Portal → Portal
start_session env ip p =
    (start_or_resume_session env
      (record {
        ip = ip;
        mac = none;
        token = [];
        device_hash = [];
        granted_seconds = daily_quota_sec;
      })
      p).1
