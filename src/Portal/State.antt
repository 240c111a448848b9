-- ===== src/Portal/State.antt =====
-- The state of the captive portal in main/http_server.c, and the functions that keep the sessions,
-- the access list, the NAT and the update queue in step. A handler runs at one reading of the clock.
pub mod Sweeping
pub mod Refreshing
pub mod Revoking
pub mod Ending
pub mod Link
use esp32_wifi_ap_cp.Base.{
  ℕ, ◌-◌, ◌/◌, Bool, true, false, not, ◌&&◌, ◌||◌, Option, none, some, List, [], ◌∷◌, ◌++◌,
  if◌then◌else◌, ◌==◌, ltb, leb, length, is_empty, exists_slot, get_or, set, replicate,
}
use esp32_wifi_ap_cp.Acl.{
  AclEntry, client_acl_init, client_acl_revoke_by_ip, client_acl_revoke_by_mac,
}
use esp32_wifi_ap_cp.Portal.Quota.{
  Env, Quota, max_clients, second_us, mac_is_zero, load_quota_state,
}
use esp32_wifi_ap_cp.Portal.Sessions.{
  Session, no_session, session_token_len, device_hash_len, strlcpy, checkpoint_session_usage,
}

-- supabase_update_mode_t
pub data UpdateMode : Type 0 where
  active disconnected expired : UpdateMode

-- pending_supabase_update_t
pub record Update : Type 0 where
  pub token : List ℕ
  pub device_hash : List ℕ
  pub remaining_seconds : ℕ
  pub mode : UpdateMode

abbrev pub update_queue_len : ℕ
update_queue_len = 8

-- The statics of http_server.c, and of the globals what the handlers use. `queue` is `none` until
-- s_supabase_update_queue is created, and holds the updates that its task has not taken yet.
pub record Portal : Type 0 where
  pub sessions : List Session
  pub quota : Quota
  pub acl : List AclEntry
  pub napt_enabled : Bool
  pub global_end_time : ℕ
  pub portal_authenticated : Bool
  pub queue : Option (List Update)
  pub update_task_started : Bool
  pub ap_connect : Bool
  pub connect_count : ℕ

abbrev pub session_at : Portal → ℕ → Session
session_at p i = get_or p.sessions i no_session

abbrev pub put_session : ℕ → Session → Portal → Portal
put_session i s p = record p { sessions = set p.sessions i s }

unfoldable pub init_sessions : Env → Portal → Portal
init_sessions env p = record p {
  sessions = replicate max_clients no_session;
  acl = client_acl_init;
  quota = load_quota_state env p.quota;
}

abbrev pub grants_access : ℕ → Session → Bool
grants_access now s = s.active && s.admitted && ltb now s.end_time

unfoldable pub has_active_access : Env → Portal → Bool
has_active_access env p =
    ltb env.now p.global_end_time || exists_slot (grants_access env.now) p.sessions

unfoldable pub maybe_disable_napt_if_idle : Env → Portal → Portal
maybe_disable_napt_if_idle env p =
    if not p.napt_enabled || has_active_access env p
    then p
    else if env.napt_disable_ok
    then record p { napt_enabled = false }
    else p

-- `true` for ESP_OK.
unfoldable pub ensure_napt_enabled : Env → Portal → Bool × Portal
ensure_napt_enabled env p =
    if p.napt_enabled
    then (true, p)
    else if env.napt_enable_ok
    then (true, record p { napt_enabled = true })
    else (false, p)

-- What the loop of refresh_portal_auth_state has changed so far, and `has_active_session`.
pub record Sweep : Type 0 where
  pub sessions : List Session
  pub quota : Quota
  pub acl : List AclEntry
  pub has_active_session : Bool

abbrev pub has_ended : ℕ → Session → Bool
has_ended now s = s.active && ltb 0 s.end_time && leb s.end_time now

-- The access list without the session's address and MAC.
unfoldable pub revoke_client : Session → List AclEntry → List AclEntry
revoke_client s acl =
    let acl1 = if s.ip_addr == 0 then acl else client_acl_revoke_by_ip s.ip_addr acl in
    if mac_is_zero s.mac then acl1 else client_acl_revoke_by_mac (some s.mac) acl1

unfoldable pub sweep : Env → List Session → Quota → List AclEntry → Sweep
sweep env [] q acl = record { sessions = []; quota = q; acl = acl; has_active_session = false }
sweep env (s ∷ ss) q acl =
    let ended = has_ended env.now s in
    let charged = checkpoint_session_usage env true s q in
    let rest =
      sweep env ss (if ended then charged.1 else q) (if ended then revoke_client s acl else acl) in
    record rest {
      sessions = (if ended then record (charged.0) { active = false } else s) ∷ rest.sessions;
      has_active_session = (not ended && s.active && s.admitted) || rest.has_active_session;
    }

-- The global session, cleared once its end has passed.
abbrev pub global_left : Env → Portal → ℕ
global_left env p =
    if ltb 0 p.global_end_time && leb p.global_end_time env.now then 0 else p.global_end_time

abbrev pub after_sweep : Env → Sweep → Portal → Portal
after_sweep env done p = record p {
  sessions = done.sessions;
  quota = done.quota;
  acl = done.acl;
  global_end_time = global_left env p;
  portal_authenticated = done.has_active_session || ltb env.now (global_left env p);
}

unfoldable pub refresh_portal_auth_state : Env → Portal → Portal
refresh_portal_auth_state env p =
    let p1 = after_sweep env (sweep env p.sessions p.quota p.acl) p in
    if p1.portal_authenticated then p1 else maybe_disable_napt_if_idle env p1

abbrev pub with_queue : Env → Option (List Update) → Option (List Update)
with_queue env (some us) = some us
with_queue env none = if env.queue_create_ok then some [] else none

abbrev pub start_update_task : Env → Option (List Update) → Portal → Portal
start_update_task env none p = record p { queue = none }
start_update_task env (some us) p = record p {
  queue = some us;
  update_task_started = p.update_task_started || env.task_create_ok;
}

unfoldable pub ensure_supabase_update_task_started : Env → Portal → Portal
ensure_supabase_update_task_started env p = start_update_task env (with_queue env p.queue) p

-- xQueueSend without waiting: a full queue drops the update.
abbrev pub send_update : Update → Option (List Update) → Option (List Update)
send_update u none = none
send_update u (some us) = some (if ltb (length us) update_queue_len then us ++ (u ∷ []) else us)

unfoldable pub queue_supabase_session_update :
    Env → List ℕ → List ℕ → ℕ → UpdateMode → Portal → Portal
queue_supabase_session_update env token hash remaining mode p =
    let p1 = ensure_supabase_update_task_started env p in
    record p1 {
      queue =
          send_update
            (record {
              token = strlcpy session_token_len token;
              device_hash = strlcpy device_hash_len hash;
              remaining_seconds = remaining;
              mode = mode;
            })
            p1.queue;
    }

abbrev pub mode_of_revoke : Bool → UpdateMode
mode_of_revoke true = disconnected
mode_of_revoke false = expired

-- The session given up and charged for, its client off the access list.
pub close_session : Env → ℕ → Portal → Portal
close_session env i p =
    let (s, q) = checkpoint_session_usage env true (session_at p i) p.quota in
    refresh_portal_auth_state env (record p {
      sessions = set p.sessions i (record s { admitted = false; active = false });
      quota = q;
      acl = revoke_client s p.acl;
    })

unfoldable pub revoke_session : Env → ℕ → Bool → Portal → Portal
revoke_session env i is_disconnected p =
    let s = session_at p i in
    let p1 = close_session env i p in
    if not (ltb i max_clients && s.active)
    then p
    else if is_empty s.token || is_empty s.device_hash
    then p1
    else queue_supabase_session_update env (strlcpy session_token_len s.token)
        (strlcpy device_hash_len s.device_hash) ((s.end_time - env.now) / second_us)
        (mode_of_revoke is_disconnected) p1
