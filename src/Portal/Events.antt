-- ===== src/Portal/Events.antt =====
-- The handlers of main/http_server.c for a client that connects, gets an address or leaves, and the
-- heartbeat.
pub mod Keeping
pub mod Leaving
pub mod Link
use esp32_wifi_ap_cp.Base.{
  ℕ, zero, suc, ◌+◌, Bool, true, false, not, ◌&&◌, ◌||◌, Option, none, some, if◌then◌else◌, ◌==◌,
  ltb, leb, is_empty, find_slot,
}
use esp32_wifi_ap_cp.Acl.{client_acl_admit, client_acl_revoke_by_ip}
use esp32_wifi_ap_cp.Portal.Quota.{
  Env, max_clients, daily_quota_sec, mac_is_zero, get_quota_remaining_for_mac,
}
use esp32_wifi_ap_cp.Portal.Sessions.{
  Session, session_token_len, device_hash_len, strlcpy, active_with_mac, checkpoint_session_usage,
  get_session_remaining_seconds,
}
use esp32_wifi_ap_cp.Portal.State.{
  Portal, UpdateMode, session_at, put_session, refresh_portal_auth_state, ensure_napt_enabled,
  queue_supabase_session_update, revoke_session,
}
use esp32_wifi_ap_cp.Portal.Start.{Client, start_or_resume_session}
use esp32_wifi_ap_cp.Portal.Clients.{is_positive}

-- The update of a session that was resumed; nothing is sent without a token and a hash.
pub announce_resumed : Env → ℕ → Option ℕ → Portal → Portal
announce_resumed env remaining none p = p
announce_resumed env remaining (some i) p =
    let s = session_at p i in
    if is_empty s.token || is_empty s.device_hash
    then p
    else queue_supabase_session_update env s.token s.device_hash remaining UpdateMode.active p

abbrev pub returning_client : Env → ℕ → ℕ → Client
returning_client env mac remaining = record {
  ip = 0;
  mac = some mac;
  token = strlcpy session_token_len env.new_token;
  device_hash = strlcpy device_hash_len (env.hash_from_mac mac);
  granted_seconds = remaining;
}

pub auto_resume : Env → ℕ → ℕ → Portal → Portal
auto_resume env mac remaining p =
    let (slot, p1) = start_or_resume_session env (returning_client env mac remaining) p in
    announce_resumed env remaining slot p1

unfoldable pub handle_client_connect : Env → ℕ → Portal → Portal
handle_client_connect env mac p =
    let (remaining, q) = get_quota_remaining_for_mac env mac p.quota in
    let p1 = record p { quota = q } in
    let (napt_ok, p2) = ensure_napt_enabled env p1 in
    if mac_is_zero mac || not p.ap_connect
    then p
    else if leb remaining 0 || leb daily_quota_sec remaining
    then p1
    else if napt_ok
    then auto_resume env mac remaining p2
    else p2

abbrev pub live_with_mac : Env → ℕ → Session → Bool
live_with_mac env mac s = active_with_mac mac s && ltb env.now s.end_time

pub rebind_session : Env → ℕ → ℕ → Option ℕ → Portal → Portal
rebind_session env mac ip none p = p
rebind_session env mac ip (some i) p =
    let s = session_at p i in
    let acl =
      if (s.ip_addr == ip) || (s.ip_addr == 0)
      then p.acl
      else client_acl_revoke_by_ip s.ip_addr p.acl in
    let p1 = put_session i (record s { ip_addr = ip; admitted = true }) p in
    refresh_portal_auth_state env (record p1 { acl = client_acl_admit ip (some mac) acl })

unfoldable pub handle_client_ip_assigned : Env → ℕ → ℕ → Portal → Portal
handle_client_ip_assigned env mac ip p =
    if mac_is_zero mac || (ip == 0)
    then p
    else rebind_session env mac ip (find_slot (live_with_mac env mac) p.sessions) p

-- The loop of handle_client_disconnect: `n` slots from `i` on are left.
pub record Scan : Type 0 where
  pub matched : Bool
  pub active_session_count : ℕ
  pub fallback : Option ℕ
  pub portal : Portal

pub scan_slot : Env → ℕ → ℕ → Scan → Scan
scan_slot env mac i r =
    let s = session_at r.portal i in
    let hit = s.mac == mac in
    if not s.active then r else record {
      matched = if hit then true else r.matched;
      active_session_count = r.active_session_count + 1;
      fallback = elim r.fallback [ none ↦ some i | some j ↦ some j ];
      portal = if hit then revoke_session env i true r.portal else r.portal;
    }

pub scan_from : Env → ℕ → ℕ → ℕ → Scan → Scan
scan_from env mac zero i r = r
scan_from env mac (suc n) i r = scan_from env mac n (i + 1) (scan_slot env mac i r)

pub disconnect_fallback : Env → Option ℕ → Portal → Portal
disconnect_fallback env none p = p
disconnect_fallback env (some i) p = revoke_session env i true p

unfoldable pub handle_client_disconnect : Env → ℕ → Portal → Portal
handle_client_disconnect env mac p =
    let r =
      scan_from env mac max_clients 0
        (record { matched = false; active_session_count = 0; fallback = none; portal = p }) in
    if r.matched
    then r.portal
    else if (r.portal.connect_count == 0) && (r.active_session_count == 1)
    then disconnect_fallback env r.fallback r.portal
    else r.portal

-- One round of supabase_heartbeat_task for one slot; the HTTP requests change no state here.
pub heartbeat_slot : Env → ℕ → Portal → Portal
heartbeat_slot env i p =
    let s = session_at p i in
    let (s1, q) = checkpoint_session_usage env false s p.quota in
    let p1 = record (put_session i s1 p) { quota = q } in
    if not s.active || is_empty s.token || is_empty s.device_hash
    then p
    else if is_positive (get_session_remaining_seconds s1 env.now)
    then p1
    else revoke_session env i (not s1.admitted) p1

pub heartbeat_from : Env → ℕ → ℕ → Portal → Portal
heartbeat_from env zero i p = p
heartbeat_from env (suc n) i p = heartbeat_from env n (i + 1) (heartbeat_slot env i p)

-- One round of the loop of supabase_heartbeat_task.
unfoldable pub heartbeat_round : Env → Portal → Portal
heartbeat_round env p = heartbeat_from env max_clients 0 p
