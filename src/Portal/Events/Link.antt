-- ===== src/Portal/Events/Link.antt =====
-- The handlers of main/http_server.c leave the state of the Wi-Fi alone.
use esp32_wifi_ap_cp.Base.{
  ℕ, zero, suc, ◌+◌, refl, true, false, Option, none, some, arith, find_slot,
}
use esp32_wifi_ap_cp.Portal.Quota.{Env, max_clients, get_quota_remaining_for_mac}
use esp32_wifi_ap_cp.Portal.State.{Portal, UpdateMode, session_at, ensure_napt_enabled}
use esp32_wifi_ap_cp.Portal.State.Link.{SameLink, refresh_link, napt_link, queue_link, revoke_link}
use esp32_wifi_ap_cp.Portal.Start.{start_or_resume_session}
use esp32_wifi_ap_cp.Portal.Start.Link.{start_link}
use esp32_wifi_ap_cp.Portal.Events.{
  announce_resumed, returning_client, auto_resume, handle_client_connect, live_with_mac,
  rebind_session, handle_client_ip_assigned, Scan, scan_slot, scan_from, disconnect_fallback,
  handle_client_disconnect,
}

announce_link :
    (env : Env) (n : ℕ) (slot : Option ℕ) (p : Portal) → SameLink p (announce_resumed env n slot p)
unfolding announce_resumed
announce_link env n none p = (refl, refl)
announce_link env n (some i) p = ground (
  arith,
  queue_link env (session_at p i).token (session_at p i).device_hash n UpdateMode.active p,
)

auto_resume_link : (env : Env) (mac n : ℕ) (p : Portal) → SameLink p (auto_resume env mac n p)
unfolding auto_resume
auto_resume_link env mac n p =
    let (slot, p1) = start_or_resume_session env (returning_client env mac n) p in
    ground (arith, announce_link env n slot p1, start_link env (returning_client env mac n) p)

pub connect_link : (env : Env) (mac : ℕ) (p : Portal) → SameLink p (handle_client_connect env mac p)
unfolding handle_client_connect
connect_link env mac p =
    let (remaining, q) = get_quota_remaining_for_mac env mac p.quota in
    let p1 : Portal = record p { quota = q } in
    let (ok, p2) = ensure_napt_enabled env p1 in
    ground (arith, napt_link env p1, auto_resume_link env mac remaining p2)

rebind_link :
    (env : Env) (mac ip : ℕ) (slot : Option ℕ) (p : Portal)
    → SameLink p (rebind_session env mac ip slot p)
unfolding rebind_session
rebind_link env mac ip none p = (refl, refl)
rebind_link env mac ip (some i) p = refresh_link env _

pub assigned_link :
    (env : Env) (mac ip : ℕ) (p : Portal) → SameLink p (handle_client_ip_assigned env mac ip p)
unfolding handle_client_ip_assigned
assigned_link env mac ip p =
    ground (arith, rebind_link env mac ip (find_slot (live_with_mac env mac) p.sessions) p)

scan_slot_link :
    (env : Env) (mac i : ℕ) (r : Scan) → SameLink r.portal (scan_slot env mac i r).portal
unfolding scan_slot
scan_slot_link env mac i r = ground (arith, revoke_link env i true r.portal)

scan_from_link :
    (env : Env) (mac n i : ℕ) (r : Scan) → SameLink r.portal (scan_from env mac n i r).portal
unfolding scan_from
scan_from_link env mac zero i r = (refl, refl)
scan_from_link env mac (suc n) i r =
    let r1 = scan_slot env mac i r in
    ground (arith, scan_from_link env mac n (i + 1) r1, scan_slot_link env mac i r)

fallback_link :
    (env : Env) (slot : Option ℕ) (p : Portal) → SameLink p (disconnect_fallback env slot p)
unfolding disconnect_fallback
fallback_link env none p = (refl, refl)
fallback_link env (some i) p = revoke_link env i true p

pub disconnect_link :
    (env : Env) (mac : ℕ) (p : Portal) → SameLink p (handle_client_disconnect env mac p)
unfolding handle_client_disconnect
disconnect_link env mac p =
    let r0 : Scan = record {
      matched = false;
      active_session_count = 0;
      fallback = none;
      portal = p;
    } in
    let r = scan_from env mac max_clients 0 r0 in
    ground (arith, scan_from_link env mac max_clients 0 r0, fallback_link env r.fallback r.portal)
