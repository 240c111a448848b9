-- ===== src/Portal/Events/Keeping.antt =====
-- What calls the portal of main/http_server.c without a request, the Wi-Fi events and the heartbeat task,
-- keeps its tables well formed.
use esp32_wifi_ap_cp.Base.{
  ℕ, zero, suc, ◌+◌, ◌∙◌, Bool, true, false, not, Option, none, some, arith, length-set, find_slot,
}
use esp32_wifi_ap_cp.Acl.Invariant.{client_acl_admit-AclInv, revoke_by_ip-AclInv}
use esp32_wifi_ap_cp.Portal.Quota.{Env, max_clients, get_quota_remaining_for_mac}
use esp32_wifi_ap_cp.Portal.Quota.Remaining.{quota_remaining-QuotaInv}
use esp32_wifi_ap_cp.Portal.Sessions.{checkpoint_session_usage}
use esp32_wifi_ap_cp.Portal.Sessions.Charging.{checkpoint-QuotaInv}
use esp32_wifi_ap_cp.Portal.State.{Portal, UpdateMode, session_at, put_session, ensure_napt_enabled}
use esp32_wifi_ap_cp.Portal.State.Refreshing.{PortalInv, refresh-PortalInv}
use esp32_wifi_ap_cp.Portal.State.Revoking.{revoke-PortalInv, queue-PortalInv}
use esp32_wifi_ap_cp.Portal.Start.Granting.{start-PortalInv}
use esp32_wifi_ap_cp.Portal.Events.{
  announce_resumed, returning_client, auto_resume, handle_client_connect, live_with_mac,
  rebind_session, handle_client_ip_assigned, Scan, scan_slot, scan_from, disconnect_fallback,
  handle_client_disconnect, heartbeat_slot, heartbeat_from, heartbeat_round,
}

with_napt-PortalInv :
    (b : Bool) (p : Portal) → PortalInv p → PortalInv (record p { napt_enabled = b })
with_napt-PortalInv b p v = record { slots = v.slots; quota = v.quota; acl = v.acl }

pub napt-PortalInv :
    (env : Env) (p : Portal) → PortalInv p → PortalInv (ensure_napt_enabled env p).1
unfolding ensure_napt_enabled
napt-PortalInv env p v = ground (arith, with_napt-PortalInv true p v)

announce-PortalInv :
    (env : Env) (n : ℕ) (slot : Option ℕ) (p : Portal)
    → PortalInv p
    → PortalInv (announce_resumed env n slot p)
unfolding announce_resumed
announce-PortalInv env n none p v = v
announce-PortalInv env n (some i) p v = ground (
  arith,
  queue-PortalInv env (session_at p i).token (session_at p i).device_hash n UpdateMode.active p v,
)

auto_resume-PortalInv :
    (env : Env) (mac n : ℕ) (p : Portal) → PortalInv p → PortalInv (auto_resume env mac n p)
unfolding auto_resume
auto_resume-PortalInv env mac n p v =
    announce-PortalInv env n _ _ (start-PortalInv env (returning_client env mac n) p v)

with_remaining : Env → ℕ → Portal → Portal
with_remaining env mac p = record p { quota = (get_quota_remaining_for_mac env mac p.quota).1 }

with_remaining-PortalInv :
    (env : Env) (mac : ℕ) (p : Portal) → PortalInv p → PortalInv (with_remaining env mac p)
unfolding with_remaining
with_remaining-PortalInv env mac p v = record {
  slots = v.slots;
  quota = quota_remaining-QuotaInv env mac p.quota v.quota;
  acl = v.acl;
}

pub connect-PortalInv :
    (env : Env) (mac : ℕ) (p : Portal) → PortalInv p → PortalInv (handle_client_connect env mac p)
unfolding handle_client_connect with_remaining
connect-PortalInv env mac p v =
    let p1 = with_remaining env mac p in
    let v1 = with_remaining-PortalInv env mac p v in
    let v2 = napt-PortalInv env p1 v1 in
    ground (
      arith,
      v1,
      v2,
      auto_resume-PortalInv env mac (get_quota_remaining_for_mac env mac p.quota).0
          (ensure_napt_enabled env p1).1 v2,
    )

rebind-PortalInv :
    (env : Env) (mac ip : ℕ) (slot : Option ℕ) (p : Portal)
    → PortalInv p
    → PortalInv (rebind_session env mac ip slot p)
unfolding rebind_session
rebind-PortalInv env mac ip none p v = v
rebind-PortalInv env mac ip (some i) p v = refresh-PortalInv env _ (record {
  slots = length-set p.sessions i _ ∙ v.slots;
  quota = v.quota;
  acl =
      client_acl_admit-AclInv ip (some mac) _
        (ground (arith, v.acl, revoke_by_ip-AclInv (session_at p i).ip_addr p.acl v.acl));
})

pub assigned-PortalInv :
    (env : Env) (mac ip : ℕ) (p : Portal)
    → PortalInv p
    → PortalInv (handle_client_ip_assigned env mac ip p)
unfolding handle_client_ip_assigned
assigned-PortalInv env mac ip p v =
    ground (arith, rebind-PortalInv env mac ip (find_slot (live_with_mac env mac) p.sessions) p v)

pub scan_slot-PortalInv :
    (env : Env) (mac i : ℕ) (r : Scan)
    → PortalInv r.portal
    → PortalInv (scan_slot env mac i r).portal
unfolding scan_slot
scan_slot-PortalInv env mac i r v = ground (arith, revoke-PortalInv env i true r.portal v)

scan_from-PortalInv :
    (env : Env) (mac n i : ℕ) (r : Scan)
    → PortalInv r.portal
    → PortalInv (scan_from env mac n i r).portal
unfolding scan_from
scan_from-PortalInv env mac zero i r v = v
scan_from-PortalInv env mac (suc n) i r v =
    scan_from-PortalInv env mac n (i + 1) _ (scan_slot-PortalInv env mac i r v)

fallback-PortalInv :
    (env : Env) (slot : Option ℕ) (p : Portal)
    → PortalInv p
    → PortalInv (disconnect_fallback env slot p)
unfolding disconnect_fallback
fallback-PortalInv env none p v = v
fallback-PortalInv env (some i) p v = revoke-PortalInv env i true p v

pub disconnect-PortalInv :
    (env : Env) (mac : ℕ) (p : Portal)
    → PortalInv p
    → PortalInv (handle_client_disconnect env mac p)
unfolding handle_client_disconnect
disconnect-PortalInv env mac p v = ground (arith, w, fallback-PortalInv env r.fallback r.portal w)
  where
    r0 : Scan
    r0 = record { matched = false; active_session_count = 0; fallback = none; portal = p }

    r : Scan
    r = scan_from env mac max_clients 0 r0

    w : PortalInv r.portal
    w = scan_from-PortalInv env mac max_clients 0 r0 v

charged : Env → ℕ → Portal → Portal
charged env i p =
    let (s, q) = checkpoint_session_usage env false (session_at p i) p.quota in
    record (put_session i s p) { quota = q }

charged-PortalInv : (env : Env) (i : ℕ) (p : Portal) → PortalInv p → PortalInv (charged env i p)
unfolding charged
charged-PortalInv env i p v = record {
  slots = length-set p.sessions i _ ∙ v.slots;
  quota = checkpoint-QuotaInv env false (session_at p i) p.quota v.quota;
  acl = v.acl;
}

heartbeat_slot-PortalInv :
    (env : Env) (i : ℕ) (p : Portal) → PortalInv p → PortalInv (heartbeat_slot env i p)
unfolding heartbeat_slot charged
heartbeat_slot-PortalInv env i p v =
    let p1 = charged env i p in
    let v1 = charged-PortalInv env i p v in
    let s1 = (checkpoint_session_usage env false (session_at p i) p.quota).0 in
    ground (arith, v1, revoke-PortalInv env i (not s1.admitted) p1 v1)

heartbeat_from-PortalInv :
    (env : Env) (n i : ℕ) (p : Portal) → PortalInv p → PortalInv (heartbeat_from env n i p)
unfolding heartbeat_from
heartbeat_from-PortalInv env zero i p v = v
heartbeat_from-PortalInv env (suc n) i p v =
    heartbeat_from-PortalInv env n (i + 1) _ (heartbeat_slot-PortalInv env i p v)

pub heartbeat-PortalInv : (env : Env) (p : Portal) → PortalInv p → PortalInv (heartbeat_round env p)
unfolding heartbeat_round
heartbeat-PortalInv env p v = heartbeat_from-PortalInv env max_clients 0 p v
