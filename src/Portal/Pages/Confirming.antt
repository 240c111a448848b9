-- ===== src/Portal/Pages/Confirming.antt =====
-- What /confirm of main/http_server.c grants.
use esp32_wifi_ap_cp.Base.{ℕ, ◌-◌, ◌≤◌, ◌≡◌, ◌≢◌, none, some, arith}
use esp32_wifi_ap_cp.Portal.Quota.{
  Env, daily_quota_sec, get_current_day_id, get_quota_remaining_for_mac, get_seconds_until_next_day,
}
use esp32_wifi_ap_cp.Portal.Quota.Usage.{used_on}
use esp32_wifi_ap_cp.Portal.Quota.Remaining.{quota_remaining_refines}
use esp32_wifi_ap_cp.Portal.State.{Portal, ensure_napt_enabled}
use esp32_wifi_ap_cp.Portal.State.Refreshing.{PortalInv}
use esp32_wifi_ap_cp.Portal.Start.{Client}
use esp32_wifi_ap_cp.Portal.Pages.{
  Visit, Page, client_of, mac_of_visit, granted_for, confirm_handler,
}

-- On a well-formed table a client whose MAC is known, and has used up the daily quota today, is shown that,
-- and gets nothing: no session, no entry on the access list, no NAT, no message to the database, sent or queued.
pub used_up_grants_nothing :
    (env : Env) (v : Visit) (mac : ℕ) (p : Portal)
    → PortalInv p
    → mac_of_visit env v ≡ some mac
    → mac ≢ 0
    → daily_quota_sec ≤ used_on mac (get_current_day_id env p.quota).0 p.quota.records
    → let (page, sync, p') = confirm_handler env v p in
      (page ≡ Page.quota_used_up)
      × (sync ≡ none)
      × (p'.sessions ≡ p.sessions)
      × (p'.acl ≡ p.acl)
      × (p'.napt_enabled ≡ p.napt_enabled)
      × (p'.queue ≡ p.queue)
unfolding confirm_handler granted_for
used_up_grants_nothing env v mac p w m n u =
    let left : (get_quota_remaining_for_mac env mac p.quota).0 ≡ 0 =
      ground (arith, quota_remaining_refines env mac p.quota w.quota) in
    rw m (ground (arith, left))

-- To a client whose MAC is known no more is granted than its quota of today leaves, and no more than the
-- day lasts.
pub granted_within_quota :
    (env : Env) (mac : ℕ) (p : Portal)
    → PortalInv p
    → mac ≢ 0
    → let granted = (granted_for env (some mac) p).0 in
      (granted ≤ daily_quota_sec - used_on mac (get_current_day_id env p.quota).0 p.quota.records)
      × (granted ≤ get_seconds_until_next_day env)
unfolding granted_for
granted_within_quota env mac p w n = ground (arith, quota_remaining_refines env mac p.quota w.quota)

-- The portal and the client with which confirm_handler starts a session.
abbrev pub portal_to_start : Env → ℕ → Portal → Portal
portal_to_start env mac p = (ensure_napt_enabled env (granted_for env (some mac) p).1).1

abbrev pub client_to_start : Env → Visit → ℕ → Portal → Client
client_to_start env v mac p = client_of env v (some mac) (granted_for env (some mac) p).0
