-- ===== src/Examples/Pages.antt =====
-- The theorems on the pages of http_server.c, on the example's portal.
use esp32_wifi_ap_cp.Base.{
  ℕ, ◌≤◌, ◌≡◌, ◌≢◌, ◌↔◌, ◌⊎◌, refl, true, false, none, some, [], ◌∷◌, arith, exists_slot, replicate,
  All-replicate,
}
use esp32_wifi_ap_cp.Portal.Quota.{QuotaRecord, no_record, daily_quota_sec, get_current_day_id}
use esp32_wifi_ap_cp.Portal.Quota.Usage.{used_on, IsRecord, no_record-IsRecord}
use esp32_wifi_ap_cp.Portal.State.{Portal}
use esp32_wifi_ap_cp.Portal.State.Refreshing.{PortalInv}
use esp32_wifi_ap_cp.Portal.Clients.{is_client_session_active, get_client_mac_for_ip}
use esp32_wifi_ap_cp.Portal.Clients.Gating.{authorises}
use esp32_wifi_ap_cp.Portal.Pages.{
  Method, Uri, Page, Visit, mac_of_visit, confirm_handler, serve, start_webserver,
}
use esp32_wifi_ap_cp.Portal.Pages.Serving.{foreign_request_needs_session}
use esp32_wifi_ap_cp.Portal.Pages.Confirming.{used_up_grants_nothing}
use esp32_wifi_ap_cp.Portal.Pages.Reachable.{
  start, step, heartbeat, requested, handle_event, boot-PortalInv,
}
use esp32_wifi_ap_cp.Examples.{
  phone_ip, laptop_ip, phone_mac, laptop_mac, env_at, busy, empty_quota, phone_acl-AclInv,
}

abbrev visit_of : ℕ → Visit
visit_of ip = record {
  ip = ip;
  has_query = false;
  cached_mac = none;
  hash_from_ip = λ a. 105 ∷ [];
  room = true;
}

foreign_request_needs_session_example :
    let page = (serve (env_at 200) (visit_of laptop_ip) Method.get Uri.generate_204 busy).0 in
    ((page ≡ Page.redirect_to_portal)
      ↔ ((is_client_session_active (env_at 200) laptop_ip busy).0 ≡ false))
    × ((page ≡ Page.redirect_to_portal)
        ⊎ ((laptop_ip ≢ 0)
            × (exists_slot (authorises (env_at 200) laptop_ip) busy.sessions ≡ true)))
foreign_request_needs_session_example =
    foreign_request_needs_session (env_at 200) (visit_of laptop_ip) Method.get Uri.generate_204 busy
      refl

-- The phone has used the day up.
abbrev used_up : QuotaRecord
used_up = record { mac = phone_mac; day_id = 20254; used_seconds = daily_quota_sec; valid = true }

abbrev tired : Portal
tired = record busy { quota = record empty_quota { records = used_up ∷ replicate 19 no_record } }

tired-PortalInv : PortalInv tired
tired-PortalInv = record {
  slots = refl;
  quota = record {
    size = refl;
    each =
        ((omega arith, λ h e. omega arith), All-replicate IsRecord 19 no_record no_record-IsRecord);
  };
  acl = phone_acl-AclInv;
}

phone_mac_is_known : mac_of_visit (env_at 200) (visit_of phone_ip) ≡ some phone_mac
unfolding mac_of_visit get_client_mac_for_ip
phone_mac_is_known = refl

phone_is_used_up :
    daily_quota_sec
    ≤ used_on phone_mac (get_current_day_id (env_at 200) tired.quota).0 tired.quota.records
unfolding used_on get_current_day_id
phone_is_used_up = omega arith

used_up_grants_nothing_example :
    let (page, sync, p') = confirm_handler (env_at 200) (visit_of phone_ip) tired in
    (page ≡ Page.quota_used_up)
    × (sync ≡ none)
    × (p'.sessions ≡ tired.sessions)
    × (p'.acl ≡ tired.acl)
    × (p'.napt_enabled ≡ tired.napt_enabled)
    × (p'.queue ≡ tired.queue)
used_up_grants_nothing_example =
    used_up_grants_nothing (env_at 200) (visit_of phone_ip) phone_mac tired tired-PortalInv
      phone_mac_is_known (λ e. omega arith) phone_is_used_up

-- A laptop whose MAC is known from when it joined.
abbrev laptop_visit : Visit
laptop_visit = record (visit_of laptop_ip) { cached_mac = some laptop_mac }

-- After start_webserver a laptop confirms, and the heartbeat comes.
abbrev later : Portal
later = handle_event (env_at 300) heartbeat (
    handle_event (env_at 200) (requested laptop_visit Method.get Uri.confirm)
      (start_webserver (env_at 0) busy))

boot-PortalInv_example : PortalInv later
boot-PortalInv_example = boot-PortalInv (env_at 0) busy later (
    step (env_at 300) heartbeat
      (step (env_at 200) (requested laptop_visit Method.get Uri.confirm) start))
