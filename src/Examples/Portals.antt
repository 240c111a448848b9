-- ===== src/Examples/Portals.antt =====
-- The theorems on http_server.c, on the example's portal.
use esp32_wifi_ap_cp.Base.{
  ℕ, ◌+◌, ◌-◌, ◌*◌, ◌≡◌, refl, min, false, some, arith, if◌then◌else◌, ◌==◌,
}
use esp32_wifi_ap_cp.Portal.Quota.{daily_quota_sec, get_current_day_id, get_quota_remaining_for_mac}
use esp32_wifi_ap_cp.Portal.Quota.Usage.{used_on}
use esp32_wifi_ap_cp.Portal.Quota.Remaining.{quota_remaining_refines}
use esp32_wifi_ap_cp.Portal.Sessions.{elapsed_of, session_day, checkpoint_session_usage}
use esp32_wifi_ap_cp.Portal.Sessions.Charging.{checkpoint_charges}
use esp32_wifi_ap_cp.Portal.Sessions.Midnight.{charging_forgets_other_day}
use esp32_wifi_ap_cp.Portal.State.Refreshing.{PortalInv}
use esp32_wifi_ap_cp.Portal.Start.{start_or_resume_session}
use esp32_wifi_ap_cp.Portal.Start.Granting.{IsGranted, start_grants_session}
use esp32_wifi_ap_cp.Examples.{
  phone_mac, env_at, phone_session, empty_quota, empty_quota-QuotaInv, busy, busy-PortalInv, laptop,
}

start_grants_session_example :
    let (slot, p') = start_or_resume_session (env_at 200) laptop busy in
    (i : ℕ) × (slot ≡ some i) × IsGranted (env_at 200) laptop p' i × PortalInv p'
start_grants_session_example = start_grants_session (env_at 200) laptop busy busy-PortalInv refl

checkpoint_charges_example :
    used_on phone_mac
      (session_day (env_at 200) phone_session empty_quota).0
      (checkpoint_session_usage (env_at 200) false phone_session empty_quota).1.records
    ≡ min daily_quota_sec (
        used_on phone_mac (session_day (env_at 200) phone_session empty_quota).0 empty_quota.records
        + (elapsed_of phone_session (200 * 1_000_000) - 100))
checkpoint_charges_example =
    checkpoint_charges (env_at 200) false phone_session empty_quota empty_quota-QuotaInv
      (omega arith) refl

charging_forgets_other_day_example :
    used_on phone_mac 20255
      (checkpoint_session_usage (env_at 200) false phone_session empty_quota).1.records
    ≡ 0
charging_forgets_other_day_example =
    charging_forgets_other_day (env_at 200) false phone_session empty_quota 20255
      empty_quota-QuotaInv refl (λ e. omega arith) (λ e. omega arith)

quota_remaining_refines_example :
    (get_quota_remaining_for_mac (env_at 200) phone_mac empty_quota).0 ≡ (
      if phone_mac == 0
      then daily_quota_sec
      else daily_quota_sec
        - used_on phone_mac (get_current_day_id (env_at 200) empty_quota).0 empty_quota.records)
quota_remaining_refines_example =
    quota_remaining_refines (env_at 200) phone_mac empty_quota empty_quota-QuotaInv
