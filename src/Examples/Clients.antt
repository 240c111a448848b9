-- ===== src/Examples/Clients.antt =====
-- The theorems on client_acl.c and on who gets through, on the example's clients.
use esp32_wifi_ap_cp.Base.{◌≡◌, refl, true, false, some, [], ◌∷◌, arith, exists_slot}
use esp32_wifi_ap_cp.Acl.{
  client_acl_init, client_acl_admit, client_acl_is_admitted, admits, revokes_ip, revokes_mac, run,
  is_free, admit_known, admit_ip,
}
use esp32_wifi_ap_cp.Acl.Invariant.{AclInv, run-AclInv}
use esp32_wifi_ap_cp.Portal.State.{refresh_portal_auth_state, revoke_session}
use esp32_wifi_ap_cp.Portal.Start.{start_or_resume_session}
use esp32_wifi_ap_cp.Hook.{solar_hook_ip4_input}
use esp32_wifi_ap_cp.Access.{revoked_client_blocked, ended_client_blocked, started_client_passes}
use esp32_wifi_ap_cp.Examples.{
  ap_ip, phone_ip, laptop_ip, phone_mac, laptop_mac, env_at, phone_acl, busy, busy-PortalInv,
  laptop, ap_netif, outbound,
}

revoked_client_blocked_example :
    (solar_hook_ip4_input ap_ip
      (revoke_session (env_at 200) 0 true busy).acl
      ap_netif
      (outbound phone_ip)).0
    ≡ true
revoked_client_blocked_example =
    revoked_client_blocked (env_at 200) 0 true busy ap_ip ap_netif (outbound phone_ip)
      busy-PortalInv (omega arith) refl
      (refl, (λ e. omega arith), omega arith, refl, (λ e. omega arith), refl, refl, refl)

ended_client_blocked_example :
    (solar_hook_ip4_input ap_ip
      (refresh_portal_auth_state (env_at 4000) busy).acl
      ap_netif
      (outbound phone_ip)).0
    ≡ true
ended_client_blocked_example =
    ended_client_blocked (env_at 4000) phone_ip busy ap_ip ap_netif (outbound phone_ip) refl
      (refl, (λ e. omega arith), omega arith, refl, (λ e. omega arith), refl, refl, refl)

pub phone_acl_free : exists_slot is_free phone_acl ≡ true
unfolding client_acl_admit admit_known admit_ip client_acl_init
phone_acl_free = refl

started_client_passes_example :
    solar_hook_ip4_input ap_ip
      (start_or_resume_session (env_at 200) laptop busy).1.acl
      ap_netif
      (outbound laptop_ip)
    ≡ (false, outbound laptop_ip)
started_client_passes_example =
    started_client_passes (env_at 200) laptop busy ap_ip ap_netif (outbound laptop_ip)
      (λ e. omega arith) phone_acl_free refl

run-AclInv_example : AclInv (
    run
      (admits phone_ip (some phone_mac)
        ∷ admits laptop_ip (some phone_mac)
        ∷ revokes_ip phone_ip
        ∷ revokes_mac (some laptop_mac)
        ∷ [])
      client_acl_init)
run-AclInv_example = run-AclInv (
    admits phone_ip (some phone_mac)
    ∷ admits laptop_ip (some phone_mac)
    ∷ revokes_ip phone_ip
    ∷ revokes_mac (some laptop_mac)
    ∷ [])

still_admitted :
    client_acl_is_admitted phone_ip (client_acl_admit laptop_ip (some laptop_mac) phone_acl) ≡ true
unfolding client_acl_admit admit_known admit_ip client_acl_init client_acl_is_admitted
still_admitted = refl
