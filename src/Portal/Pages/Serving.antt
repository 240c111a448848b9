-- ===== src/Portal/Pages/Serving.antt =====
-- What the pages of main/http_server.c promise: the tables stay well formed, and who is sent to the
-- portal.
use esp32_wifi_ap_cp.Base.{
  ℕ, ◌≡◌, ◌≢◌, ◌↔◌, ◌⊎◌, refl, Bool, true, false, Option, none, some, arith, exists_slot,
  Bool-cases, inl, inr,
}
use esp32_wifi_ap_cp.Portal.Quota.{Env}
use esp32_wifi_ap_cp.Portal.Quota.Remaining.{quota_remaining-QuotaInv}
use esp32_wifi_ap_cp.Portal.State.{Portal, ensure_napt_enabled}
use esp32_wifi_ap_cp.Portal.State.Refreshing.{PortalInv}
use esp32_wifi_ap_cp.Portal.Start.Granting.{start-PortalInv}
use esp32_wifi_ap_cp.Portal.Clients.{get_remaining_seconds, is_client_session_active}
use esp32_wifi_ap_cp.Portal.Clients.Gating.{authorises, is_active-PortalInv, active_needs_session}
use esp32_wifi_ap_cp.Portal.Events.Keeping.{napt-PortalInv}
use esp32_wifi_ap_cp.Portal.Pages.{
  Method, Uri, Visit, redirect_to_portal, mac_of_visit, granted_for, client_of, api_status_handler,
  portal_handler, send_probe_success, redirect_handler, catch_all_handler, confirm_session,
  confirm_handler, serve,
}

remaining-PortalInv :
    (env : Env) (ip : ℕ) (p : Portal) → PortalInv p → PortalInv (get_remaining_seconds env ip p).1
remaining-PortalInv env ip p v = unfold is_client_session_active in is_active-PortalInv env ip p v

pub granted-PortalInv :
    (env : Env) (mac : Option ℕ) (p : Portal) → PortalInv p → PortalInv (granted_for env mac p).1
unfolding granted_for
granted-PortalInv env none p v = v
granted-PortalInv env (some mac) p v = record {
  slots = v.slots;
  quota = quota_remaining-QuotaInv env mac p.quota v.quota;
  acl = v.acl;
}

confirm_session-PortalInv :
    (env : Env) (v : Visit) (mac : Option ℕ) (granted : ℕ) (p : Portal)
    → PortalInv p
    → PortalInv (confirm_session env v mac granted p).2
unfolding confirm_session
confirm_session-PortalInv env v mac granted p w =
    remaining-PortalInv env v.ip _ (start-PortalInv env (client_of env v mac granted) p w)

confirm-PortalInv :
    (env : Env) (v : Visit) (p : Portal) → PortalInv p → PortalInv (confirm_handler env v p).2
unfolding confirm_handler
confirm-PortalInv env v p w =
    let mac = mac_of_visit env v in
    let (granted, p1) = granted_for env mac p in
    let p2 = (ensure_napt_enabled env p1).1 in
    let w1 = granted-PortalInv env mac p w in
    let w2 = napt-PortalInv env p1 w1 in
    ground (arith, w1, w2, confirm_session-PortalInv env v mac granted p2 w2)

handlers-PortalInv :
    (env : Env) (v : Visit) (uri : Uri) (p : Portal)
    → PortalInv p
    → PortalInv (api_status_handler env v.ip p).1
      × PortalInv (portal_handler env v.room v.ip p).1
      × PortalInv (redirect_handler env v.has_query uri v.ip p).1
      × PortalInv (catch_all_handler env v.ip p).1
unfolding api_status_handler portal_handler redirect_handler catch_all_handler
handlers-PortalInv env v uri p w = (
  remaining-PortalInv env v.ip p w,
  remaining-PortalInv env v.ip p w,
  is_active-PortalInv env v.ip p w,
  is_active-PortalInv env v.ip p w,
)

-- Whatever is requested, by whichever client: the tables stay well formed.
pub serve-PortalInv :
    (env : Env) (v : Visit) (m : Method) (uri : Uri) (p : Portal)
    → PortalInv p
    → PortalInv (serve env v m uri p).1
unfolding serve
serve-PortalInv env v Method.get uri p w =
    ground (arith, w, handlers-PortalInv env v uri p w, confirm-PortalInv env v p w)
serve-PortalInv env v Method.head uri p w = ground (arith, handlers-PortalInv env v uri p w)
serve-PortalInv env v Method.post uri p w = ground (arith, w)
serve-PortalInv env v Method.other_method uri p w = w

-- The GET requests that are not for one of the portal's own pages, and all HEAD requests.
abbrev pub is_foreign : Method → Uri → Bool
is_foreign Method.get Uri.root = false
is_foreign Method.get Uri.confirm = false
is_foreign Method.get Uri.api_status = false
is_foreign Method.get Uri.config = false
is_foreign Method.get Uri.image = false
is_foreign Method.get Uri.ports = false
is_foreign Method.get uri = true
is_foreign Method.head uri = true
is_foreign Method.post uri = false
is_foreign Method.other_method uri = false

success_is_no_redirect : (q : Bool) (uri : Uri) → send_probe_success q uri ≢ redirect_to_portal
unfolding send_probe_success
success_is_no_redirect q uri h = ground arith

redirects :
    (env : Env) (q : Bool) (uri : Uri) (ip : ℕ) (p : Portal)
    → (((redirect_handler env q uri ip p).0 ≡ redirect_to_portal)
        ↔ ((is_client_session_active env ip p).0 ≡ false))
      × (((catch_all_handler env ip p).0 ≡ redirect_to_portal)
          ↔ ((is_client_session_active env ip p).0 ≡ false))
unfolding redirect_handler catch_all_handler
redirects env q uri ip p = elim (Bool-cases (is_client_session_active env ip p).0) [
  | inl e ↦ rw e ((λ h. absurd (success_is_no_redirect q uri h), λ h. cc), (λ h. cc, λ h. cc))
  | inr e ↦ rw e ((λ h. refl, λ h. refl), (λ h. refl, λ h. refl))
]

redirects_foreign :
    (env : Env) (v : Visit) (m : Method) (uri : Uri) (p : Portal)
    → is_foreign m uri ≡ true
    → ((serve env v m uri p).0 ≡ redirect_to_portal)
      ↔ ((is_client_session_active env v.ip p).0 ≡ false)
unfolding serve
redirects_foreign env v Method.get Uri.root p f = cc
redirects_foreign env v Method.get Uri.confirm p f = cc
redirects_foreign env v Method.get Uri.api_status p f = cc
redirects_foreign env v Method.get Uri.config p f = cc
redirects_foreign env v Method.get Uri.image p f = cc
redirects_foreign env v Method.get Uri.ports p f = cc
redirects_foreign env v Method.get Uri.other_uri p f = (redirects env v.has_query Uri.root v.ip p).1
redirects_foreign env v Method.get uri p f = (redirects env v.has_query uri v.ip p).0
redirects_foreign env v Method.head Uri.generate_204 p f =
    (redirects env v.has_query Uri.generate_204 v.ip p).0
redirects_foreign env v Method.head Uri.gen_204 p f =
    (redirects env v.has_query Uri.gen_204 v.ip p).0
redirects_foreign env v Method.head Uri.connectivity_check p f =
    (redirects env v.has_query Uri.connectivity_check v.ip p).0
redirects_foreign env v Method.head Uri.hotspot_detect p f =
    (redirects env v.has_query Uri.hotspot_detect v.ip p).0
redirects_foreign env v Method.head uri p f = (redirects env v.has_query Uri.root v.ip p).1
redirects_foreign env v Method.post uri p f = cc
redirects_foreign env v Method.other_method uri p f = cc

-- A GET request that is not for one of the portal's own pages, or any HEAD request, is answered with a
-- redirect to the portal exactly where its client is not authenticated; and it is, or else the client has
-- an address, and a session in use and admitted that carries its address or its MAC, with a second or
-- more left.
pub foreign_request_needs_session :
    (env : Env) (v : Visit) (m : Method) (uri : Uri) (p : Portal)
    → is_foreign m uri ≡ true
    → let page = (serve env v m uri p).0 in
      ((page ≡ redirect_to_portal) ↔ ((is_client_session_active env v.ip p).0 ≡ false))
      × ((page ≡ redirect_to_portal)
          ⊎ ((v.ip ≢ 0) × (exists_slot (authorises env v.ip) p.sessions ≡ true)))
foreign_request_needs_session env v m uri p f =
    let redirected = redirects_foreign env v m uri p f in
    (
      redirected,
      elim (Bool-cases (is_client_session_active env v.ip p).0) [
        | inl e ↦ inr (active_needs_session env v.ip p e)
        | inr e ↦ inl (redirected.1 e)
      ],
    )
