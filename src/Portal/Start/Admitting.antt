-- ===== src/Portal/Start/Admitting.antt =====
-- start_or_resume_session of main/http_server.c puts its client on the access list.
use esp32_wifi_ap_cp.Base.{
  ℕ, ◌≡◌, ◌≢◌, inl, inr, true, false, Option, none, some, arith, ltb, exists_slot, Bool-cases,
}
use esp32_wifi_ap_cp.Acl.{is_free, client_acl_is_admitted}
use esp32_wifi_ap_cp.Acl.Admission.{is_admitted-admit}
use esp32_wifi_ap_cp.Portal.Quota.{Env}
use esp32_wifi_ap_cp.Portal.State.{Portal, session_at, put_session, refresh_portal_auth_state}
use esp32_wifi_ap_cp.Portal.State.Refreshing.{refresh-free}
use esp32_wifi_ap_cp.Portal.Start.{
  Client, reused_session, slot_to_start, start_in_slot, refresh_and_admit, reuse_slot, start_anew,
  resume_at, first_search, start_or_resume_session,
}

refresh_and_admit-admits :
    (env : Env) (c : Client) (p : Portal)
    → c.ip ≢ 0
    → exists_slot is_free p.acl ≡ true
    → client_acl_is_admitted c.ip (refresh_and_admit env c p).acl ≡ true
unfolding refresh_and_admit
refresh_and_admit-admits env c p n f = ground (
  arith,
  n,
  refresh-free env p f,
  is_admitted-admit c.ip c.mac (refresh_portal_auth_state env p).acl,
)

start_anew-admits :
    (env : Env) (c : Client) (stale : Option ℕ) (p : Portal)
    → c.ip ≢ 0
    → exists_slot is_free p.acl ≡ true
    → client_acl_is_admitted c.ip (start_anew env c stale p).1.acl ≡ true
unfolding start_anew start_in_slot
start_anew-admits env c stale p n f =
    refresh_and_admit-admits env c (start_in_slot env c (slot_to_start stale c p) p) n f

resume_at-admits :
    (env : Env) (c : Client) (found : Option ℕ) (p : Portal)
    → c.ip ≢ 0
    → exists_slot is_free p.acl ≡ true
    → client_acl_is_admitted c.ip (resume_at env c found p).1.acl ≡ true
unfolding resume_at reuse_slot
resume_at-admits env c none p n f = start_anew-admits env c none p n f
resume_at-admits env c (some i) p n f =
    let s = session_at p i in
    elim (Bool-cases (ltb env.now s.end_time)) [
      | inl r ↦ rw r (refresh_and_admit-admits env c (put_session i (reused_session c s) p) n f)
      | inr r ↦
          rw r
            (start_anew-admits env c (some i) (put_session i (record s { active = false }) p) n f)
    ]

-- A client with an address is admitted by the packet filter when its session has started, where the
-- access list has a free entry.
pub start_admits :
    (env : Env) (c : Client) (p : Portal)
    → c.ip ≢ 0
    → exists_slot is_free p.acl ≡ true
    → client_acl_is_admitted c.ip (start_or_resume_session env c p).1.acl ≡ true
unfolding start_or_resume_session
start_admits env c p n f = ground (arith, n, resume_at-admits env c (first_search c p) p n f)
