-- ===== src/Portal/Start/Granting.antt =====
-- What start_or_resume_session of main/http_server.c grants.
use esp32_wifi_ap_cp.Base.{
  ℕ, ◌<◌, ◌≡◌, refl, ◌∙◌, ap, inl, inr, true, false, ◌&&◌, Option, none, some, arith, if◌then◌else◌,
  ◌==◌, ltb, length, length-set, get_or-set_self, is_empty, Bool-cases, ltb→lt,
}
use esp32_wifi_ap_cp.Acl.Invariant.{client_acl_admit-AclInv}
use esp32_wifi_ap_cp.Portal.Quota.{Env, max_clients, get_current_day_id}
use esp32_wifi_ap_cp.Portal.Quota.Remaining.{day-QuotaInv}
use esp32_wifi_ap_cp.Portal.Sessions.{Session, no_session}
use esp32_wifi_ap_cp.Portal.State.{Portal, session_at, put_session}
use esp32_wifi_ap_cp.Portal.State.Refreshing.{PortalInv, refresh-PortalInv, refresh-kept}
use esp32_wifi_ap_cp.Portal.Start.Searching.{
  Within, ActiveAt, slot_to_start-lt, first_search-Within, first_search-ActiveAt,
}
use esp32_wifi_ap_cp.Portal.Start.{
  Client, new_session, start_in_slot, refresh_and_admit, reused_session, reuse_slot, slot_to_start,
  start_anew, resume_at, first_search, open_global, start_or_resume_session,
}

-- The session that a call returns: in use, admitted, at the client's address, with time left.
pub record IsGranted (env : Env) (c : Client) (p : Portal) (i : ℕ) : Type 0 where
  pub slot : i < max_clients
  pub active : (session_at p i).active ≡ true
  pub admitted : (session_at p i).admitted ≡ true
  pub address : (session_at p i).ip_addr ≡ c.ip
  pub running : env.now < (session_at p i).end_time

IsGranted-admit :
    (env : Env) (c : Client) (p : Portal) (i : ℕ)
    → i < max_clients
    → (session_at p i).active ≡ true
    → (session_at p i).admitted ≡ true
    → (session_at p i).ip_addr ≡ c.ip
    → env.now < (session_at p i).end_time
    → IsGranted env c (refresh_and_admit env c p) i
unfolding refresh_and_admit
IsGranted-admit env c p i l a b e r =
    let kept = refresh-kept env p i (ground arith) in
    record {
      slot = l;
      active = ap (λ (s : Session). s.active) kept ∙ a;
      admitted = ap (λ (s : Session). s.admitted) kept ∙ b;
      address = ap (λ (s : Session). s.ip_addr) kept ∙ e;
      running = rw kept r;
    }

refresh_and_admit-PortalInv :
    (env : Env) (c : Client) (p : Portal) → PortalInv p → PortalInv (refresh_and_admit env c p)
unfolding refresh_and_admit
refresh_and_admit-PortalInv env c p v =
    let w = refresh-PortalInv env p v in
    record { slots = w.slots; quota = w.quota; acl = client_acl_admit-AclInv c.ip c.mac _ w.acl }

start_in_slot-PortalInv :
    (env : Env) (c : Client) (i : ℕ) (p : Portal)
    → PortalInv p
    → PortalInv (start_in_slot env c i p)
unfolding start_in_slot
start_in_slot-PortalInv env c i p v = record {
  slots = length-set p.sessions i _ ∙ v.slots;
  quota = day-QuotaInv env p.quota v.quota;
  acl = v.acl;
}

start_anew-IsGranted :
    (env : Env) (c : Client) (stale : Option ℕ) (p : Portal)
    → PortalInv p
    → Within (length p.sessions) stale
    → let (i, p') = start_anew env c stale p in PortalInv p' × IsGranted env c p' i
unfolding start_anew
start_anew-IsGranted env c stale p v w = (
  refresh_and_admit-PortalInv env c _ (start_in_slot-PortalInv env c i p v),
  IsGranted-admit env c (start_in_slot env c i p) i (omega (arith, l, v.slots))
      (ap (λ (s : Session). s.active) at_i) (ap (λ (s : Session). s.admitted) at_i)
      (ap (λ (s : Session). s.ip_addr) at_i) (rw at_i (ground arith)),
)
  where
    i : ℕ
    i = slot_to_start stale c p

    l : i < length p.sessions
    l = slot_to_start-lt stale c p (omega (arith, v.slots)) w

    at_i :
        session_at (start_in_slot env c i p) i
        ≡ new_session env c (get_current_day_id env p.quota).0
    at_i = unfold start_in_slot in get_or-set_self p.sessions i _ no_session l

reuse-IsGranted :
    (env : Env) (c : Client) (i : ℕ) (p : Portal)
    → PortalInv p
    → i < length p.sessions
    → (session_at p i).active ≡ true
    → env.now < (session_at p i).end_time
    → PortalInv (reuse_slot env c i p) × IsGranted env c (reuse_slot env c i p) i
unfolding reuse_slot
reuse-IsGranted env c i p v l a r = (
  refresh_and_admit-PortalInv env c _
      (record { slots = length-set p.sessions i _ ∙ v.slots; quota = v.quota; acl = v.acl }),
  IsGranted-admit env c _ i (omega (arith, l, v.slots)) (ap (λ (s : Session). s.active) at_i ∙ a)
      (ap (λ (s : Session). s.admitted) at_i) (ap (λ (s : Session). s.ip_addr) at_i) (rw at_i r),
)
  where
    reused : Session
    reused = reused_session c (session_at p i)

    at_i : session_at (put_session i reused p) i ≡ reused
    at_i = get_or-set_self p.sessions i reused no_session l

resume-IsGranted :
    (env : Env) (c : Client) (found : Option ℕ) (p : Portal)
    → PortalInv p
    → Within (length p.sessions) found
    → ActiveAt p.sessions found
    → let (i, p') = resume_at env c found p in PortalInv p' × IsGranted env c p' i
unfolding resume_at
resume-IsGranted env c none p v w a = start_anew-IsGranted env c none p v w
resume-IsGranted env c (some i) p v w a =
    let p1 = put_session i (record (session_at p i) { active = false }) p in
    let same = length-set p.sessions i (record (session_at p i) { active = false }) in
    elim (Bool-cases (ltb env.now (session_at p i).end_time)) [
      | inl r ↦ rw r (reuse-IsGranted env c i p v w a (ltb→lt _ _ r))
      | inr r ↦ rw r (
          start_anew-IsGranted env c (some i) p1
            (record { slots = same ∙ v.slots; quota = v.quota; acl = v.acl }) (rw same w))
    ]

open_global-PortalInv :
    (env : Env) (c : Client) (p : Portal) → PortalInv p → PortalInv (open_global env c p)
unfolding open_global
open_global-PortalInv env c p v =
    refresh-PortalInv env _ (record { slots = v.slots; quota = v.quota; acl = v.acl })

entered : Env → Client → Portal → Portal
entered env c p = if c.ip == 0 then open_global env c p else p

entered-PortalInv :
    (env : Env) (c : Client) (p : Portal) → PortalInv p → PortalInv (entered env c p)
unfolding entered
entered-PortalInv env c p v = ground (arith, open_global-PortalInv env c p v)

-- On well-formed tables a client with an address or a token always gets a session: the slot
-- returned is in use, admitted, at the client's address and with time left, and the tables stay
-- well formed.
pub start_grants_session :
    (env : Env) (c : Client) (p : Portal)
    → PortalInv p
    → (c.ip == 0 && is_empty c.token) ≡ false
    → let (slot, p') = start_or_resume_session env c p in
      (i : ℕ) × (slot ≡ some i) × IsGranted env c p' i × PortalInv p'
unfolding start_or_resume_session
start_grants_session env c p v h =
    let p1 = entered env c p in
    let g =
      resume-IsGranted env c (first_search c p1) p1 (entered-PortalInv env c p v)
        (first_search-Within c p1) (first_search-ActiveAt c p1) in
    rw h (_, refl, unfold entered in g.1, unfold entered in g.0)

resume-PortalInv :
    (env : Env) (c : Client) (p : Portal)
    → PortalInv p
    → PortalInv (resume_at env c (first_search c p) p).1
resume-PortalInv env c p v =
    (resume-IsGranted env c (first_search c p) p v (first_search-Within c p)
      (first_search-ActiveAt c p)).0

-- A call keeps the tables well formed, whatever it is given.
pub start-PortalInv :
    (env : Env) (c : Client) (p : Portal)
    → PortalInv p
    → PortalInv (start_or_resume_session env c p).1
unfolding start_or_resume_session entered
start-PortalInv env c p v = ground (
  arith,
  entered-PortalInv env c p v,
  resume-PortalInv env c (entered env c p) (entered-PortalInv env c p v),
)
