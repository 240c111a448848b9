-- ===== src/Portal/Start/Ending.antt =====
-- When a session ends that start_or_resume_session of main/http_server.c starts anew.
use esp32_wifi_ap_cp.Base.{
  ℕ, ◌<◌, ◌≡◌, ◌≢◌, refl, ◌∙◌, ap, inl, inr, Option, none, some, arith, ◌==◌, length,
  get_or-set_self, Bool-cases,
}
use esp32_wifi_ap_cp.Portal.Quota.{Env, get_current_day_id}
use esp32_wifi_ap_cp.Portal.Sessions.{Session, no_session}
use esp32_wifi_ap_cp.Portal.State.{session_at, Portal}
use esp32_wifi_ap_cp.Portal.State.Refreshing.{PortalInv, refresh-kept}
use esp32_wifi_ap_cp.Portal.Start.Searching.{slot_to_start-lt}
use esp32_wifi_ap_cp.Portal.Start.{
  Client, end_of, new_session, start_in_slot, refresh_and_admit, slot_to_start, start_anew,
  resume_at, first_search, start_or_resume_session,
}

anew_ends :
    (env : Env) (c : Client) (p : Portal)
    → PortalInv p
    → let (i, p') = start_anew env c none p in (session_at p' i).end_time ≡ end_of env c
unfolding start_anew refresh_and_admit
anew_ends env c p v = ap (λ (s : Session). s.end_time) kept ∙ ap (λ (s : Session). s.end_time) at_i
  where
    i : ℕ
    i = slot_to_start none c p

    l : i < length p.sessions
    l = slot_to_start-lt none c p (omega (arith, v.slots)) tt

    at_i :
        session_at (start_in_slot env c i p) i
        ≡ new_session env c (get_current_day_id env p.quota).0
    at_i = unfold start_in_slot in get_or-set_self p.sessions i _ no_session l

    kept :
        session_at (refresh_and_admit env c (start_in_slot env c i p)) i
        ≡ session_at (start_in_slot env c i p) i
    kept = refresh-kept env (start_in_slot env c i p) i (rw at_i (ground arith))

with_address :
    (env : Env) (c : Client) (p : Portal)
    → c.ip ≢ 0
    → let found = resume_at env c (first_search c p) p in
      start_or_resume_session env c p ≡ (some found.0, found.1)
unfolding start_or_resume_session
with_address env c p n = elim (Bool-cases (c.ip == 0)) [
  | inl z ↦ absurd (n (ground (arith, z)))
  | inr z ↦ rw z refl
]

searched_none :
    (env : Env) (c : Client) (p : Portal) (found : Option ℕ)
    → found ≡ none
    → resume_at env c found p ≡ start_anew env c none p
unfolding resume_at
searched_none env c p found f = rw f refl

-- On well-formed tables a client with an address, for which no search finds a session, gets one that
-- ends once the seconds granted have run, counted from now.
pub fresh_session_ends :
    (env : Env) (c : Client) (p : Portal)
    → PortalInv p
    → c.ip ≢ 0
    → first_search c p ≡ none
    → let (slot, p') = start_or_resume_session env c p in
      (i : ℕ) × (slot ≡ some i) × ((session_at p' i).end_time ≡ end_of env c)
fresh_session_ends env c p v n f =
    let same = searched_none env c p (first_search c p) f in
    let whole : start_or_resume_session env c p
        ≡ (some (start_anew env c none p).0, (start_anew env c none p).1) =
      with_address env c p n ∙ ap (λ (r : ℕ × Portal). (some r.0, r.1)) same in
    rw whole (_, refl, anew_ends env c p v)
