-- ===== src/Portal/Clients/Keeping.antt =====
-- get_remaining_seconds of main/http_server.c ends no session that still runs.
use esp32_wifi_ap_cp.Base.{
  ℕ, zero, suc, ◌-◌, ◌/◌, ◌<◌, ◌≡◌, ◌≢◌, ◌∙◌, refl, ap, Bool, true, false, Option, none, some, List,
  [], ◌∷◌, arith, leb, get_or, set, get_or-set_ne, find_slot,
}
use esp32_wifi_ap_cp.Portal.Quota.{Env, second_us}
use esp32_wifi_ap_cp.Portal.Sessions.{
  Session, no_session, session_token_len, device_hash_len, strlcpy, find_session_index_by_mac,
}
use esp32_wifi_ap_cp.Portal.State.{
  Portal, session_at, mode_of_revoke, close_session, revoke_session,
}
use esp32_wifi_ap_cp.Portal.State.Refreshing.{refresh-kept}
use esp32_wifi_ap_cp.Portal.State.Revoking.{close_lem, closed, queue_lem}
use esp32_wifi_ap_cp.Portal.Clients.{
  get_client_mac_for_ip, admitted_with_ip, remaining_by_ip, bind_ip, remaining_at_mac,
  remaining_by_mac, remaining_found, get_remaining_seconds,
}

-- A slot is in use as before, until the same end.
abbrev pub SameEnd : Session → Session → Type 0
SameEnd s s' = (s'.active ≡ s.active) × (s'.end_time ≡ s.end_time)

close_keeps :
    (env : Env) (i j : ℕ) (p : Portal)
    → env.now < (session_at p i).end_time
    → j ≢ i
    → session_at (close_session env j p) i ≡ session_at p i
unfolding closed
close_keeps env i j p l n =
    let other = get_or-set_ne p.sessions j i _ no_session n in
    rw (close_lem env j p)
      (refresh-kept env (closed env j p) i (rw other (ground (arith, l))) ∙ other)

revoke_keeps :
    (env : Env) (i j : ℕ) (b : Bool) (p : Portal)
    → env.now < (session_at p i).end_time
    → j ≢ i
    → session_at (revoke_session env j b p) i ≡ session_at p i
unfolding revoke_session
revoke_keeps env i j b p l n = ground (
  arith,
  close_keeps env i j p l n,
  queue_lem env (strlcpy session_token_len (session_at p j).token)
      (strlcpy device_hash_len (session_at p j).device_hash)
      (((session_at p j).end_time - env.now) / second_us) (mode_of_revoke b)
      (close_session env j p),
)

expired_is_other :
    (env : Env) (i j : ℕ) (p : Portal)
    → env.now < (session_at p i).end_time
    → leb (session_at p j).end_time env.now ≡ true
    → j ≢ i
expired_is_other env i j p l h e =
    let same = ap (λ k. (session_at p k).end_time) e in ground (arith, l, h, same)

revoke_expired-SameEnd :
    (env : Env) (i j : ℕ) (p : Portal)
    → env.now < (session_at p i).end_time
    → leb (session_at p j).end_time env.now ≡ true
    → SameEnd (session_at p i) (session_at (revoke_session env j false p) i)
revoke_expired-SameEnd env i j p l h =
    rw (revoke_keeps env i j false p l (expired_is_other env i j p l h)) (refl, refl)

bound-SameEnd :
    (ss : List Session) (i j ip : ℕ)
    → SameEnd
        (get_or ss i no_session)
        (get_or (set ss j (record (get_or ss j no_session) { ip_addr = ip })) i no_session)
bound-SameEnd [] i j ip = (refl, refl)
bound-SameEnd (s ∷ ss) zero zero ip = (refl, refl)
bound-SameEnd (s ∷ ss) (suc i) zero ip = (refl, refl)
bound-SameEnd (s ∷ ss) zero (suc j) ip = (refl, refl)
bound-SameEnd (s ∷ ss) (suc i) (suc j) ip = bound-SameEnd ss i j ip

bind_ip-SameEnd :
    (ip mac i j : ℕ) (p : Portal) → SameEnd (session_at p i) (session_at (bind_ip ip mac j p) i)
unfolding bind_ip
bind_ip-SameEnd ip mac i j p = bound-SameEnd p.sessions i j ip

found-SameEnd :
    (env : Env) (ip i : ℕ) (p : Portal) (slot mac found : Option ℕ)
    → get_client_mac_for_ip env ip ≡ mac
    → find_session_index_by_mac mac p.sessions ≡ found
    → env.now < (session_at p i).end_time
    → SameEnd (session_at p i) (session_at (remaining_found env ip slot p).1 i)
unfolding remaining_found remaining_by_ip remaining_by_mac remaining_at_mac
found-SameEnd env ip i p (some j) mac found m e l =
    ground (arith, revoke_expired-SameEnd env i j p l)
found-SameEnd env ip i p none none found m e l = rw m (refl, refl)
found-SameEnd env ip i p none (some mac) none m e l = rw (m, e) (refl, refl)
found-SameEnd env ip i p none (some mac) (some j) m e l =
    rw (m, e) (ground (arith, revoke_expired-SameEnd env i j p l, bind_ip-SameEnd ip mac i j p))

-- A query of the time left ends no session that still runs, and moves no end of one.
pub remaining-SameEnd :
    (env : Env) (ip i : ℕ) (p : Portal)
    → env.now < (session_at p i).end_time
    → SameEnd (session_at p i) (session_at (get_remaining_seconds env ip p).1 i)
unfolding get_remaining_seconds
remaining-SameEnd env ip i p l =
    ground
      (arith, found-SameEnd env ip i p (find_slot (admitted_with_ip ip) p.sessions) _ _ refl refl l)
