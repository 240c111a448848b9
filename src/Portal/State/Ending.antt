-- ===== src/Portal/State/Ending.antt =====
-- No session comes back to life through revoke_session of main/http_server.c.
use esp32_wifi_ap_cp.Base.{
  ℕ, zero, suc, ◌-◌, ◌/◌, ◌≡◌, refl, Bool, false, List, [], ◌∷◌, arith, get_or, set,
}
use esp32_wifi_ap_cp.Acl.{AclEntry}
use esp32_wifi_ap_cp.Portal.Quota.{Env, Quota, second_us}
use esp32_wifi_ap_cp.Portal.Sessions.{
  Session, no_session, session_token_len, device_hash_len, strlcpy, active_with_mac,
}
use esp32_wifi_ap_cp.Portal.State.{
  Portal, session_at, sweep, mode_of_revoke, close_session, revoke_session,
}
use esp32_wifi_ap_cp.Portal.State.Refreshing.{refresh_lem}
use esp32_wifi_ap_cp.Portal.State.Revoking.{close_lem, closed, queue_lem}

abbrev pub live_at : ℕ → Portal → ℕ → Bool
live_at mac p j = active_with_mac mac (session_at p j)

sweep-live :
    (env : Env) (ss : List Session) (q : Quota) (acl : List AclEntry) (mac j : ℕ)
    → active_with_mac mac (get_or ss j no_session) ≡ false
    → active_with_mac mac (get_or (sweep env ss q acl).sessions j no_session) ≡ false
unfolding sweep
sweep-live env [] q acl mac j h = h
sweep-live env (s ∷ ss) q acl mac zero h = ground arith
sweep-live env (s ∷ ss) q acl mac (suc j) h = sweep-live env ss _ _ mac j h

set-live :
    (ss : List Session) (i j mac : ℕ) (s : Session)
    → s.active ≡ false
    → active_with_mac mac (get_or ss j no_session) ≡ false
    → active_with_mac mac (get_or (set ss i s) j no_session) ≡ false
set-live [] i j mac s a h = h
set-live (t ∷ ss) zero zero mac s a h = ground arith
set-live (t ∷ ss) zero (suc j) mac s a h = h
set-live (t ∷ ss) (suc i) zero mac s a h = h
set-live (t ∷ ss) (suc i) (suc j) mac s a h = set-live ss i j mac s a h

close-live :
    (env : Env) (i mac j : ℕ) (p : Portal)
    → live_at mac p j ≡ false
    → live_at mac (close_session env i p) j ≡ false
unfolding closed
close-live env i mac j p h =
    rw (close_lem env i p, refresh_lem env (closed env i p))
      (sweep-live env _ _ _ mac j (set-live p.sessions i j mac _ refl h))

-- A revoke brings no session of any client back.
pub revoke-live :
    (env : Env) (i mac j : ℕ) (b : Bool) (p : Portal)
    → live_at mac p j ≡ false
    → live_at mac (revoke_session env i b p) j ≡ false
unfolding revoke_session
revoke-live env i mac j b p h = ground (
  arith,
  close-live env i mac j p h,
  queue_lem env (strlcpy session_token_len (session_at p i).token)
      (strlcpy device_hash_len (session_at p i).device_hash)
      (((session_at p i).end_time - env.now) / second_us) (mode_of_revoke b)
      (close_session env i p),
)
