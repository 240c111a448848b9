-- ===== src/Portal/State/Sweeping.antt =====
-- The loop of refresh_portal_auth_state in main/http_server.c.
use esp32_wifi_ap_cp.Base.{
  ℕ, zero, suc, ◌≡◌, refl, ◌≢◌, ap, inl, inr, Bool, true, false, ◌&&◌, some, List, [], ◌∷◌, arith,
  ◌==◌, length, exists_slot, update_all, get_or, All, Bool-cases,
}
use esp32_wifi_ap_cp.Acl.{
  AclEntry, blank, used_with_mac, used_with_ip, is_free, client_acl_is_admitted,
  client_acl_revoke_by_ip, client_acl_revoke_by_mac,
}
use esp32_wifi_ap_cp.Acl.Admission.{
  is_admitted-revoke_by_ip, is_admitted-revoke_by_mac, revoke_mac-shrinks, is_admitted_zero,
  revoke_all-free,
}
use esp32_wifi_ap_cp.Acl.Invariant.{AclInv, revoke_by_ip-AclInv, revoke_by_mac-AclInv}
use esp32_wifi_ap_cp.Portal.Quota.{Env, Quota}
use esp32_wifi_ap_cp.Portal.Quota.Usage.{QuotaInv}
use esp32_wifi_ap_cp.Portal.Sessions.{Session, no_session, checkpoint_session_usage}
use esp32_wifi_ap_cp.Portal.Sessions.Charging.{checkpoint-QuotaInv}
use esp32_wifi_ap_cp.Portal.State.{sweep, has_ended, revoke_client}

-- What checkpoint_session_usage leaves of the session: all but its accounted seconds.
pub checkpoint-session :
    (env : Env) (force : Bool) (s : Session) (q : Quota)
    → let s' = (checkpoint_session_usage env force s q).0 in
      s' ≡ record s { accounted_seconds = s'.accounted_seconds }
unfolding checkpoint_session_usage
checkpoint-session env force s q = ground arith

abbrev pub is_admitted_session : Session → Bool
is_admitted_session s = s.active && s.admitted

abbrev pub NotEnded : ℕ → Session → Type 0
NotEnded now s = has_ended now s ≡ false

pub sweep-NotEnded :
    (env : Env) (ss : List Session) (q : Quota) (acl : List AclEntry)
    → All (NotEnded env.now) (sweep env ss q acl).sessions
unfolding sweep
sweep-NotEnded env [] q acl = tt
sweep-NotEnded env (s ∷ ss) q acl = elim (Bool-cases (has_ended env.now s)) [
  | inl e ↦ rw e (refl, sweep-NotEnded env ss _ _)
  | inr e ↦ rw e (e, sweep-NotEnded env ss _ _)
]

pub sweep-has_active_session :
    (env : Env) (ss : List Session) (q : Quota) (acl : List AclEntry)
    → let done = sweep env ss q acl in
      done.has_active_session ≡ exists_slot is_admitted_session done.sessions
unfolding sweep
sweep-has_active_session env [] q acl = refl
sweep-has_active_session env (s ∷ ss) q acl = elim (Bool-cases (has_ended env.now s)) [
  | inl e ↦ rw e (sweep-has_active_session env ss _ _)
  | inr e ↦ rw e (ground (arith, sweep-has_active_session env ss q acl))
]

pub sweep-length :
    (env : Env) (ss : List Session) (q : Quota) (acl : List AclEntry)
    → length (sweep env ss q acl).sessions ≡ length ss
unfolding sweep
sweep-length env [] q acl = refl
sweep-length env (s ∷ ss) q acl = ap suc (sweep-length env ss _ _)

pub sweep-QuotaInv :
    (env : Env) (ss : List Session) (q : Quota) (acl : List AclEntry)
    → QuotaInv q
    → QuotaInv (sweep env ss q acl).quota
unfolding sweep
sweep-QuotaInv env [] q acl v = v
sweep-QuotaInv env (s ∷ ss) q acl v = elim (Bool-cases (has_ended env.now s)) [
  | inl e ↦ rw e (sweep-QuotaInv env ss _ _ (checkpoint-QuotaInv env true s q v))
  | inr e ↦ rw e (sweep-QuotaInv env ss _ _ v)
]

pub revoke_client-AclInv :
    (s : Session) (acl : List AclEntry) → AclInv acl → AclInv (revoke_client s acl)
unfolding revoke_client
revoke_client-AclInv s acl v = ground (
  arith,
  revoke_by_ip-AclInv s.ip_addr acl v,
  revoke_by_mac-AclInv (some s.mac) acl v,
  revoke_by_mac-AclInv (some s.mac) (client_acl_revoke_by_ip s.ip_addr acl),
)

pub sweep-AclInv :
    (env : Env) (ss : List Session) (q : Quota) (acl : List AclEntry)
    → AclInv acl
    → AclInv (sweep env ss q acl).acl
unfolding sweep
sweep-AclInv env [] q acl v = v
sweep-AclInv env (s ∷ ss) q acl v = elim (Bool-cases (has_ended env.now s)) [
  | inl e ↦ rw e (sweep-AclInv env ss _ _ (revoke_client-AclInv s acl v))
  | inr e ↦ rw e (sweep-AclInv env ss _ _ v)
]

-- Nothing that is revoked admits anybody.
pub revoke_client-shrinks :
    (s : Session) (j : ℕ) (acl : List AclEntry)
    → client_acl_is_admitted j (revoke_client s acl) ≡ true
    → client_acl_is_admitted j acl ≡ true
unfolding revoke_client
revoke_client-shrinks s j acl h = ground (
  arith,
  is_admitted-revoke_by_ip s.ip_addr j acl,
  revoke_mac-shrinks s.mac j acl,
  revoke_mac-shrinks s.mac j (client_acl_revoke_by_ip s.ip_addr acl),
)

-- A client revoked is not admitted, by its address or its MAC.
pub revoke_client-revokes :
    (s : Session) (acl : List AclEntry)
    → client_acl_is_admitted s.ip_addr (revoke_client s acl) ≡ false
unfolding revoke_client
revoke_client-revokes s acl = ground (
  arith,
  is_admitted_zero acl,
  is_admitted_zero (client_acl_revoke_by_mac (some s.mac) acl),
  is_admitted-revoke_by_ip s.ip_addr s.ip_addr acl,
  revoke_mac-shrinks s.mac s.ip_addr (client_acl_revoke_by_ip s.ip_addr acl),
)

pub revoke_client-forgets_mac :
    (s : Session) (acl : List AclEntry)
    → s.mac ≢ 0
    → exists_slot (used_with_mac s.mac) (revoke_client s acl) ≡ false
unfolding revoke_client
revoke_client-forgets_mac s acl n = ground (
  arith,
  is_admitted-revoke_by_mac s.mac 0 acl,
  is_admitted-revoke_by_mac s.mac 0 (client_acl_revoke_by_ip s.ip_addr acl),
)

pub sweep-shrinks :
    (env : Env) (ss : List Session) (q : Quota) (acl : List AclEntry) (j : ℕ)
    → client_acl_is_admitted j (sweep env ss q acl).acl ≡ true
    → client_acl_is_admitted j acl ≡ true
unfolding sweep
sweep-shrinks env [] q acl j h = h
sweep-shrinks env (s ∷ ss) q acl j h = ground (
  arith,
  revoke_client-shrinks s j acl,
  sweep-shrinks env ss q acl j,
  sweep-shrinks env ss (checkpoint_session_usage env true s q).1 (revoke_client s acl) j,
)

abbrev pub ended_with_ip : ℕ → ℕ → Session → Bool
ended_with_ip now ip s = has_ended now s && (s.ip_addr == ip)

pub sweep-revokes :
    (env : Env) (ss : List Session) (q : Quota) (acl : List AclEntry) (ip : ℕ)
    → exists_slot (ended_with_ip env.now ip) ss ≡ true
    → client_acl_is_admitted ip (sweep env ss q acl).acl ≡ false
unfolding sweep
sweep-revokes env [] q acl ip h = ground arith
sweep-revokes env (s ∷ ss) q acl ip h = elim (Bool-cases (has_ended env.now s)) [
  | inl e ↦
      let charged = checkpoint_session_usage env true s q in
      rw e (
        ground (
          arith,
          revoke_client-revokes s acl,
          sweep-shrinks env ss charged.1 (revoke_client s acl) ip,
          sweep-revokes env ss charged.1 (revoke_client s acl) ip,
        ))
  | inr e ↦ rw e (sweep-revokes env ss q acl ip (ground arith))
]

-- A sweep that finds no session ended changes nothing.
pub sweep_idle :
    (env : Env) (ss : List Session) (q : Quota) (acl : List AclEntry)
    → All (NotEnded env.now) ss
    → sweep env ss q acl ≡ record {
      sessions = ss;
      quota = q;
      acl = acl;
      has_active_session = exists_slot is_admitted_session ss;
    }
unfolding sweep
sweep_idle env [] q acl h = refl
sweep_idle env (s ∷ ss) q acl h = rw h.0 (ground (arith, sweep_idle env ss q acl h.1))

revoke_client-free :
    (s : Session) (acl : List AclEntry)
    → exists_slot is_free acl ≡ true
    → exists_slot is_free (revoke_client s acl) ≡ true
unfolding revoke_client client_acl_revoke_by_ip client_acl_revoke_by_mac
revoke_client-free s acl h = ground (
  arith,
  revoke_all-free (used_with_ip s.ip_addr) acl,
  revoke_all-free (used_with_mac s.mac) acl,
  revoke_all-free (used_with_mac s.mac) (update_all (used_with_ip s.ip_addr) (λ _. blank) acl),
)

pub sweep-free :
    (env : Env) (ss : List Session) (q : Quota) (acl : List AclEntry)
    → exists_slot is_free acl ≡ true
    → exists_slot is_free (sweep env ss q acl).acl ≡ true
unfolding sweep
sweep-free env [] q acl h = h
sweep-free env (s ∷ ss) q acl h = elim (Bool-cases (has_ended env.now s)) [
  | inl e ↦ rw e (sweep-free env ss _ _ (revoke_client-free s acl h))
  | inr e ↦ rw e (sweep-free env ss _ _ h)
]

-- A session that has not ended is left as it is.
pub sweep-kept :
    (env : Env) (ss : List Session) (q : Quota) (acl : List AclEntry) (i : ℕ)
    → has_ended env.now (get_or ss i no_session) ≡ false
    → get_or (sweep env ss q acl).sessions i no_session ≡ get_or ss i no_session
unfolding sweep
sweep-kept env [] q acl i h = refl
sweep-kept env (s ∷ ss) q acl zero h = ground arith
sweep-kept env (s ∷ ss) q acl (suc i) h = sweep-kept env ss _ _ i h
