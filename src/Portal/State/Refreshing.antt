-- ===== src/Portal/State/Refreshing.antt =====
-- What refresh_portal_auth_state and revoke_session of main/http_server.c promise.
use esp32_wifi_ap_cp.Base.{
  All-replicate, refl, ℕ, ◌≡◌, ◌∙◌, ap, true, false, not, ◌&&◌, ◌||◌, List, [], ◌∷◌, arith, ltb,
  length, exists_slot, All,
}
use esp32_wifi_ap_cp.Acl.{is_free, client_acl_is_admitted}
use esp32_wifi_ap_cp.Acl.Invariant.{AclInv, client_acl_init-AclInv}
use esp32_wifi_ap_cp.Portal.Quota.{load_quota_state, no_record, Env, max_clients}
use esp32_wifi_ap_cp.Portal.Quota.Usage.{QuotaInv, IsRecord, no_record-IsRecord}
use esp32_wifi_ap_cp.Portal.Sessions.{Session}
use esp32_wifi_ap_cp.Portal.State.{
  Portal, init_sessions, session_at, has_ended, sweep, global_left, after_sweep, grants_access,
  has_active_access, maybe_disable_napt_if_idle, refresh_portal_auth_state,
}
use esp32_wifi_ap_cp.Portal.State.Sweeping.{
  NotEnded, is_admitted_session, ended_with_ip, sweep-NotEnded, sweep-has_active_session,
  sweep-length, sweep-QuotaInv, sweep-AclInv, sweep-revokes, sweep-shrinks, sweep_idle, sweep-kept,
  sweep-free,
}

pub record PortalInv (p : Portal) : Type 0 where
  pub slots : length p.sessions ≡ max_clients
  pub quota : QuotaInv p.quota
  pub acl : AclInv p.acl

-- All but NAT is as the sweep leaves it.
pub refresh_lem :
    (env : Env) (p : Portal)
    → let swept = after_sweep env (sweep env p.sessions p.quota p.acl) p in
      refresh_portal_auth_state env p
      ≡ record swept { napt_enabled = (refresh_portal_auth_state env p).napt_enabled }
unfolding refresh_portal_auth_state maybe_disable_napt_if_idle
refresh_lem env p = ground arith

grants-access_none :
    (now : ℕ) (ss : List Session)
    → exists_slot is_admitted_session ss ≡ false
    → exists_slot (grants_access now) ss ≡ false
grants-access_none now [] h = h
grants-access_none now (s ∷ ss) h = ground (arith, grants-access_none now ss)

-- After a refresh no active session has reached its end, and the portal counts as authenticated
-- exactly when some active session is admitted or the global session runs on.
pub refresh_ends_sessions :
    (env : Env) (p : Portal)
    → let p' = refresh_portal_auth_state env p in
      All (NotEnded env.now) p'.sessions
      × (p'.portal_authenticated
          ≡ (exists_slot is_admitted_session p'.sessions || ltb env.now p'.global_end_time))
refresh_ends_sessions env p = rw (refresh_lem env p) (
  sweep-NotEnded env p.sessions p.quota p.acl,
  ap (λ b. b || ltb env.now (global_left env p))
      (sweep-has_active_session env p.sessions p.quota p.acl),
)

-- A refresh takes the address of every session that has ended off the access list, and puts no
-- address on it.
pub refresh_revokes :
    (env : Env) (p : Portal) (ip : ℕ)
    → let after = client_acl_is_admitted ip (refresh_portal_auth_state env p).acl in
      (exists_slot (ended_with_ip env.now ip) p.sessions ≡ true → after ≡ false)
      × (after ≡ true → client_acl_is_admitted ip p.acl ≡ true)
refresh_revokes env p ip =
    rw (refresh_lem env p)
      (sweep-revokes env p.sessions p.quota p.acl ip, sweep-shrinks env p.sessions p.quota p.acl ip)

-- If nobody has access after a refresh, NAT is off, unless it was on and could not be disabled.
pub refresh_disables_napt :
    (env : Env) (p : Portal)
    → let p' = refresh_portal_auth_state env p in
      p'.portal_authenticated ≡ false
      → p'.napt_enabled ≡ (p.napt_enabled && not env.napt_disable_ok)
unfolding refresh_portal_auth_state maybe_disable_napt_if_idle has_active_access
refresh_disables_napt env p h =
    let done = sweep env p.sessions p.quota p.acl in
    ground (
      arith,
      sweep-has_active_session env p.sessions p.quota p.acl,
      grants-access_none env.now done.sessions,
    )

-- A refresh keeps the tables well formed.
pub refresh-PortalInv :
    (env : Env) (p : Portal) → PortalInv p → PortalInv (refresh_portal_auth_state env p)
refresh-PortalInv env p v = rw (refresh_lem env p) (record {
  slots = sweep-length env p.sessions p.quota p.acl ∙ v.slots;
  quota = sweep-QuotaInv env p.sessions p.quota p.acl v.quota;
  acl = sweep-AclInv env p.sessions p.quota p.acl v.acl;
})

-- A portal that a refresh has nothing to do for.
record Settled (env : Env) (p : Portal) : Type 0 where
  running : All (NotEnded env.now) p.sessions
  status :
      p.portal_authenticated
      ≡ (exists_slot is_admitted_session p.sessions || ltb env.now p.global_end_time)
  global : global_left env p ≡ p.global_end_time
  napt : p.portal_authenticated ≡ false → p.napt_enabled ≡ true → env.napt_disable_ok ≡ false

Settled-refresh : (env : Env) (p : Portal) → Settled env p → refresh_portal_auth_state env p ≡ p
unfolding refresh_portal_auth_state maybe_disable_napt_if_idle has_active_access
Settled-refresh env p s =
    rw (sweep_idle env p.sessions p.quota p.acl s.running)
      (ground (arith, s.status, s.global, s.napt, grants-access_none env.now p.sessions))

refresh-Settled : (env : Env) (p : Portal) → Settled env (refresh_portal_auth_state env p)
refresh-Settled env p = record {
  running = (refresh_ends_sessions env p).0;
  status = (refresh_ends_sessions env p).1;
  global = rw (refresh_lem env p) (ground arith);
  napt = λ h k. ground (arith, refresh_disables_napt env p);
}

-- At one instant a second refresh changes nothing.
pub refresh_idempotent :
    (env : Env) (p : Portal)
    → let p' = refresh_portal_auth_state env p in refresh_portal_auth_state env p' ≡ p'
refresh_idempotent env p =
    Settled-refresh env (refresh_portal_auth_state env p) (refresh-Settled env p)

-- A refresh leaves a session that has not ended as it is.
pub refresh-kept :
    (env : Env) (p : Portal) (i : ℕ)
    → has_ended env.now (session_at p i) ≡ false
    → session_at (refresh_portal_auth_state env p) i ≡ session_at p i
refresh-kept env p i h = rw (refresh_lem env p) (sweep-kept env p.sessions p.quota p.acl i h)

pub refresh-free :
    (env : Env) (p : Portal)
    → exists_slot is_free p.acl ≡ true
    → exists_slot is_free (refresh_portal_auth_state env p).acl ≡ true
refresh-free env p h = rw (refresh_lem env p) (sweep-free env p.sessions p.quota p.acl h)

-- The tables are well formed after init_sessions.
pub init-PortalInv : (env : Env) (p : Portal) → PortalInv (init_sessions env p)
unfolding init_sessions load_quota_state
init-PortalInv env p = record {
  slots = refl;
  quota = record {
    size = refl;
    each = All-replicate IsRecord max_clients no_record no_record-IsRecord;
  };
  acl = client_acl_init-AclInv;
}
