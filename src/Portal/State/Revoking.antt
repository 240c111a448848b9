-- ===== src/Portal/State/Revoking.antt =====
-- What revoke_session of main/http_server.c does to the session, the access list and the queue.
use esp32_wifi_ap_cp.Base.{
  ℕ, zero, suc, ◌-◌, ◌/◌, ◌<◌, ◌≡◌, refl, ◌∙◌, ap, Bool, true, false, some, List, [], ◌∷◌, ◌++◌,
  arith, length, get_or, set, length-set, get_or-set_self, take-take, is_empty,
}
use esp32_wifi_ap_cp.Acl.{AclEntry, client_acl_is_admitted}
use esp32_wifi_ap_cp.Portal.Quota.{Env, Quota, max_clients, second_us}
use esp32_wifi_ap_cp.Portal.Sessions.{
  Session, no_session, session_token_len, device_hash_len, strlcpy, checkpoint_session_usage,
}
use esp32_wifi_ap_cp.Portal.Sessions.Charging.{checkpoint-QuotaInv}
use esp32_wifi_ap_cp.Portal.State.{
  Portal, Update, UpdateMode, update_queue_len, session_at, sweep, revoke_client, close_session,
  revoke_session, refresh_portal_auth_state, queue_supabase_session_update,
  ensure_supabase_update_task_started, start_update_task, with_queue, mode_of_revoke,
}
use esp32_wifi_ap_cp.Portal.State.Sweeping.{
  revoke_client-AclInv, revoke_client-revokes, checkpoint-session,
}
use esp32_wifi_ap_cp.Portal.State.Refreshing.{
  PortalInv, refresh_lem, refresh_revokes, refresh-PortalInv,
}

sweep-inactive :
    (env : Env) (ss : List Session) (q : Quota) (acl : List AclEntry) (i : ℕ)
    → (get_or ss i no_session).active ≡ false
    → (get_or (sweep env ss q acl).sessions i no_session).active ≡ false
unfolding sweep
sweep-inactive env [] q acl i h = refl
sweep-inactive env (s ∷ ss) q acl zero h = ground arith
sweep-inactive env (s ∷ ss) q acl (suc i) h = sweep-inactive env ss _ _ i h

-- A refresh activates no slot.
pub refresh-inactive :
    (env : Env) (p : Portal) (i : ℕ)
    → (session_at p i).active ≡ false
    → (session_at (refresh_portal_auth_state env p) i).active ≡ false
refresh-inactive env p i h =
    rw (refresh_lem env p) (sweep-inactive env p.sessions p.quota p.acl i h)

pub refresh-queue : (env : Env) (p : Portal) → (refresh_portal_auth_state env p).queue ≡ p.queue
refresh-queue env p = rw (refresh_lem env p) refl

-- A queue keeps the portal's other fields.
pub queue_lem :
    (env : Env) (token hash : List ℕ) (n : ℕ) (m : UpdateMode) (p : Portal)
    → let p' = queue_supabase_session_update env token hash n m p in
      p' ≡ record p { queue = p'.queue; update_task_started = p'.update_task_started }
unfolding queue_supabase_session_update ensure_supabase_update_task_started
queue_lem env token hash n m p = ground arith

unfoldable pub closed : Env → ℕ → Portal → Portal
closed env i p =
    let (s, q) = checkpoint_session_usage env true (session_at p i) p.quota in
    record p {
      sessions = set p.sessions i (record s { admitted = false; active = false });
      quota = q;
      acl = revoke_client s p.acl;
    }

pub close_lem :
    (env : Env) (i : ℕ) (p : Portal)
    → close_session env i p ≡ refresh_portal_auth_state env (closed env i p)
unfolding close_session closed
close_lem env i p = refl

close-PortalInv : (env : Env) (i : ℕ) (p : Portal) → PortalInv p → PortalInv (close_session env i p)
unfolding closed
close-PortalInv env i p v = rw (close_lem env i p) (
    refresh-PortalInv env (closed env i p) (record {
      slots = length-set p.sessions i _ ∙ v.slots;
      quota = checkpoint-QuotaInv env true (session_at p i) p.quota v.quota;
      acl = revoke_client-AclInv _ p.acl v.acl;
    }))

pub queue-PortalInv :
    (env : Env) (token hash : List ℕ) (n : ℕ) (m : UpdateMode) (p : Portal)
    → PortalInv p
    → PortalInv (queue_supabase_session_update env token hash n m p)
queue-PortalInv env token hash n m p v =
    rw (queue_lem env token hash n m p) (record { slots = v.slots; quota = v.quota; acl = v.acl })

pub revoke-PortalInv :
    (env : Env) (i : ℕ) (b : Bool) (p : Portal) → PortalInv p → PortalInv (revoke_session env i b p)
unfolding revoke_session
revoke-PortalInv env i b p v = ground (
  arith,
  close-PortalInv env i p v,
  queue-PortalInv env (strlcpy session_token_len (session_at p i).token)
      (strlcpy device_hash_len (session_at p i).device_hash)
      (((session_at p i).end_time - env.now) / second_us) (mode_of_revoke b)
      (close_session env i p),
)

close-revokes :
    (env : Env) (i : ℕ) (p : Portal)
    → i < length p.sessions
    → ((session_at (close_session env i p) i).active ≡ false)
      × (client_acl_is_admitted (session_at p i).ip_addr (close_session env i p).acl ≡ false)
unfolding closed
close-revokes env i p l = rw (close_lem env i p) (
  refresh-inactive env (closed env i p) i
      (ap (λ (s : Session). s.active) (get_or-set_self p.sessions i _ no_session l)),
  not_admitted,
)
  where
    s1 : Session
    s1 = (checkpoint_session_usage env true (session_at p i) p.quota).0

    same_ip : s1.ip_addr ≡ (session_at p i).ip_addr
    same_ip = ap (λ (s : Session). s.ip_addr) (checkpoint-session env true (session_at p i) p.quota)

    not_admitted :
        client_acl_is_admitted
          (session_at p i).ip_addr
          (refresh_portal_auth_state env (closed env i p)).acl
        ≡ false
    not_admitted = ground (
      arith,
      same_ip,
      revoke_client-revokes s1 p.acl,
      refresh_revokes env (closed env i p) (session_at p i).ip_addr,
    )

close-queue : (env : Env) (i : ℕ) (p : Portal) → (close_session env i p).queue ≡ p.queue
unfolding closed
close-queue env i p = rw (close_lem env i p) (refresh-queue env (closed env i p))

pub queue_sends :
    (env : Env) (token hash : List ℕ) (n : ℕ) (m : UpdateMode) (p : Portal) (us : List Update)
    → with_queue env p.queue ≡ some us
    → length us < update_queue_len
    → (queue_supabase_session_update env token hash n m p).queue
      ≡ some (
          us
          ++ (record {
            token = strlcpy session_token_len token;
            device_hash = strlcpy device_hash_len hash;
            remaining_seconds = n;
            mode = m;
          }
              ∷ []))
unfolding queue_supabase_session_update ensure_supabase_update_task_started
queue_sends env token hash n m p us q room = rw (q, start_update_task) (ground arith)

-- On well-formed tables, revoking an active session frees its slot and takes its address off the
-- access list.
pub revoke_revokes :
    (env : Env) (i : ℕ) (b : Bool) (p : Portal)
    → PortalInv p
    → i < max_clients
    → (session_at p i).active ≡ true
    → let p' = revoke_session env i b p in
      ((session_at p' i).active ≡ false)
      × (client_acl_is_admitted (session_at p i).ip_addr p'.acl ≡ false)
unfolding revoke_session
revoke_revokes env i b p v l a =
    let closes = close-revokes env i p (omega (arith, v.slots)) in
    ground (
      arith,
      closes,
      queue_lem env (strlcpy session_token_len (session_at p i).token)
          (strlcpy device_hash_len (session_at p i).device_hash)
          (((session_at p i).end_time - env.now) / second_us) (mode_of_revoke b)
          (close_session env i p),
    )

-- Revoking an active session that has a token and a hash queues one update with the seconds that
-- were left and the way it ended, where the queue exists or can be made and is not full.
pub revoke_queues_update :
    (env : Env) (i : ℕ) (b : Bool) (p : Portal) (us : List Update)
    → i < max_clients
    → (session_at p i).active ≡ true
    → is_empty (session_at p i).token ≡ false
    → is_empty (session_at p i).device_hash ≡ false
    → with_queue env p.queue ≡ some us
    → length us < update_queue_len
    → let s = session_at p i in
      (revoke_session env i b p).queue
      ≡ some (
          us
          ++ (record {
            token = strlcpy session_token_len s.token;
            device_hash = strlcpy device_hash_len s.device_hash;
            remaining_seconds = (s.end_time - env.now) / second_us;
            mode = mode_of_revoke b;
          }
              ∷ []))
unfolding revoke_session
revoke_queues_update env i b p us l a t h q room =
    let s = session_at p i in
    ground (
      arith,
      l,
      a,
      t,
      h,
      take-take 32 s.token,
      take-take 64 s.device_hash,
      queue_sends env (strlcpy session_token_len s.token) (strlcpy device_hash_len s.device_hash)
          ((s.end_time - env.now) / second_us) (mode_of_revoke b) (close_session env i p) us
          (rw (close-queue env i p) q) room,
    )
