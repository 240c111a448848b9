-- ===== src/Portal/State/Link.antt =====
-- The functions of main/http_server.c on its state leave that of the Wi-Fi alone: whether the uplink is
-- connected, and the number of stations.
use esp32_wifi_ap_cp.Base.{ℕ, ◌-◌, ◌/◌, ◌≡◌, refl, Bool, Option, none, some, List, arith}
use esp32_wifi_ap_cp.Portal.Quota.{Env, second_us}
use esp32_wifi_ap_cp.Portal.Sessions.{session_token_len, device_hash_len, strlcpy}
use esp32_wifi_ap_cp.Portal.State.{
  Portal, Update, UpdateMode, session_at, ensure_napt_enabled, maybe_disable_napt_if_idle,
  refresh_portal_auth_state, queue_supabase_session_update, ensure_supabase_update_task_started,
  start_update_task, with_queue, mode_of_revoke, close_session, revoke_session,
}

abbrev pub SameLink : Portal → Portal → Type 0
SameLink p q = (q.ap_connect ≡ p.ap_connect) × (q.connect_count ≡ p.connect_count)

pub refresh_link : (env : Env) (p : Portal) → SameLink p (refresh_portal_auth_state env p)
unfolding refresh_portal_auth_state maybe_disable_napt_if_idle
refresh_link env p = ground arith

pub napt_link : (env : Env) (p : Portal) → SameLink p (ensure_napt_enabled env p).1
unfolding ensure_napt_enabled
napt_link env p = ground arith

pub task_link :
    (env : Env) (o : Option (List Update)) (p : Portal) → SameLink p (start_update_task env o p)
task_link env none p = (refl, refl)
task_link env (some us) p = (refl, refl)

pub queue_link :
    (env : Env) (token hash : List ℕ) (n : ℕ) (mode : UpdateMode) (p : Portal)
    → SameLink p (queue_supabase_session_update env token hash n mode p)
unfolding queue_supabase_session_update ensure_supabase_update_task_started
queue_link env token hash n mode p = task_link env (with_queue env p.queue) p

pub close_link : (env : Env) (i : ℕ) (p : Portal) → SameLink p (close_session env i p)
unfolding close_session
close_link env i p = refresh_link env _

pub revoke_link :
    (env : Env) (i : ℕ) (b : Bool) (p : Portal) → SameLink p (revoke_session env i b p)
unfolding revoke_session
revoke_link env i b p =
    let s = session_at p i in
    let p1 = close_session env i p in
    ground (
      arith,
      close_link env i p,
      queue_link env (strlcpy session_token_len s.token) (strlcpy device_hash_len s.device_hash)
          ((s.end_time - env.now) / second_us) (mode_of_revoke b) p1,
    )
