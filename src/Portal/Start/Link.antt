-- ===== src/Portal/Start/Link.antt =====
-- start_or_resume_session of main/http_server.c leaves the state of the Wi-Fi alone.
use esp32_wifi_ap_cp.Base.{ℕ, false, Option, none, some, arith}
use esp32_wifi_ap_cp.Portal.Quota.{Env}
use esp32_wifi_ap_cp.Portal.State.{Portal, session_at, put_session}
use esp32_wifi_ap_cp.Portal.State.Link.{SameLink, refresh_link}
use esp32_wifi_ap_cp.Portal.Start.{
  Client, start_in_slot, refresh_and_admit, reuse_slot, start_anew, resume_at, open_global, end_of,
  first_search, start_or_resume_session,
}

reuse_link : (env : Env) (c : Client) (i : ℕ) (p : Portal) → SameLink p (reuse_slot env c i p)
unfolding reuse_slot refresh_and_admit
reuse_link env c i p = refresh_link env _

anew_link :
    (env : Env) (c : Client) (stale : Option ℕ) (p : Portal)
    → SameLink p (start_anew env c stale p).1
unfolding start_anew refresh_and_admit start_in_slot
anew_link env c stale p = refresh_link env _

resume_link :
    (env : Env) (c : Client) (o : Option ℕ) (p : Portal) → SameLink p (resume_at env c o p).1
unfolding resume_at
resume_link env c none p = anew_link env c none p
resume_link env c (some i) p = ground (
  arith,
  reuse_link env c i p,
  anew_link env c (some i) (put_session i (record (session_at p i) { active = false }) p),
)

pub start_link :
    (env : Env) (c : Client) (p : Portal) → SameLink p (start_or_resume_session env c p).1
unfolding start_or_resume_session open_global
start_link env c p =
    let p1 = open_global env c p in
    ground (
      arith,
      refresh_link env (record p { global_end_time = end_of env c }),
      resume_link env c (first_search c p) p,
      resume_link env c (first_search c p1) p1,
    )
