-- ===== src/Portal/Pages/Reachable.antt =====
-- The calls of main/http_server.c in any order, each with what the outside answers it: the tables stay
-- well formed.
use esp32_wifi_ap_cp.Base.{ℕ, Bool, ◌≡◌, Option, none, some, List}
use esp32_wifi_ap_cp.Portal.Quota.{Env}
use esp32_wifi_ap_cp.Portal.State.{
  Portal, Update, init_sessions, start_update_task, with_queue, ensure_supabase_update_task_started,
}
use esp32_wifi_ap_cp.Portal.State.Refreshing.{PortalInv, init-PortalInv}
use esp32_wifi_ap_cp.Portal.State.Link.{task_link}
use esp32_wifi_ap_cp.Portal.Start.{Client, start_or_resume_session}
use esp32_wifi_ap_cp.Portal.Start.Granting.{start-PortalInv}
use esp32_wifi_ap_cp.Portal.Clients.{is_client_session_active}
use esp32_wifi_ap_cp.Portal.Clients.Gating.{is_active-PortalInv}
use esp32_wifi_ap_cp.Portal.Events.{
  handle_client_connect, handle_client_ip_assigned, handle_client_disconnect, heartbeat_round,
}
use esp32_wifi_ap_cp.Portal.Events.Keeping.{
  connect-PortalInv, assigned-PortalInv, disconnect-PortalInv, heartbeat-PortalInv,
}
use esp32_wifi_ap_cp.Portal.Pages.{Visit, Method, Uri, serve, start_webserver}
use esp32_wifi_ap_cp.Portal.Pages.Serving.{serve-PortalInv}

-- What calls the portal or writes its globals: a station that comes, gets its address or leaves, a request,
-- a session started by another module, the DNS server's question about a client, the heartbeat task, the
-- uplink, and the count of stations.
pub data PortalEvent : Type 0 where
  connected : ℕ → PortalEvent
  ip_assigned : ℕ → ℕ → PortalEvent
  disconnected : ℕ → PortalEvent
  requested : Visit → Method → Uri → PortalEvent
  started : Client → PortalEvent
  asked : ℕ → PortalEvent
  heartbeat : PortalEvent
  uplink : Bool → PortalEvent
  counted : ℕ → PortalEvent

unfoldable pub handle_event : Env → PortalEvent → Portal → Portal
handle_event env (connected mac) p = handle_client_connect env mac p
handle_event env (ip_assigned mac ip) p = handle_client_ip_assigned env mac ip p
handle_event env (disconnected mac) p = handle_client_disconnect env mac p
handle_event env (requested v m uri) p = (serve env v m uri p).1
handle_event env (started c) p = (start_or_resume_session env c p).1
handle_event env (asked ip) p = (is_client_session_active env ip p).1
handle_event env heartbeat p = heartbeat_round env p
handle_event env (uplink up) p = record p { ap_connect = up }
handle_event env (counted n) p = record p { connect_count = n }

handle_event-PortalInv :
    (env : Env) (e : PortalEvent) (p : Portal) → PortalInv p → PortalInv (handle_event env e p)
unfolding handle_event
handle_event-PortalInv env (connected mac) p v = connect-PortalInv env mac p v
handle_event-PortalInv env (ip_assigned mac ip) p v = assigned-PortalInv env mac ip p v
handle_event-PortalInv env (disconnected mac) p v = disconnect-PortalInv env mac p v
handle_event-PortalInv env (requested visit m uri) p v = serve-PortalInv env visit m uri p v
handle_event-PortalInv env (started c) p v = start-PortalInv env c p v
handle_event-PortalInv env (asked ip) p v = is_active-PortalInv env ip p v
handle_event-PortalInv env heartbeat p v = heartbeat-PortalInv env p v
handle_event-PortalInv env (uplink up) p v = record {
  slots = v.slots;
  quota = v.quota;
  acl = v.acl;
}
handle_event-PortalInv env (counted n) p v = record {
  slots = v.slots;
  quota = v.quota;
  acl = v.acl;
}

-- A portal that events lead to from `p`, each handled with answers of its own.
pub data Reachable (p : Portal) : Portal → Type 0 where
  start : Reachable p p
  step :
      {q : Portal} (env : Env) (e : PortalEvent)
      → Reachable p q
      → Reachable p (handle_event env e q)

Reachable-PortalInv : (p q : Portal) → PortalInv p → Reachable p q → PortalInv q
Reachable-PortalInv p q v start = v
Reachable-PortalInv p q v (step env e r) =
    handle_event-PortalInv env e _ (Reachable-PortalInv p _ v r)

task-PortalInv :
    (env : Env) (queue : Option (List Update)) (p : Portal)
    → PortalInv p
    → PortalInv (start_update_task env queue p)
task-PortalInv env none p v = record { slots = v.slots; quota = v.quota; acl = v.acl }
task-PortalInv env (some us) p v = record { slots = v.slots; quota = v.quota; acl = v.acl }

pub webserver-PortalInv : (env : Env) (p : Portal) → PortalInv (start_webserver env p)
unfolding start_webserver ensure_supabase_update_task_started
webserver-PortalInv env p = task-PortalInv env _ (init_sessions env p) (init-PortalInv env p)

-- start_webserver changes nothing of the Wi-Fi's state.
pub webserver_link :
    (env : Env) (p : Portal)
    → ((start_webserver env p).ap_connect ≡ p.ap_connect)
      × ((start_webserver env p).connect_count ≡ p.connect_count)
unfolding start_webserver ensure_supabase_update_task_started init_sessions
webserver_link env p = task_link env (with_queue env p.queue) (init_sessions env p)

-- Once start_webserver has run, whatever comes, in any order and at any times, the tables stay well formed:
-- twenty slots each, no quota record over the daily quota, no MAC twice on the access list. What comes is
-- a station that joins, gets an address or leaves, any request, /confirm among them, a session started
-- for any client, the question whether a client is authenticated, the heartbeat, a change of the
-- uplink, and a change of the count of stations.
pub boot-PortalInv : (env : Env) (p q : Portal) → Reachable (start_webserver env p) q → PortalInv q
boot-PortalInv env p q r =
    Reachable-PortalInv (start_webserver env p) q (webserver-PortalInv env p) r
