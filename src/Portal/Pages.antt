-- ===== src/Portal/Pages.antt =====
-- The pages of main/http_server.c: what each URL answers, and what that changes of the portal. A page is
-- the decision that it shows; its HTML is left out. SESSION_DURATION_SEC is the daily quota.
pub mod Serving
pub mod Confirming
pub mod Reachable
use esp32_wifi_ap_cp.Base.{
  ℕ, ◌+◌, ◌*◌, ◌/◌, Bool, true, false, not, ◌||◌, Option, none, some, List, [], ◌∷◌, if◌then◌else◌,
  ◌==◌, ltb, leb, is_empty, str_eq,
}
use esp32_wifi_ap_cp.Portal.Quota.{
  Env, daily_quota_sec, get_quota_remaining_for_mac, get_seconds_until_next_day,
}
use esp32_wifi_ap_cp.Portal.Sessions.{session_token_len, device_hash_len, strlcpy}
use esp32_wifi_ap_cp.Portal.State.{
  Portal, session_at, init_sessions, ensure_napt_enabled, ensure_supabase_update_task_started,
}
use esp32_wifi_ap_cp.Portal.Start.{Client, or_else, start_or_resume_session}
use esp32_wifi_ap_cp.Portal.Clients.{
  get_client_mac_for_ip, find_active_session_by_ip_or_mac, get_remaining_seconds, is_positive,
  is_client_session_active,
}

-- What getpeername answers: an error, an IPv4 address, the bytes of an IPv6 address, another family.
pub data Peer : Type 0 where
  unknown_peer other_family : Peer
  inet : ℕ → Peer
  inet6 : List ℕ → Peer

-- An IPv4 address mapped into IPv6; the last four bytes lie in memory as they do in an IPv4 address.
abbrev pub mapped_ip : List ℕ → ℕ
mapped_ip (z0 ∷ z1 ∷ z2 ∷ z3 ∷ z4 ∷ z5 ∷ z6 ∷ z7 ∷ z8 ∷ z9 ∷ f0 ∷ f1 ∷ a ∷ b ∷ c ∷ d ∷ []) =
    if str_eq (z0 ∷ z1 ∷ z2 ∷ z3 ∷ z4 ∷ z5 ∷ z6 ∷ z7 ∷ z8 ∷ z9 ∷ f0 ∷ f1 ∷ [])
      (0 ∷ 0 ∷ 0 ∷ 0 ∷ 0 ∷ 0 ∷ 0 ∷ 0 ∷ 0 ∷ 0 ∷ 0xff ∷ 0xff ∷ [])
    then a + b * 256 + c * 65536 + d * 16777216
    else 0
mapped_ip bytes = 0

unfoldable pub get_client_ip : Peer → ℕ
get_client_ip unknown_peer = 0
get_client_ip other_family = 0
get_client_ip (inet ip) = ip
get_client_ip (inet6 bytes) = mapped_ip bytes

pub data Method : Type 0 where
  get post head other_method : Method

-- The URIs that handlers are registered for, and all others. `image` stands for the three images, `ports`
-- for those of admin_ports.c.
pub data Uri : Type 0 where
  root confirm api_status config image ports : Uri
  generate_204 gen_204 connectivity_check hotspot_detect apple_success connecttest ncsi : Uri
  mobile_status success_txt redirect fwlink other_uri : Uri

pub data Page : Type 0 where
  status : Bool → ℕ → Bool → Page
  welcome_back : ℕ → List ℕ → Page
  login redirect_to_portal no_content windows_probe apple_probe not_found method_not_allowed : Page
  quota_used_up waiting_for_uplink routing_error server_error : Page
  connected : ℕ → List ℕ → Page
  -- Answered elsewhere: files, the configuration, the ports.
  elsewhere : Page

abbrev pub or_zero : Option ℕ → ℕ
or_zero none = 0
or_zero (some n) = n

-- (remaining + 59) / 60; a remaining time of -1 shows as 0.
abbrev pub minutes : Option ℕ → ℕ
minutes none = 0
minutes (some n) = (n + 59) / 60

unfoldable pub api_status_handler : Env → ℕ → Portal → Page × Portal
api_status_handler env ip p =
    let (left, p1) = get_remaining_seconds env ip p in
    (status (is_positive left) (or_zero left) p1.ap_connect, p1)

-- The page of a client with a session, with the token in its link; `room` is whether malloc succeeds.
abbrev pub portal_page : Bool → Option ℕ → Option ℕ → Portal → Page
portal_page room left none p = login
portal_page room left (some i) p =
    if room then welcome_back (minutes left) (session_at p i).token else server_error

unfoldable pub portal_handler : Env → Bool → ℕ → Portal → Page × Portal
portal_handler env room ip p =
    let (left, p1) = get_remaining_seconds env ip p in
    let found = find_active_session_by_ip_or_mac env ip (get_client_mac_for_ip env ip) p1 in
    (portal_page room left found p1, p1)

abbrev pub probe_page : Uri → Page
probe_page generate_204 = no_content
probe_page gen_204 = no_content
probe_page connecttest = windows_probe
probe_page ncsi = windows_probe
probe_page uri = apple_probe

-- A URI is compared as a whole here: one with a query string, which the handler is found for all the same,
-- is none of those that are told apart.
unfoldable pub send_probe_success : Bool → Uri → Page
send_probe_success has_query uri = if has_query then apple_probe else probe_page uri

unfoldable pub redirect_handler : Env → Bool → Uri → ℕ → Portal → Page × Portal
redirect_handler env has_query uri ip p =
    let (active, p1) = is_client_session_active env ip p in
    (if active then send_probe_success has_query uri else redirect_to_portal, p1)

unfoldable pub catch_all_handler : Env → ℕ → Portal → Page × Portal
catch_all_handler env ip p =
    let (active, p1) = is_client_session_active env ip p in
    (if active then not_found else redirect_to_portal, p1)

-- What a request meets besides `Env`: whether its URI has a query string, the MAC that the Wi-Fi events left,
-- the hash of an address, and whether malloc succeeds.
pub record Visit : Type 0 where
  pub ip : ℕ
  pub has_query : Bool
  pub cached_mac : Option ℕ
  pub hash_from_ip : ℕ → List ℕ
  pub room : Bool

-- get_any_connected_client_mac
abbrev pub first_station : Option (List ℕ) → Option ℕ
first_station none = none
first_station (some []) = none
first_station (some (m ∷ ms)) = some m

unfoldable pub mac_of_visit : Env → Visit → Option ℕ
mac_of_visit env v =
    or_else (get_client_mac_for_ip env v.ip) (or_else v.cached_mac (first_station env.stations))

abbrev pub at_most : ℕ → ℕ → ℕ
at_most limit n = if ltb limit n then limit else n

-- The seconds that a client may have: what its quota leaves, and no longer than the day lasts.
unfoldable pub granted_for : Env → Option ℕ → Portal → ℕ × Portal
granted_for env none p = (daily_quota_sec, p)
granted_for env (some mac) p =
    let (left, q) = get_quota_remaining_for_mac env mac p.quota in
    (at_most (get_seconds_until_next_day env) left, record p { quota = q })

-- The quota page is shown only for a MAC that is known.
abbrev pub is_used_up : Env → Option ℕ → Portal → Bool
is_used_up env none p = false
is_used_up env (some mac) p = leb (get_quota_remaining_for_mac env mac p.quota).0 0

abbrev pub hash_of_visit : Env → Visit → Option ℕ → List ℕ
hash_of_visit env v none = if v.ip == 0 then [] else v.hash_from_ip v.ip
hash_of_visit env v (some mac) = env.hash_from_mac mac

abbrev pub client_of : Env → Visit → Option ℕ → ℕ → Client
client_of env v mac granted = record {
  ip = v.ip;
  mac = mac;
  token = strlcpy session_token_len env.new_token;
  device_hash = strlcpy device_hash_len (hash_of_visit env v mac);
  granted_seconds = granted;
}

abbrev pub or_text : List ℕ → List ℕ → List ℕ
or_text [] t = t
or_text (c ∷ cs) t = c ∷ cs

abbrev pub token_of : Option ℕ → Portal → List ℕ
token_of none p = []
token_of (some i) p = (session_at p i).token

abbrev pub hash_of : Option ℕ → Portal → List ℕ
hash_of none p = []
hash_of (some i) p = (session_at p i).device_hash

-- The session that supabase_create_session is told of: its token, its hash, its seconds.
abbrev pub Sync : Type 0
Sync = Option (List ℕ × List ℕ × ℕ)

abbrev pub sync_of : List ℕ → List ℕ → ℕ → Sync
sync_of token hash seconds =
    if is_empty token || is_empty hash then none else some (token, hash, seconds)

-- confirm_handler once internet access is there.
unfoldable pub confirm_session : Env → Visit → Option ℕ → ℕ → Portal → Page × Sync × Portal
confirm_session env v mac granted p =
    let c = client_of env v mac granted in
    let (slot, p1) = start_or_resume_session env c p in
    let (left, p2) = get_remaining_seconds env v.ip p1 in
    let token = or_text (token_of slot p2) c.token in
    let hash = or_text (hash_of slot p2) c.device_hash in
    (
      if v.room then connected (minutes left) token else server_error,
      sync_of token hash (if is_positive left then or_zero left else granted),
      p2,
    )

unfoldable pub confirm_handler : Env → Visit → Portal → Page × Sync × Portal
confirm_handler env v p =
    let mac = mac_of_visit env v in
    let (granted, p1) = granted_for env mac p in
    let (napt_ok, p2) = ensure_napt_enabled env p1 in
    if is_used_up env mac p
    then (quota_used_up, none, p1)
    else if not p.ap_connect
    then (waiting_for_uplink, none, p1)
    else if not napt_ok
    then (routing_error, none, p2)
    else confirm_session env v mac granted p2

-- start_webserver, of what it does to the portal; the heartbeat task changes nothing by its start.
unfoldable pub start_webserver : Env → Portal → Portal
start_webserver env p = ensure_supabase_update_task_started env (init_sessions env p)

-- The handlers in the order of their registration; `/*` is registered for GET and HEAD, so that another
-- method finds the URI, but no handler for it.
unfoldable pub serve : Env → Visit → Method → Uri → Portal → Page × Portal
serve env v get api_status p = api_status_handler env v.ip p
serve env v get root p = portal_handler env v.room v.ip p
serve env v get confirm p = let (page, sync, p1) = confirm_handler env v p in (page, p1)
serve env v get config p = (elsewhere, p)
serve env v get image p = (elsewhere, p)
serve env v get ports p = (elsewhere, p)
serve env v get other_uri p = catch_all_handler env v.ip p
serve env v get uri p = redirect_handler env v.has_query uri v.ip p
serve env v head generate_204 p = redirect_handler env v.has_query generate_204 v.ip p
serve env v head gen_204 p = redirect_handler env v.has_query gen_204 v.ip p
serve env v head connectivity_check p = redirect_handler env v.has_query connectivity_check v.ip p
serve env v head hotspot_detect p = redirect_handler env v.has_query hotspot_detect v.ip p
serve env v head uri p = catch_all_handler env v.ip p
serve env v post config p = (elsewhere, p)
serve env v post ports p = (elsewhere, p)
serve env v post uri p = (method_not_allowed, p)
serve env v other_method uri p = (method_not_allowed, p)
