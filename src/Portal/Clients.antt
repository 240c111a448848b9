-- ===== src/Portal/Clients.antt =====
-- The questions that main/http_server.c answers about a client: its MAC, its session, its time left.
pub mod Gating
pub mod Keeping
use esp32_wifi_ap_cp.Base.{
  ℕ, ◌-◌, ◌/◌, Bool, false, not, ◌&&◌, ◌||◌, Option, none, some, List, [], ◌∷◌, if◌then◌else◌, ◌==◌,
  ltb, leb, take, is_empty, find_slot,
}
use esp32_wifi_ap_cp.Acl.{client_acl_admit}
use esp32_wifi_ap_cp.Portal.Quota.{Env, max_clients, second_us, mac_is_zero}
use esp32_wifi_ap_cp.Portal.Sessions.{Session, find_session_index_by_ip, find_session_index_by_mac}
use esp32_wifi_ap_cp.Portal.State.{
  Portal, session_at, put_session, refresh_portal_auth_state, revoke_session,
}

-- The MAC paired with an address, in the first pair that has it.
abbrev pub mac_of_pair : ℕ → List ℕ → List ℕ → Option ℕ
mac_of_pair ip [] ips = none
mac_of_pair ip (m ∷ macs) [] = none
mac_of_pair ip (m ∷ macs) (a ∷ ips) =
    let rest = mac_of_pair ip macs ips in if a == ip then some m else rest

abbrev mac_of_leases : ℕ → List ℕ → Option (List ℕ) → Option ℕ
mac_of_leases ip macs none = none
mac_of_leases ip macs (some ips) = mac_of_pair ip macs ips

abbrev mac_of_stations : Env → ℕ → Option (List ℕ) → Option ℕ
mac_of_stations env ip none = none
mac_of_stations env ip (some macs) =
    let pairs = take max_clients macs in
    if is_empty pairs then none else mac_of_leases ip pairs (env.leases pairs)

unfoldable pub get_client_mac_for_ip : Env → ℕ → Option ℕ
get_client_mac_for_ip env ip = if ip == 0 then none else mac_of_stations env ip env.stations

pub session_by_mac : Option ℕ → List Session → Option ℕ
session_by_mac none sessions = none
session_by_mac (some m) sessions =
    if mac_is_zero m then none else find_session_index_by_mac (some m) sessions

pub session_by_ip : ℕ → Option ℕ → List Session → Option ℕ
session_by_ip ip (some i) sessions = some i
session_by_ip ip none sessions = if ip == 0 then none else find_session_index_by_ip ip sessions

pub if_running : Env → Option ℕ → Portal → Option ℕ
if_running env none p = none
if_running env (some i) p =
    if not (session_at p i).active || leb (session_at p i).end_time env.now then none else some i

unfoldable pub find_active_session_by_ip_or_mac : Env → ℕ → Option ℕ → Portal → Option ℕ
find_active_session_by_ip_or_mac env ip mac p =
    if_running env (session_by_ip ip (session_by_mac mac p.sessions) p.sessions) p

unfoldable pub get_global_remaining_seconds : Env → Portal → Option ℕ × Portal
get_global_remaining_seconds env p =
    if leb p.global_end_time env.now
    then (none, refresh_portal_auth_state env (record p { global_end_time = 0 }))
    else (some ((p.global_end_time - env.now) / second_us), p)

abbrev pub admitted_with_ip : ℕ → Session → Bool
admitted_with_ip ip s = s.active && s.admitted && (s.ip_addr == ip)

abbrev pub seconds_left : Env → Session → ℕ
seconds_left env s = (s.end_time - env.now) / second_us

unfoldable pub remaining_by_ip : Env → ℕ → Portal → Option ℕ × Portal
remaining_by_ip env i p =
    if leb (session_at p i).end_time env.now
    then (none, revoke_session env i false p)
    else (some (seconds_left env (session_at p i)), p)

-- A session found by the client's MAC is bound to its address.
pub bind_ip : ℕ → ℕ → ℕ → Portal → Portal
bind_ip ip mac i p =
    let p1 = put_session i (record (session_at p i) { ip_addr = ip }) p in
    record p1 { acl = client_acl_admit ip (some mac) p1.acl }

pub remaining_at_mac : Env → ℕ → ℕ → Option ℕ → Portal → Option ℕ × Portal
remaining_at_mac env ip mac none p = (none, p)
remaining_at_mac env ip mac (some i) p =
    if not (session_at p i).admitted
    then (none, p)
    else if leb (session_at p i).end_time env.now
    then (none, revoke_session env i false p)
    else (some (seconds_left env (session_at p i)), bind_ip ip mac i p)

pub remaining_by_mac : Env → ℕ → Option ℕ → Portal → Option ℕ × Portal
remaining_by_mac env ip none p = (none, p)
remaining_by_mac env ip (some mac) p =
    remaining_at_mac env ip mac (find_session_index_by_mac (some mac) p.sessions) p

unfoldable pub remaining_found : Env → ℕ → Option ℕ → Portal → Option ℕ × Portal
remaining_found env ip (some i) p = remaining_by_ip env i p
remaining_found env ip none p = remaining_by_mac env ip (get_client_mac_for_ip env ip) p

-- `none` stands for -1.
unfoldable pub get_remaining_seconds : Env → ℕ → Portal → Option ℕ × Portal
get_remaining_seconds env ip p =
    if ip == 0
    then (none, p)
    else remaining_found env ip (find_slot (admitted_with_ip ip) p.sessions) p

abbrev pub is_positive : Option ℕ → Bool
is_positive none = false
is_positive (some n) = ltb 0 n

unfoldable pub is_client_session_active : Env → ℕ → Portal → Bool × Portal
is_client_session_active env ip p =
    let (left, p1) = get_remaining_seconds env ip p in (is_positive left, p1)
