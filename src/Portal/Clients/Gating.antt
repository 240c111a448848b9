-- ===== src/Portal/Clients/Gating.antt =====
-- Who counts as authenticated: get_remaining_seconds and is_client_session_active of
-- main/http_server.c, which the DNS server and the portal ask.
use esp32_wifi_ap_cp.Base.{
  ℕ, ◌+◌, ◌≡◌, refl, ◌≢◌, ◌∙◌, ap, Bool, true, false, ◌&&◌, ◌||◌, Option, none, some, arith, ◌==◌,
  leb, length-set, find_slot, find_slot-lt, find_slot_sound, exists_slot, exists_slot_at,
}
use esp32_wifi_ap_cp.Acl.Invariant.{client_acl_admit-AclInv}
use esp32_wifi_ap_cp.Portal.Quota.{Env, second_us}
use esp32_wifi_ap_cp.Portal.Sessions.{
  Session, no_session, active_with_mac, find_session_index_by_mac,
}
use esp32_wifi_ap_cp.Portal.State.{Portal}
use esp32_wifi_ap_cp.Portal.State.Refreshing.{PortalInv}
use esp32_wifi_ap_cp.Portal.State.Revoking.{revoke-PortalInv}
use esp32_wifi_ap_cp.Portal.Clients.{
  get_client_mac_for_ip, admitted_with_ip, remaining_by_ip, bind_ip, remaining_at_mac,
  remaining_by_mac, remaining_found, get_remaining_seconds, is_positive, is_client_session_active,
}

abbrev pub has_mac : Option ℕ → ℕ → Bool
has_mac none mac = false
has_mac (some m) mac = mac == m

-- A session in use and admitted, of the client by its address or its MAC, with a second or more left.
abbrev pub authorises : Env → ℕ → Session → Bool
authorises env ip s =
    s.active
    && s.admitted
    && ((s.ip_addr == ip) || has_mac (get_client_mac_for_ip env ip) s.mac)
    && leb (env.now + second_us) s.end_time

by_ip_authorises :
    (env : Env) (ip i : ℕ) (p : Portal)
    → find_slot (admitted_with_ip ip) p.sessions ≡ some i
    → is_positive (remaining_by_ip env i p).0 ≡ true
    → exists_slot (authorises env ip) p.sessions ≡ true
unfolding remaining_by_ip
by_ip_authorises env ip i p e h =
    let found = find_slot_sound (admitted_with_ip ip) p.sessions i no_session e in
    exists_slot_at (authorises env ip) p.sessions i no_session (find_slot-lt _ p.sessions e)
      (ground arith)

by_mac_authorises :
    (env : Env) (ip mac : ℕ) (p : Portal) (found : Option ℕ)
    → get_client_mac_for_ip env ip ≡ some mac
    → find_session_index_by_mac (some mac) p.sessions ≡ found
    → is_positive (remaining_at_mac env ip mac found p).0 ≡ true
    → exists_slot (authorises env ip) p.sessions ≡ true
unfolding remaining_at_mac find_session_index_by_mac
by_mac_authorises env ip mac p none m e h = ground arith
by_mac_authorises env ip mac p (some i) m e h =
    let found = find_slot_sound (active_with_mac mac) p.sessions i no_session e in
    exists_slot_at (authorises env ip) p.sessions i no_session (find_slot-lt _ p.sessions e)
      (rw m (ground arith))

found_authorises :
    (env : Env) (ip : ℕ) (p : Portal) (slot mac : Option ℕ)
    → find_slot (admitted_with_ip ip) p.sessions ≡ slot
    → get_client_mac_for_ip env ip ≡ mac
    → is_positive (remaining_found env ip slot p).0 ≡ true
    → exists_slot (authorises env ip) p.sessions ≡ true
unfolding remaining_found
found_authorises env ip p (some i) mac e m h = by_ip_authorises env ip i p e h
found_authorises env ip p none none e m h = ground (arith, nothing)
  where
    nothing : is_positive (remaining_found env ip none p).0 ≡ false
    nothing = rw m (unfold remaining_by_mac in refl)
found_authorises env ip p none (some mac) e m h =
    by_mac_authorises env ip mac p _ m refl
      (ap (λ (r : Option ℕ × Portal). is_positive r.0) at_mac ∙ h)
  where
    at_mac :
        remaining_at_mac env ip mac (find_session_index_by_mac (some mac) p.sessions) p
        ≡ remaining_found env ip none p
    at_mac = rw m (unfold remaining_by_mac in refl)

-- A client counts as authenticated only by a session of its own: its address is not 0, and a
-- session that is in use and admitted carries that address, or the MAC that DHCP pairs with it, and
-- has a second or more left.
pub active_needs_session :
    (env : Env) (ip : ℕ) (p : Portal)
    → (is_client_session_active env ip p).0 ≡ true
    → (ip ≢ 0) × (exists_slot (authorises env ip) p.sessions ≡ true)
unfolding is_client_session_active get_remaining_seconds
active_needs_session env ip p h = ground (arith, found_authorises env ip p _ _ refl refl)

with_global : ℕ → Portal → Portal
with_global end p = record p { global_end_time = end }

found_ignores_global :
    (env : Env) (ip end : ℕ) (p : Portal) (slot mac found : Option ℕ)
    → get_client_mac_for_ip env ip ≡ mac
    → find_session_index_by_mac mac p.sessions ≡ found
    → is_positive (remaining_found env ip slot (with_global end p)).0
      ≡ is_positive (remaining_found env ip slot p).0
unfolding with_global remaining_found remaining_by_ip remaining_by_mac remaining_at_mac
found_ignores_global env ip end p (some i) mac found m e = ground arith
found_ignores_global env ip end p none none found m e = rw m refl
found_ignores_global env ip end p none (some mac) none m e = rw (m, e) refl
found_ignores_global env ip end p none (some mac) (some i) m e = rw (m, e) (ground arith)

-- The session opened for all authenticates nobody: whether a client counts as authenticated does not
-- depend on its end.
pub active_ignores_global :
    (env : Env) (ip end : ℕ) (p : Portal)
    → (is_client_session_active env ip (record p { global_end_time = end })).0
      ≡ (is_client_session_active env ip p).0
unfolding is_client_session_active get_remaining_seconds with_global
active_ignores_global env ip end p = ground (
  arith,
  found_ignores_global env ip end p (find_slot (admitted_with_ip ip) p.sessions) _ _ refl refl,
)

bind_ip-PortalInv : (ip mac i : ℕ) (p : Portal) → PortalInv p → PortalInv (bind_ip ip mac i p)
unfolding bind_ip
bind_ip-PortalInv ip mac i p v = record {
  slots = length-set p.sessions i _ ∙ v.slots;
  quota = v.quota;
  acl = client_acl_admit-AclInv ip (some mac) p.acl v.acl;
}

found-PortalInv :
    (env : Env) (ip : ℕ) (p : Portal) (slot mac found : Option ℕ)
    → get_client_mac_for_ip env ip ≡ mac
    → find_session_index_by_mac mac p.sessions ≡ found
    → PortalInv p
    → PortalInv (remaining_found env ip slot p).1
unfolding remaining_found remaining_by_ip remaining_by_mac remaining_at_mac
found-PortalInv env ip p (some i) mac found m e v = ground (arith, revoke-PortalInv env i false p v)
found-PortalInv env ip p none none found m e v = rw m v
found-PortalInv env ip p none (some mac) none m e v = rw (m, e) v
found-PortalInv env ip p none (some mac) (some i) m e v =
    rw (m, e) (ground (arith, revoke-PortalInv env i false p v, bind_ip-PortalInv ip mac i p v))

-- A query of the time left keeps the tables well formed.
pub is_active-PortalInv :
    (env : Env) (ip : ℕ) (p : Portal)
    → PortalInv p
    → PortalInv (is_client_session_active env ip p).1
unfolding is_client_session_active get_remaining_seconds
is_active-PortalInv env ip p v =
    ground
      (arith, found-PortalInv env ip p (find_slot (admitted_with_ip ip) p.sessions) _ _ refl refl v)
