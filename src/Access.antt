-- ===== src/Access.antt =====
-- The portal of main/http_server.c and the packet filter of main/lwip_hooks.c together: who gets through
-- the access point.
use esp32_wifi_ap_cp.Base.{ℕ, ◌<◌, ◌≡◌, ◌≢◌, ap, ◌∙◌, Bool, true, false, arith, exists_slot, ◌≤◌}
use esp32_wifi_ap_cp.Acl.{is_free, client_acl_is_admitted}
use esp32_wifi_ap_cp.Portal.Quota.{Env, max_clients}
use esp32_wifi_ap_cp.Portal.State.{Portal, session_at, refresh_portal_auth_state, revoke_session}
use esp32_wifi_ap_cp.Portal.State.Sweeping.{ended_with_ip}
use esp32_wifi_ap_cp.Portal.State.Refreshing.{PortalInv, refresh_revokes}
use esp32_wifi_ap_cp.Portal.State.Revoking.{revoke_revokes}
use esp32_wifi_ap_cp.Portal.Start.{Client, start_or_resume_session}
use esp32_wifi_ap_cp.Portal.Start.Admitting.{start_admits}
use esp32_wifi_ap_cp.Hook.{Packet, Netif, ip_hdr_size, solar_hook_ip4_input}
use esp32_wifi_ap_cp.Hook.Filter.{is_probe, dropped_iff, admitted_passes}

-- A packet from a client to the world that is neither an HTTP nor a DNS request.
abbrev pub IsOutbound : ℕ → ℕ → Netif → Packet → Type 0
IsOutbound my_ap_ip client inp p =
    (p.src ≡ client)
    × (client ≢ 0)
    × (ip_hdr_size ≤ p.len)
    × (inp.ip4_addr ≡ my_ap_ip)
    × (p.dest ≢ my_ap_ip)
    × (inp.is_broadcast p.dest ≡ false)
    × (inp.is_multicast p.dest ≡ false)
    × (is_probe p ≡ false)

blocked :
    (my_ap_ip client : ℕ) (p : Portal) (inp : Netif) (packet : Packet)
    → IsOutbound my_ap_ip client inp packet
    → client_acl_is_admitted client p.acl ≡ false
    → (solar_hook_ip4_input my_ap_ip p.acl inp packet).0 ≡ true
blocked my_ap_ip client p inp packet o a =
    let same = ap (λ c. client_acl_is_admitted c p.acl) o.0 in
    ground (arith, o, a, same, dropped_iff my_ap_ip p.acl inp packet)

-- On well-formed tables, after an active session has been revoked, every outbound packet of its
-- client (whole, from its nonzero address, neither local nor an HTTP or DNS request) is dropped.
pub revoked_client_blocked :
    (env : Env) (i : ℕ) (b : Bool) (p : Portal) (my_ap_ip : ℕ) (inp : Netif) (packet : Packet)
    → PortalInv p
    → i < max_clients
    → (session_at p i).active ≡ true
    → IsOutbound my_ap_ip (session_at p i).ip_addr inp packet
    → (solar_hook_ip4_input my_ap_ip (revoke_session env i b p).acl inp packet).0 ≡ true
revoked_client_blocked env i b p my_ap_ip inp packet v l a o =
    blocked my_ap_ip (session_at p i).ip_addr (revoke_session env i b p) inp packet o
      (revoke_revokes env i b p v l a).1

-- After a refresh every outbound packet (whole, neither local nor an HTTP or DNS request) of a
-- client with a nonzero address whose session had reached its end is dropped.
pub ended_client_blocked :
    (env : Env) (client : ℕ) (p : Portal) (my_ap_ip : ℕ) (inp : Netif) (packet : Packet)
    → exists_slot (ended_with_ip env.now client) p.sessions ≡ true
    → IsOutbound my_ap_ip client inp packet
    → (solar_hook_ip4_input my_ap_ip (refresh_portal_auth_state env p).acl inp packet).0 ≡ true
ended_client_blocked env client p my_ap_ip inp packet e o =
    blocked my_ap_ip client (refresh_portal_auth_state env p) inp packet o
      ((refresh_revokes env p client).0 e)

-- Once the session of a client with an address has started, its packets get through unchanged, where
-- the access list had a free entry.
pub started_client_passes :
    (env : Env) (c : Client) (p : Portal) (my_ap_ip : ℕ) (inp : Netif) (packet : Packet)
    → c.ip ≢ 0
    → exists_slot is_free p.acl ≡ true
    → packet.src ≡ c.ip
    → solar_hook_ip4_input my_ap_ip (start_or_resume_session env c p).1.acl inp packet
      ≡ (false, packet)
started_client_passes env c p my_ap_ip inp packet n f s =
    let p' = (start_or_resume_session env c p).1 in
    admitted_passes my_ap_ip p'.acl inp packet
      (ap (λ x. client_acl_is_admitted x p'.acl) s ∙ start_admits env c p n f)
