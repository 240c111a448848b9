-- ===== src/Hook/Filter.antt =====
-- What the packet filter of main/lwip_hooks.c lets through.
use esp32_wifi_ap_cp.Base.{
  ℕ, ◌+◌, ◌≤◌, ◌≡◌, ◌≢◌, Bool, true, false, not, ◌&&◌, ◌||◌, List, arith, ◌==◌, leb,
}
use esp32_wifi_ap_cp.Acl.{AclEntry, client_acl_is_admitted}
use esp32_wifi_ap_cp.Hook.{
  http_port, dns_port, ip_proto_tcp, ip_proto_udp, ip_hdr_size, tcp_hdr_size, udp_hdr_size, Packet,
  Netif, rewrite_tcp, rewrite_udp, rewrite_unauthenticated_probe_to_portal, solar_hook_ip4_input,
}

-- A packet that reaches the access point for a destination elsewhere, from an address not admitted.
abbrev pub is_foreign : ℕ → List AclEntry → Netif → Packet → Bool
is_foreign my_ap_ip acl inp p =
    leb ip_hdr_size p.len
    && (inp.ip4_addr == my_ap_ip)
    && not ((p.dest == my_ap_ip) || inp.is_broadcast p.dest || inp.is_multicast p.dest)
    && not (p.src == 0)
    && not (client_acl_is_admitted p.src acl)

-- A whole, unfragmented HTTP or DNS request.
abbrev pub is_probe : Packet → Bool
is_probe p =
    leb ip_hdr_size p.header_len
    && (p.fragment_offset == 0)
    && (((p.proto == ip_proto_tcp)
          && (p.dest_port == http_port)
          && leb (p.header_len + tcp_hdr_size) p.len)
        || ((p.proto == ip_proto_udp)
            && (p.dest_port == dns_port)
            && leb (p.header_len + udp_hdr_size) p.len))

rewrite-is_probe :
    (my_ap_ip old : ℕ) (p : Packet)
    → let (rewritten, p1) = rewrite_unauthenticated_probe_to_portal my_ap_ip old p in
      (rewritten ≡ is_probe p) × (rewritten ≡ true → p1.dest ≡ my_ap_ip)
unfolding rewrite_unauthenticated_probe_to_portal rewrite_tcp rewrite_udp
rewrite-is_probe my_ap_ip old p = ground arith

-- A packet is dropped exactly when it is foreign and no probe.
pub dropped_iff :
    (my_ap_ip : ℕ) (acl : List AclEntry) (inp : Netif) (p : Packet)
    → (solar_hook_ip4_input my_ap_ip acl inp p).0
      ≡ (is_foreign my_ap_ip acl inp p && not (is_probe p))
unfolding solar_hook_ip4_input
dropped_iff my_ap_ip acl inp p = ground (arith, rewrite-is_probe my_ap_ip p.dest p)

-- A whole packet from a nonzero address that is not admitted, if it gets through the access
-- point's interface at all, goes to the access point itself, or to a broadcast or multicast
-- address.
pub unadmitted_stays_local :
    (my_ap_ip : ℕ) (acl : List AclEntry) (inp : Netif) (p : Packet)
    → ip_hdr_size ≤ p.len
    → inp.ip4_addr ≡ my_ap_ip
    → p.src ≢ 0
    → client_acl_is_admitted p.src acl ≡ false
    → let (dropped, p1) = solar_hook_ip4_input my_ap_ip acl inp p in
      dropped ≡ false
      → ((p1.dest == my_ap_ip) || inp.is_broadcast p1.dest || inp.is_multicast p1.dest) ≡ true
unfolding solar_hook_ip4_input
unadmitted_stays_local my_ap_ip acl inp p l n s a d =
    ground (arith, rewrite-is_probe my_ap_ip p.dest p)

-- An admitted client's packets are let through unchanged.
pub admitted_passes :
    (my_ap_ip : ℕ) (acl : List AclEntry) (inp : Netif) (p : Packet)
    → client_acl_is_admitted p.src acl ≡ true
    → solar_hook_ip4_input my_ap_ip acl inp p ≡ (false, p)
unfolding solar_hook_ip4_input
admitted_passes my_ap_ip acl inp p a = ground arith
