-- ===== src/Hook.antt =====
-- The packet filter of the access point, main/lwip_hooks.c: what lwIP asks about each IPv4 packet that
-- arrives. An address is the 32-bit number of its bytes in memory, which the ESP32 reads little-endian;
-- a checksum is the number of its two bytes in network order.
pub mod Checksum
pub mod Filter
use esp32_wifi_ap_cp.Base.{
  ℕ, ◌+◌, ◌-◌, ◌*◌, ◌/◌, ◌%◌, ◌^◌, Bool, true, false, not, ◌&&◌, ◌||◌, List, [], ◌∷◌, if◌then◌else◌,
  ◌==◌, ltb, leb,
}
use esp32_wifi_ap_cp.Acl.{AclEntry, client_acl_is_admitted}

abbrev pub http_port : ℕ
http_port = 80

abbrev pub dns_port : ℕ
dns_port = 53

abbrev pub ip_proto_tcp : ℕ
ip_proto_tcp = 6

abbrev pub ip_proto_udp : ℕ
ip_proto_udp = 17

-- sizeof of struct ip_hdr, tcp_hdr and udp_hdr.
abbrev pub ip_hdr_size : ℕ
ip_hdr_size = 20

abbrev pub tcp_hdr_size : ℕ
tcp_hdr_size = 20

abbrev pub udp_hdr_size : ℕ
udp_hdr_size = 8

-- One round of the first loop: x -= before, in one's complement.
abbrev pub subtract_word : ℕ → ℕ → ℕ
subtract_word before x = if leb x before then (2 ^ 16 + x - before - 1) % 2 ^ 16 else x - before

-- One round of the second loop: x += after, in one's complement.
abbrev pub add_word : ℕ → ℕ → ℕ
add_word after x = if ltb (x + after) (2 ^ 16) then x + after else (x + after + 1) % 2 ^ 16

-- The loops take two bytes a round; the callers pass four.
pub subtract_words : List ℕ → ℕ → ℕ
subtract_words [] x = x
subtract_words (a ∷ []) x = x
subtract_words (a ∷ b ∷ data_left) x = subtract_words data_left (subtract_word (a * 256 + b) x)

pub add_words : List ℕ → ℕ → ℕ
add_words [] x = x
add_words (a ∷ []) x = x
add_words (a ∷ b ∷ data_left) x = add_words data_left (add_word (a * 256 + b) x)

-- ~x & 0xFFFF
abbrev pub complement : ℕ → ℕ
complement x = 2 ^ 16 - 1 - x

unfoldable pub checksum_adjust : List ℕ → List ℕ → ℕ → ℕ
checksum_adjust old_data new_data chksum =
    complement (add_words new_data (subtract_words old_data (complement chksum)))

-- The bytes of a uint32_t in memory.
abbrev pub bytes_of : ℕ → List ℕ
bytes_of a = a % 256 ∷ a / 256 % 256 ∷ a / 2 ^ 16 % 256 ∷ a / 2 ^ 24 % 256 ∷ []

-- What the hook reads of a pbuf and its headers.
pub record Packet : Type 0 where
  pub len : ℕ
  pub header_len : ℕ
  pub fragment_offset : ℕ
  pub proto : ℕ
  pub src : ℕ
  pub dest : ℕ
  pub chksum : ℕ
  pub dest_port : ℕ
  pub transport_chksum : ℕ

-- The interface a packet arrives on; the tests of an address are lwIP's.
pub record Netif : Type 0 where
  pub ip4_addr : ℕ
  pub is_broadcast : ℕ → Bool
  pub is_multicast : ℕ → Bool

-- The header gets the new address, and its checksum follows.
abbrev pub redirect : ℕ → ℕ → Packet → Packet
redirect new_dst old_dst p = record p {
  chksum = checksum_adjust (bytes_of old_dst) (bytes_of new_dst) p.chksum;
  dest = new_dst;
}

abbrev pub adjust_transport : ℕ → ℕ → Packet → Packet
adjust_transport new_dst old_dst p = record p {
  transport_chksum = checksum_adjust (bytes_of old_dst) (bytes_of new_dst) p.transport_chksum;
}

unfoldable pub rewrite_tcp : ℕ → ℕ → Packet → Bool × Packet
rewrite_tcp my_ap_ip old_dst p =
    if ltb p.len (p.header_len + tcp_hdr_size) || not (p.dest_port == http_port)
    then (false, p)
    else (true, redirect my_ap_ip old_dst (adjust_transport my_ap_ip old_dst p))

-- A UDP checksum of 0 means that there is none.
pub rewrite_udp : ℕ → ℕ → Packet → Bool × Packet
rewrite_udp my_ap_ip old_dst p =
    if ltb p.len (p.header_len + udp_hdr_size) || not (p.dest_port == dns_port)
    then (false, p)
    else (
      true,
      redirect my_ap_ip old_dst
          (if p.transport_chksum == 0 then p else adjust_transport my_ap_ip old_dst p),
    )

unfoldable pub rewrite_unauthenticated_probe_to_portal : ℕ → ℕ → Packet → Bool × Packet
rewrite_unauthenticated_probe_to_portal my_ap_ip old_dst p =
    if ltb p.header_len ip_hdr_size || ltb p.len p.header_len || not (p.fragment_offset == 0)
    then (false, p)
    else if p.proto == ip_proto_tcp
    then rewrite_tcp my_ap_ip old_dst p
    else if p.proto == ip_proto_udp
    then rewrite_udp my_ap_ip old_dst p
    else (false, p)

-- The packets that the hook leaves alone before it looks for a probe.
abbrev pub passes : ℕ → List AclEntry → Netif → Packet → Bool
passes my_ap_ip acl inp p =
    ltb p.len ip_hdr_size
    || not (inp.ip4_addr == my_ap_ip)
    || (p.dest == my_ap_ip)
    || (inp.is_broadcast p.dest || inp.is_multicast p.dest)
    || ((p.src == 0) || client_acl_is_admitted p.src acl)

-- `true` for a result of 1: the packet is dropped.
unfoldable pub solar_hook_ip4_input : ℕ → List AclEntry → Netif → Packet → Bool × Packet
solar_hook_ip4_input my_ap_ip acl inp p =
    let (rewritten, p1) = rewrite_unauthenticated_probe_to_portal my_ap_ip p.dest p in
    if passes my_ap_ip acl inp p then (false, p) else if rewritten then (false, p1) else (true, p)
