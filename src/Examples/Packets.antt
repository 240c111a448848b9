-- ===== src/Examples/Packets.antt =====
-- The theorems on lwip_hooks.c, on packets of the example's clients.
use esp32_wifi_ap_cp.Base.{◌+◌, ◌%◌, ◌<◌, ◌≡◌, refl, false, not, ◌&&◌, [], ◌∷◌, arith}
use esp32_wifi_ap_cp.Acl.{blank, client_acl_is_admitted}
use esp32_wifi_ap_cp.Hook.{
  Packet, checksum_adjust, solar_hook_ip4_input, rewrite_unauthenticated_probe_to_portal,
  rewrite_tcp,
}
use esp32_wifi_ap_cp.Hook.Checksum.{sum_words, checksum_adjust_verifies}
use esp32_wifi_ap_cp.Hook.Filter.{is_foreign, is_probe, dropped_iff}
use esp32_wifi_ap_cp.Examples.{ap_ip, phone_ip, ap_netif, outbound}

-- A request for http://8.8.8.8/.
abbrev http_request : Packet
http_request = record (outbound phone_ip) { dest_port = 80 }

dropped_iff_example : (solar_hook_ip4_input ap_ip (blank ∷ []) ap_netif (outbound phone_ip)).0 ≡ (
    is_foreign ap_ip (blank ∷ []) ap_netif (outbound phone_ip)
    && not (is_probe (outbound phone_ip)))
dropped_iff_example = dropped_iff ap_ip (blank ∷ []) ap_netif (outbound phone_ip)

nobody_admitted : client_acl_is_admitted phone_ip (blank ∷ []) ≡ false
unfolding client_acl_is_admitted
nobody_admitted = refl

request_kept : (solar_hook_ip4_input ap_ip (blank ∷ []) ap_netif http_request).0 ≡ false
unfolding solar_hook_ip4_input rewrite_unauthenticated_probe_to_portal rewrite_tcp
    client_acl_is_admitted
request_kept = refl

-- 8.8.8.8 becomes 192.168.4.1 in a packet whose other words add up to 0x1000.
checksum_adjust_verifies_example :
    (checksum_adjust (8 ∷ 8 ∷ 8 ∷ 8 ∷ []) (192 ∷ 168 ∷ 4 ∷ 1 ∷ []) 0xDFEF < 65536)
    × ((checksum_adjust (8 ∷ 8 ∷ 8 ∷ 8 ∷ []) (192 ∷ 168 ∷ 4 ∷ 1 ∷ []) 0xDFEF
            + sum_words (192 ∷ 168 ∷ 4 ∷ 1 ∷ [])
            + 0x1000)
          % 65535
        ≡ 0)
checksum_adjust_verifies_example =
    checksum_adjust_verifies (8 ∷ 8 ∷ 8 ∷ 8 ∷ []) (192 ∷ 168 ∷ 4 ∷ 1 ∷ []) 0x1000 0xDFEF
      (omega arith, (omega arith, (omega arith, (omega arith, tt))))
      (omega arith, (omega arith, (omega arith, (omega arith, tt)))) (omega arith) refl
