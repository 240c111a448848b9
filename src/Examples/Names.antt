-- ===== src/Examples/Names.antt =====
-- The theorems on dns_server.c, on a query for the IPv4 address of "a".
use esp32_wifi_ap_cp.Base.{
  ℕ, ◌+◌, ◌++◌, ◌≡◌, refl, true, false, none, some, List, [], ◌∷◌, arith, exists_slot, replicate,
}
use esp32_wifi_ap_cp.Dns.Packet.{
  skip_from, dns_skip_name, dns_is_a_record_query, build_dns_response, dns_buffer_size,
}
use esp32_wifi_ap_cp.Dns.Packet.Names.{encode, encoded_name_is_skipped}
use esp32_wifi_ap_cp.Dns.Packet.Answers.{IsResponse, build_dns_response-IsResponse}
use esp32_wifi_ap_cp.Dns.Cache.{
  CacheEntry, dns_cache_lookup, dns_cache_insert, new_entry, dns_cache_ttl_us,
  dns_seconds_until_next_day,
}
use esp32_wifi_ap_cp.Dns.Cache.Hits.{insert_then_lookup}
use esp32_wifi_ap_cp.Dns.Server.{Net, DnsState, dns_server_step}
use esp32_wifi_ap_cp.Dns.Server.Isolation.{captive_answer}
use esp32_wifi_ap_cp.Portal.Clients.{get_client_mac_for_ip}
use esp32_wifi_ap_cp.Portal.Clients.Gating.{authorises}
use esp32_wifi_ap_cp.Examples.{ap_ip, laptop_ip, env_at, busy}

abbrev query : List ℕ
query = 7 ∷ 9 ∷ 1 ∷ 0 ∷ 0 ∷ 1 ∷ 0 ∷ 0 ∷ 0 ∷ 0 ∷ 0 ∷ 0 ∷ 1 ∷ 97 ∷ 0 ∷ 0 ∷ 1 ∷ 0 ∷ 1 ∷ []

name_end : dns_skip_name query 12 ≡ 15
unfolding dns_skip_name skip_from
name_end = refl

abbrev query_head : List ℕ
query_head = 7 ∷ 9 ∷ 1 ∷ 0 ∷ 0 ∷ 1 ∷ 0 ∷ 0 ∷ 0 ∷ 0 ∷ 0 ∷ 0 ∷ []

encoded_name_is_skipped_example :
    dns_skip_name (query_head ++ (encode ((97 ∷ []) ∷ []) ++ (0 ∷ 1 ∷ 0 ∷ 1 ∷ []))) 12 ≡ 12 + 3
encoded_name_is_skipped_example =
    encoded_name_is_skipped ((97 ∷ []) ∷ []) query_head (0 ∷ 1 ∷ 0 ∷ 1 ∷ [])
      ((omega arith, omega arith), tt)

abbrev answer : List ℕ
answer =
    7 ∷ 9 ∷ 0x81 ∷ 0x80 ∷ 0 ∷ 1 ∷ 0 ∷ 1 ∷ 0 ∷ 0 ∷ 0 ∷ 0 ∷ 1 ∷ 97 ∷ 0 ∷ 0 ∷ 1 ∷ 0 ∷ 1 ∷ 0xC0 ∷ 0x0C
    ∷ 0 ∷ 1 ∷ 0 ∷ 1 ∷ 0 ∷ 0 ∷ 0 ∷ 60 ∷ 0 ∷ 4 ∷ 192 ∷ 168 ∷ 4 ∷ 1 ∷ []

answer_built : build_dns_response ap_ip query 512 true ≡ some answer
unfolding build_dns_response dns_skip_name skip_from
answer_built = refl

build_dns_response-IsResponse_example : IsResponse ap_ip query 512 true answer
build_dns_response-IsResponse_example =
    build_dns_response-IsResponse ap_ip query 512 true answer answer_built

abbrev empty_cache : List CacheEntry
empty_cache =
    replicate 64 (record { qname = []; qtype = 0; response = []; expires_us = 0; valid = false })

insert_then_lookup_example :
    (dns_cache_lookup 6
      (97 ∷ [])
      1
      (dns_cache_insert 5 1_750_000_000 (97 ∷ []) 1 answer empty_cache)).0
    ≡ some (new_entry 5 1_750_000_000 (97 ∷ []) 1 answer)
unfolding dns_cache_ttl_us dns_seconds_until_next_day
insert_then_lookup_example =
    insert_then_lookup 5 6 1_750_000_000 1 (97 ∷ []) answer empty_cache (omega arith) (omega arith)
      refl (omega arith) (omega arith)

abbrev silent : Net
silent = record { sta_dns = none; ask = λ server q. none }

abbrev dns_state : DnsState
dns_state = record { portal = busy; cache = empty_cache }

laptop_unknown : exists_slot (authorises (env_at 200) laptop_ip) busy.sessions ≡ false
unfolding get_client_mac_for_ip
laptop_unknown = refl

captive_answer_example :
    let (response, s') = dns_server_step (env_at 200) silent ap_ip laptop_ip query dns_state in
    (r : List ℕ) × (response ≡ some r)
    × IsResponse ap_ip query dns_buffer_size (dns_is_a_record_query query) r
    × (s'.cache ≡ empty_cache)
captive_answer_example =
    captive_answer (env_at 200) silent ap_ip laptop_ip query dns_state (omega arith, refl)
      laptop_unknown (omega arith) (λ e. omega (arith, name_end)) (omega (arith, name_end))
      (omega (arith, name_end))
