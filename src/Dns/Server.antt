-- ===== src/Dns/Server.antt =====
-- The server of main/dns_server.c: the forwarding of queries, and one round of its task.
pub mod Isolation
use esp32_wifi_ap_cp.Base.{
  ℕ, ◌+◌, Bool, true, false, not, ◌&&◌, ◌||◌, Option, none, some, List, [], ◌∷◌, if◌then◌else◌,
  ◌==◌, ltb, leb, length, bit_and, is_empty,
}
use esp32_wifi_ap_cp.Portal.Quota.{Env}
use esp32_wifi_ap_cp.Portal.State.{Portal}
use esp32_wifi_ap_cp.Portal.Clients.{is_client_session_active}
use esp32_wifi_ap_cp.Dns.Packet.{
  Question, dns_buffer_size, byte_at, dns_is_a_record_query, dns_get_question_info,
  build_dns_response, build_dns_servfail_response, dns_cache_normalize_qname,
}
use esp32_wifi_ap_cp.Dns.Cache.{
  CacheEntry, dns_cache_lookup, dns_cache_insert, dns_cache_build_response,
  dns_response_is_cacheable,
}

-- What is outside: the address of DNS server that the Wi-Fi station was given (`none` without one, or
-- where it is 0), and what a server answers to a query within the time (`none` where a call on the
-- socket fails or nothing comes).
pub record Net : Type 0 where
  pub sta_dns : Option ℕ
  pub ask : ℕ → List ℕ → Option (List ℕ)

-- 8.8.8.8 and 1.1.1.1
abbrev pub default_upstream_dns : ℕ
default_upstream_dns = 0x08080808

abbrev pub secondary_upstream_dns : ℕ
secondary_upstream_dns = 0x01010101

abbrev pub get_upstream_dns_addr : Net → ℕ
get_upstream_dns_addr net = elim net.sta_dns [ none ↦ default_upstream_dns | some a ↦ a ]

abbrev pub answered : Option (List ℕ) → Bool
answered none = false
answered (some response) = not (is_empty response)

-- A server is not asked again under a second name.
unfoldable pub forward_dns_query : Net → List ℕ → Option (List ℕ)
forward_dns_query net query =
    let upstream = get_upstream_dns_addr net in
    if answered (net.ask upstream query)
    then net.ask upstream query
    else if not (default_upstream_dns == upstream) && answered (net.ask default_upstream_dns query)
    then net.ask default_upstream_dns query
    else if not (secondary_upstream_dns == upstream)
        && answered (net.ask secondary_upstream_dns query)
    then net.ask secondary_upstream_dns query
    else none

-- The statics of the server, and the portal that it asks.
pub record DnsState : Type 0 where
  pub portal : Portal
  pub cache : List CacheEntry

-- "<unknown>"
abbrev pub unknown_name : List ℕ
unknown_name = 60 ∷ 117 ∷ 110 ∷ 107 ∷ 110 ∷ 111 ∷ 119 ∷ 110 ∷ 62 ∷ []

pub keep_response : Env → ℕ → List ℕ → ℕ → Option (List ℕ) → List CacheEntry → List CacheEntry
keep_response env my_ap_ip qname qtype none cache = cache
keep_response env my_ap_ip qname qtype (some response) cache =
    if dns_response_is_cacheable response
    then dns_cache_insert env.now env.wall qname qtype response cache
    else cache

abbrev pub or_servfail : ℕ → List ℕ → Option (List ℕ) → Option (List ℕ)
or_servfail my_ap_ip query none = build_dns_servfail_response my_ap_ip query dns_buffer_size
or_servfail my_ap_ip query (some response) = some response

-- A client that is authenticated is answered from the cache or from upstream.
pub answer_found :
    Env
    → Net
    → ℕ
    → List ℕ
    → List ℕ
    → ℕ
    → Option CacheEntry
    → List CacheEntry
    → Option (List ℕ) × List CacheEntry
answer_found env net my_ap_ip query qname qtype (some hit) cache =
    (dns_cache_build_response hit query dns_buffer_size, cache)
answer_found env net my_ap_ip query qname qtype none cache =
    let forwarded = forward_dns_query net query in
    (or_servfail my_ap_ip query forwarded, keep_response env my_ap_ip qname qtype forwarded cache)

pub answer_authenticated :
    Env → Net → ℕ → List ℕ → Question → List CacheEntry → Option (List ℕ) × List CacheEntry
answer_authenticated env net my_ap_ip query question cache =
    let qname = dns_cache_normalize_qname question.name in
    let (found, cache1) = dns_cache_lookup env.now qname question.qtype cache in
    answer_found env net my_ap_ip query qname question.qtype found cache1

unfoldable pub dns_server_step : Env → Net → ℕ → ℕ → List ℕ → DnsState → Option (List ℕ) × DnsState
dns_server_step env net my_ap_ip client query s =
    let (authenticated, portal) = is_client_session_active env client s.portal in
    let question = dns_get_question_info unknown_name query in
    let (response, cache) = answer_authenticated env net my_ap_ip query question s.cache in
    if ltb (length query) 12 || not (bit_and (byte_at query 2) 0x80 == 0)
    then (none, s)
    else if authenticated
    then (response, record { portal = portal; cache = cache })
    else (
      build_dns_response my_ap_ip query dns_buffer_size (dns_is_a_record_query query),
      record { portal = portal; cache = s.cache },
    )
