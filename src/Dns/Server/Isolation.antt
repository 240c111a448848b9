-- ===== src/Dns/Server/Isolation.antt =====
-- What main/dns_server.c tells clients that are authenticated, and those that are not.
use esp32_wifi_ap_cp.Base.{
  ℕ, ◌+◌, ◌≤◌, ◌≡◌, ◌≢◌, ◌∙◌, inl, inr, false, some, List, arith, length, bit_and, exists_slot,
  Bool-cases,
}
use esp32_wifi_ap_cp.Portal.Quota.{Env}
use esp32_wifi_ap_cp.Portal.Clients.{is_client_session_active}
use esp32_wifi_ap_cp.Portal.Clients.Gating.{authorises, active_needs_session}
use esp32_wifi_ap_cp.Dns.Packet.{
  dns_buffer_size, byte_at, dns_skip_name, dns_is_a_record_query, build_dns_response,
}
use esp32_wifi_ap_cp.Dns.Packet.Answers.{IsResponse, whole_query_is_answered}
use esp32_wifi_ap_cp.Dns.Server.{Net, DnsState, dns_server_step}

-- A query: twelve bytes or more, without the response flag.
abbrev pub IsQuery : List ℕ → Type 0
IsQuery query = (12 ≤ length query) × (bit_and (byte_at query 2) 0x80 ≡ 0)

step-captive :
    (env : Env) (net : Net) (my_ap_ip client : ℕ) (query : List ℕ) (s : DnsState)
    → IsQuery query
    → (is_client_session_active env client s.portal).0 ≡ false
    → let (response, s') = dns_server_step env net my_ap_ip client query s in
      (response ≡ build_dns_response my_ap_ip query dns_buffer_size (dns_is_a_record_query query))
      × (s'.cache ≡ s.cache)
unfolding dns_server_step
step-captive env net my_ap_ip client query s q h = ground (arith, q, h)

-- A query of at most 512 bytes, whose name ends within it with a type and a class behind and room for an
-- answer, gets a proper response from the server itself if no session in use, admitted and not over is the
-- client's: with the portal's address where it asks for an IPv4 address, with no answer otherwise. The cache
-- stays as it is.
pub captive_answer :
    (env : Env) (net : Net) (my_ap_ip client : ℕ) (query : List ℕ) (s : DnsState)
    → IsQuery query
    → exists_slot (authorises env client) s.portal.sessions ≡ false
    → length query ≤ dns_buffer_size
    → dns_skip_name query 12 ≢ 0
    → dns_skip_name query 12 + 4 ≤ length query
    → dns_skip_name query 12 + 20 ≤ dns_buffer_size
    → let (response, s') = dns_server_step env net my_ap_ip client query s in
      (r : List ℕ) × (response ≡ some r)
      × IsResponse my_ap_ip query dns_buffer_size (dns_is_a_record_query query) r
      × (s'.cache ≡ s.cache)
captive_answer env net my_ap_ip client query s q h l n w a =
    let (r, e, is) =
      whole_query_is_answered my_ap_ip query dns_buffer_size (dns_is_a_record_query query)
        (omega arith) l n w a in
    let step = step-captive env net my_ap_ip client query s q unauthenticated in
    (r, step.0 ∙ e, is, step.1)
  where
    unauthenticated : (is_client_session_active env client s.portal).0 ≡ false
    unauthenticated = elim (Bool-cases (is_client_session_active env client s.portal).0) [
      | inr f ↦ f
      | inl t ↦ ground (arith, h, (active_needs_session env client s.portal t).1)
    ]
