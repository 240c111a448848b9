-- ===== src/Dns/Cache.antt =====
-- The cache of main/dns_server.c: 64 responses, kept until the next UTC midnight.
pub mod Hits
use esp32_wifi_ap_cp.Base.{
  ℕ, suc, ◌+◌, ◌-◌, ◌*◌, ◌/◌, ◌^◌, Bool, true, false, not, ◌&&◌, ◌||◌, Option, none, some, List, [],
  ◌∷◌, if◌then◌else◌, ◌==◌, ltb, leb, length, get_or, set, take, bit_and, is_empty, str_eq,
}
use esp32_wifi_ap_cp.Dns.Packet.{dns_buffer_size, name_room, byte_at, u16_at}

abbrev pub dns_cache_entries : ℕ
dns_cache_entries = 64

abbrev pub fallback_ttl_us : ℕ
fallback_ttl_us = 12 * 60 * 60 * 1_000_000

-- dns_cache_entry_t; response_len is the length of `response`.
pub record CacheEntry : Type 0 where
  pub qname : List ℕ
  pub qtype : ℕ
  pub response : List ℕ
  pub expires_us : ℕ
  pub valid : Bool

unfoldable pub dns_seconds_until_next_day : ℕ → ℕ
dns_seconds_until_next_day wall =
    if ltb wall (24 * 3600) then 0 else (wall / 86400 + 1) * 86400 - wall

unfoldable pub dns_cache_ttl_us : ℕ → ℕ
dns_cache_ttl_us wall =
    let secs = dns_seconds_until_next_day wall in
    if leb secs 0 then fallback_ttl_us else secs * 1_000_000

abbrev pub is_hit : List ℕ → ℕ → CacheEntry → Bool
is_hit qname qtype e = (e.qtype == qtype) && str_eq e.qname qname

-- The entry found, and the cache without the entries that the loop saw to have expired.
unfoldable pub dns_cache_lookup :
    ℕ → List ℕ → ℕ → List CacheEntry → Option CacheEntry × List CacheEntry
dns_cache_lookup now qname qtype [] = (none, [])
dns_cache_lookup now qname qtype (e ∷ es) =
    let (found, rest) = dns_cache_lookup now qname qtype es in
    if not e.valid
    then (found, e ∷ rest)
    else if leb e.expires_us now
    then (found, record e { valid = false } ∷ rest)
    else if is_hit qname qtype e
    then (some e, e ∷ es)
    else (found, e ∷ rest)

abbrev pub int64_max : ℕ
int64_max = 2 ^ 63 - 1

abbrev pub slot_or_zero : Option ℕ → ℕ
slot_or_zero none = 0
slot_or_zero (some i) = i

-- The loop of dns_cache_insert from slot `i` on, with `slot` the oldest entry so far.
pub choose_slot : List ℕ → ℕ → ℕ → ℕ → Option ℕ → List CacheEntry → ℕ
choose_slot qname qtype i oldest_expires slot [] = slot_or_zero slot
choose_slot qname qtype i oldest_expires slot (e ∷ es) =
    let older = choose_slot qname qtype (i + 1) e.expires_us (some i) es in
    let same = choose_slot qname qtype (i + 1) oldest_expires slot es in
    if not e.valid
    then i
    else if is_hit qname qtype e
    then i
    else if ltb e.expires_us oldest_expires
    then older
    else same

-- strncpy into 96 bytes, the last of them NUL.
abbrev pub new_entry : ℕ → ℕ → List ℕ → ℕ → List ℕ → CacheEntry
new_entry now wall qname qtype response = record {
  qname = take name_room qname;
  qtype = qtype;
  response = response;
  expires_us = now + dns_cache_ttl_us wall;
  valid = true;
}

unfoldable pub dns_cache_insert : ℕ → ℕ → List ℕ → ℕ → List ℕ → List CacheEntry → List CacheEntry
dns_cache_insert now wall qname qtype response cache =
    if is_empty response || ltb dns_buffer_size (length response)
    then cache
    else set cache (choose_slot qname qtype 0 int64_max none cache)
        (new_entry now wall qname qtype response)

-- The cached bytes under the transaction id of the query.
unfoldable pub dns_cache_build_response : CacheEntry → List ℕ → ℕ → Option (List ℕ)
dns_cache_build_response e query response_size =
    if ltb response_size (length e.response)
    then none
    else some (set (set e.response 0 (byte_at query 0)) 1 (byte_at query 1))

unfoldable pub dns_response_is_cacheable : List ℕ → Bool
dns_response_is_cacheable response =
    if ltb (length response) 12
    then false
    else if not (bit_and (byte_at response 3) 0x0F == 0)
    then false
    else ltb 0 (u16_at response 6)
