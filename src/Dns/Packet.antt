-- ===== src/Dns/Packet.antt =====
-- The packets that main/dns_server.c reads and builds.
pub mod Parsing
pub mod Names
pub mod Answers
use esp32_wifi_ap_cp.Base.{
  ℕ, zero, suc, ◌+◌, ◌-◌, ◌*◌, Bool, true, false, not, ◌&&◌, ◌||◌, Option, none, some, List, [],
  ◌∷◌, ◌++◌, if◌then◌else◌, ◌==◌, ltb, leb, length, get_or, set, take, drop, bit_and, is_empty, map,
}
use esp32_wifi_ap_cp.Hook.{bytes_of}

abbrev pub dns_buffer_size : ℕ
dns_buffer_size = 512

abbrev pub dns_ttl_seconds : ℕ
dns_ttl_seconds = 60

abbrev pub byte_at : List ℕ → ℕ → ℕ
byte_at packet i = get_or packet i 0

-- ntohs of the two bytes at an offset.
abbrev pub u16_at : List ℕ → ℕ → ℕ
u16_at packet i = byte_at packet i * 256 + byte_at packet (i + 1)

-- The loop of dns_skip_name. Each round moves on by a byte at least, so the fuel lasts.
unfoldable pub skip_from : ℕ → List ℕ → ℕ → ℕ
skip_from zero packet offset = 0
skip_from (suc n) packet offset =
    let len = byte_at packet offset in
    let rest = skip_from n packet (offset + 1 + len) in
    if not (ltb offset (length packet))
    then 0
    else if len == 0
    then offset + 1
    else if bit_and len 0xC0 == 0xC0
    then if ltb (offset + 1) (length packet) then offset + 2 else 0
    else if ltb (length packet) (offset + 1 + len)
    then 0
    else rest

unfoldable pub dns_skip_name : List ℕ → ℕ → ℕ
dns_skip_name packet offset = skip_from (suc (length packet)) packet offset

unfoldable pub dns_is_a_record_query : List ℕ → Bool
dns_is_a_record_query packet =
    let question_end = dns_skip_name packet 12 in
    if (question_end == 0) || ltb (length packet) (question_end + 4)
    then false
    else (u16_at packet question_end == 1) && (u16_at packet (question_end + 2) == 1)

-- char qname[96], of which one byte is the NUL.
abbrev pub name_room : ℕ
name_room = 95

-- A label, with a dot before it, as far as there is room.
abbrev pub append_label : List ℕ → List ℕ → List ℕ
append_label name label =
    let dotted =
      if ltb 0 (length name) && ltb (length name) name_room then name ++ (46 ∷ []) else name in
    dotted ++ take (name_room - length dotted) label

-- The labels read, and the offset after them; not `ok` where the loop returned false.
pub record Labels : Type 0 where
  pub ok : Bool
  pub name : List ℕ
  pub offset : ℕ

pub labels_from : ℕ → List ℕ → ℕ → List ℕ → Labels
labels_from zero packet offset name = record { ok = true; name = name; offset = offset }
labels_from (suc n) packet offset name =
    let label_len = byte_at packet offset in
    let label = take label_len (drop (offset + 1) packet) in
    let rest = labels_from n packet (offset + 1 + label_len) (append_label name label) in
    if not (ltb offset (length packet))
    then record { ok = true; name = name; offset = offset }
    else if label_len == 0
    then record { ok = true; name = name; offset = offset + 1 }
    else if not (bit_and label_len 0xC0 == 0) || ltb (length packet) (offset + 1 + label_len)
    then record { ok = false; name = name; offset = offset + 1 }
    else rest

-- The result, `name_out` and `qtype_out`.
pub record Question : Type 0 where
  pub ok : Bool
  pub name : List ℕ
  pub qtype : ℕ

-- `unknown` and 0 are what the caller put in before.
unfoldable pub dns_get_question_info : List ℕ → List ℕ → Question
dns_get_question_info unknown packet =
    let labels = labels_from (suc (length packet)) packet 12 [] in
    if ltb (length packet) 16
    then record { ok = false; name = unknown; qtype = 0 }
    else if not labels.ok || ltb (length packet) (labels.offset + 4)
    then record { ok = false; name = labels.name; qtype = 0 }
    else record { ok = true; name = labels.name; qtype = u16_at packet labels.offset }

-- The header of the response, over the bytes of the query.
abbrev pub answer_header : Bool → List ℕ → List ℕ
answer_header with_answer bytes =
    set
      (set
        (set
          (set (set (set (set (set bytes 2 0x81) 3 0x80) 6 0) 7 (if with_answer then 1 else 0)) 8 0)
          9 0)
        10 0)
      11 0

-- The answer record: a pointer to the name at 12, type A, class IN, and the portal's address.
abbrev pub portal_answer : ℕ → List ℕ
portal_answer my_ap_ip =
    0xC0 ∷ 0x0C ∷ 0 ∷ 1 ∷ 0 ∷ 1 ∷ 0 ∷ 0 ∷ 0 ∷ dns_ttl_seconds ∷ 0 ∷ 4 ∷ bytes_of my_ap_ip

-- The bytes of `response` that count; `none` for -1.
unfoldable pub build_dns_response : ℕ → List ℕ → ℕ → Bool → Option (List ℕ)
build_dns_response my_ap_ip query response_size answer_with_portal_ip =
    let question_end = dns_skip_name query 12 in
    let response = answer_header answer_with_portal_ip (take (question_end + 4) query) in
    if ltb (length query) 12 || ltb response_size (length query) || ltb response_size 32
    then none
    else if (question_end == 0) || ltb (length query) (question_end + 4)
    then none
    else if not answer_with_portal_ip
    then some response
    else if ltb response_size (question_end + 20)
    then none
    else some (response ++ portal_answer my_ap_ip)

abbrev pub set_servfail : Option (List ℕ) → Option (List ℕ)
set_servfail none = none
set_servfail (some response) = some (set response 3 0x82)

unfoldable pub build_dns_servfail_response : ℕ → List ℕ → ℕ → Option (List ℕ)
build_dns_servfail_response my_ap_ip query response_size =
    set_servfail (build_dns_response my_ap_ip query response_size false)

-- tolower of each byte before the NUL.
abbrev pub to_lower : ℕ → ℕ
to_lower c = if leb 65 c && leb c 90 then c + 32 else c

-- The bytes before the first NUL.
abbrev pub before_nul : List ℕ → List ℕ
before_nul [] = []
before_nul (c ∷ cs) = let rest = before_nul cs in if c == 0 then [] else c ∷ rest

unfoldable pub dns_cache_normalize_qname : List ℕ → List ℕ
dns_cache_normalize_qname qname = map to_lower (before_nul qname)
