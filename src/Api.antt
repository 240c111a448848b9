-- ===== src/Api.antt =====
-- The JSON requests of main/admin_ports.c. Its pages are HTML alone.
pub mod Rendering
pub mod Updates
use esp32_wifi_ap_cp.Base.{
  ℕ, zero, ◌+◌, ◌-◌, Bool, true, false, not, ◌||◌, Option, none, some, List, [], ◌∷◌, ◌++◌,
  if◌then◌else◌, ◌==◌, leb, ltb, length, take, is_empty, str_eq,
}
use esp32_wifi_ap_cp.Base.Errors.{EspErr, is_ok}
use esp32_wifi_ap_cp.Base.Texts.{
  ℤ, codes, find_after, char_after, char_before, skip_while, atoi, decimal, hex_byte,
}
use esp32_wifi_ap_cp.Config.Text.{before_nul}
use esp32_wifi_ap_cp.Portal.Sessions.{strlcpy}
use esp32_wifi_ap_cp.Ports.Bus.{I2c, Ports, port_sensors_scan_i2c}
use esp32_wifi_ap_cp.Ports.Sync.{port_sensors_sync_once}

-- What httpd_req_recv gives: bytes, of which it takes no more than it is asked for, a timeout, or another
-- error. After the last one the connection is closed.
pub data Recv : Type 0 where
  bytes : List ℕ → Recv
  timeout recv_error : Recv

-- `total` bytes are to come, `got` are there.
unfoldable pub receive : ℕ → List ℕ → List Recv → Option (List ℕ)
receive total got [] = none
receive total got (Recv.timeout ∷ rs) = receive total got rs
receive total got (Recv.recv_error ∷ rs) = none
receive total got (Recv.bytes bs ∷ rs) =
    let more = take (total - length got) bs in
    let rest = receive total (got ++ more) rs in
    if is_empty more
    then none
    else if leb total (length (got ++ more))
    then some (got ++ more)
    else rest

pub record Request : Type 0 where
  pub content_len : ℕ
  pub body : List Recv

-- The bytes, for a buffer of `buf_len` bytes; as a C string they end at the first NUL.
unfoldable pub read_body : ℕ → Request → Option (List ℕ)
read_body buf_len r =
    if (r.content_len == 0) || leb buf_len r.content_len
    then none
    else receive r.content_len [] r.body

abbrev pub is_blank : ℕ → Bool
is_blank c = (c == b' ') || (c == 9)

-- What is behind the field's name, its colon, and blanks.
abbrev pub after_colon : Option (List ℕ) → Option (List ℕ)
after_colon none = none
after_colon (some text) = char_after b':' text

abbrev pub field_text : List ℕ → List ℕ → Option (List ℕ)
field_text json key =
    if leb 64 (length key + 2)
    then none
    else after_colon (find_after (b'"' ∷ (key ++ (b'"' ∷ []))) json)

abbrev pub if_fits : ℕ → Option (List ℕ) → Option (List ℕ)
if_fits out_len none = none
if_fits out_len (some v) = if leb out_len (length v) then none else some v

abbrev pub string_value : ℕ → List ℕ → Option (List ℕ)
string_value out_len [] = none
string_value out_len (c ∷ cs) = if c == b'"' then if_fits out_len (char_before b'"' cs) else none

abbrev pub string_of : ℕ → Option (List ℕ) → Option (List ℕ)
string_of out_len none = none
string_of out_len (some text) = string_value out_len (skip_while is_blank text)

unfoldable pub json_str_field : List ℕ → List ℕ → ℕ → Option (List ℕ)
json_str_field json key out_len = string_of out_len (field_text json key)

abbrev pub number_of : Option (List ℕ) → Option ℤ
number_of none = none
number_of (some text) = some (atoi (skip_while is_blank text))

unfoldable pub json_int_field : List ℕ → List ℕ → Option ℤ
json_int_field json key = number_of (field_text json key)

unfoldable pub is_known_port : List ℕ → Bool
is_known_port key =
    str_eq key (codes "usb_a_1")
    || (str_eq key (codes "usb_a_2")
        || (str_eq key (codes "usb_c_1")
            || (str_eq key (codes "usb_c_2") || str_eq key (codes "outlet"))))

unfoldable pub is_known_status : List ℕ → Bool
is_known_status status =
    str_eq status (codes "available")
    || (str_eq status (codes "in_use")
        || (str_eq status (codes "offline") || str_eq status (codes "fault")))

-- The answers.
pub data Answer : Type 0 where
  answered body_required need_fields unknown_port unknown_status : Answer
  post_failed sensors_disabled scan_failed sync_failed : Answer

abbrev pub answer_of : EspErr → Answer
answer_of err = if is_ok err then Answer.answered else Answer.post_failed

-- The JSON text that is sent for a port.
unfoldable pub port_payload : List ℕ → List ℕ → List ℕ
port_payload key status = strlcpy 192 (
    codes "{\"station_id\":\"solar-hub-01\",\"port_key\":\""
    ++ (key ++ (codes "\",\"status\":\"" ++ (status ++ codes "\"}"))))

-- What supabase_post_upsert answers for a text is a parameter. The text that was sent, if one was.
abbrev pub Posted : Type 0
Posted = Answer × Option (List ℕ)

abbrev pub post_port : (List ℕ → EspErr) → List ℕ → List ℕ → Posted
post_port upsert key status =
    if not (is_known_port key)
    then (Answer.unknown_port, none)
    else if not (is_known_status status)
    then (Answer.unknown_status, none)
    else (answer_of (upsert (port_payload key status)), some (port_payload key status))

abbrev pub post_fields : (List ℕ → EspErr) → Option (List ℕ) → Option (List ℕ) → Posted
post_fields upsert none status = (Answer.need_fields, none)
post_fields upsert (some key) none = (Answer.need_fields, none)
post_fields upsert (some key) (some status) = post_port upsert key status

abbrev pub post_body : (List ℕ → EspErr) → Option (List ℕ) → Posted
post_body upsert none = (Answer.body_required, none)
post_body upsert (some bs) =
    let body = before_nul bs in
    post_fields upsert (json_str_field body (codes "port_key") 32)
      (json_str_field body (codes "status") 24)

unfoldable pub api_ports_handler : (List ℕ → EspErr) → Request → Posted
api_ports_handler upsert r = post_body upsert (read_body 256 r)

-- if (pct < 0) pct = 0; if (pct > 100) pct = 100;
unfoldable pub clamp_percent : ℤ → ℕ
clamp_percent (ℤ.negsuc n) = 0
clamp_percent (ℤ.pos n) = if ltb 100 n then 100 else n

unfoldable pub battery_payload : ℕ → List ℕ
battery_payload pct =
    strlcpy 128
      (codes "{\"station_id\":\"solar-hub-01\",\"battery_percent\":" ++ (decimal pct ++ codes "}"))

abbrev pub post_percent : (List ℕ → EspErr) → Option ℤ → Posted
post_percent upsert none = (Answer.need_fields, none)
post_percent upsert (some n) =
    let payload = battery_payload (clamp_percent n) in (answer_of (upsert payload), some payload)

abbrev pub post_battery : (List ℕ → EspErr) → Option (List ℕ) → Posted
post_battery upsert none = (Answer.body_required, none)
post_battery upsert (some bs) =
    post_percent upsert (json_int_field (before_nul bs) (codes "battery_percent"))

unfoldable pub api_battery_handler : (List ℕ → EspErr) → Request → Posted
api_battery_handler upsert r = post_battery upsert (read_body 128 r)

-- vsnprintf of a text at the end of the buffer's, cut to what there is room for.
unfoldable pub json_append : ℕ → List ℕ → List ℕ → List ℕ
json_append buf_len piece buf =
    let offset = length buf in
    if leb buf_len offset
    then buf
    else if leb (buf_len - offset) (length piece)
    then buf ++ take (buf_len - offset - 1) piece
    else buf ++ piece

unfoldable pub append_pieces : ℕ → List (List ℕ) → List ℕ → List ℕ
append_pieces buf_len [] buf = buf
append_pieces buf_len (p ∷ ps) buf = append_pieces buf_len ps (json_append buf_len p buf)

-- The addresses, each but the first with a comma before it.
unfoldable pub address_pieces : Bool → List ℕ → List (List ℕ)
address_pieces first [] = []
address_pieces first (a ∷ rest) =
    ((if first then [] else b',' ∷ []) ++ (b'"' ∷ (hex_byte a ++ (b'"' ∷ []))))
    ∷ address_pieces false rest

abbrev pub scan_head : List ℕ
scan_head =
    codes "{\"ok\":true,\"enabled\":true,\"sda_gpio\":21,\"scl_gpio\":22,\"expected\":["
    ++ codes "\"0x44\",\"0x41\",\"0x40\",\"0x45\"],\"detected\":["

unfoldable pub scan_pieces : List ℕ → ℕ → List (List ℕ)
scan_pieces found count =
    scan_head
    ∷ (address_pieces true found ++ ((codes "],\"count\":" ++ (decimal count ++ codes "}")) ∷ []))

unfoldable pub api_ports_i2c_scan_handler : I2c → Ports → Answer × List ℕ × Ports
api_ports_i2c_scan_handler io s =
    let (err, found, count, s1) = port_sensors_scan_i2c io 32 s in
    if is_ok err
    then (Answer.answered, append_pieces 768 (scan_pieces found count) [], s1)
    else (Answer.scan_failed, [], s1)

unfoldable pub api_ports_sensor_sync_handler : I2c → (ℕ → EspErr) → Ports → Answer × Ports
api_ports_sensor_sync_handler io post s =
    let (err, s1) = port_sensors_sync_once io post s in
    if is_ok err then (Answer.answered, s1) else (Answer.sync_failed, s1)
