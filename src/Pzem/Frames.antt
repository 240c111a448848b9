-- ===== src/Pzem/Frames.antt =====
-- The Modbus frames of main/pzem_reader.c. The floats are whole numbers of the registers' units: 0.1 V,
-- 1 mA, 0.1 W and 1 Wh.
pub mod Crc
pub mod Replies
use esp32_wifi_ap_cp.Base.{
  ℕ, zero, suc, ◌+◌, ◌*◌, ◌/◌, ◌%◌, ◌^◌, Bool, true, false, not, ◌||◌, List, [], ◌∷◌, ◌++◌, bit_xor,
  if◌then◌else◌, ◌==◌, length, get_or, take,
}
use esp32_wifi_ap_cp.Base.Errors.{EspErr, esp_ok, esp_fail, esp_err_timeout}

abbrev pub slave_addr : ℕ
slave_addr = 0xF8

abbrev pub func_read_input : ℕ
func_read_input = 0x04

abbrev pub reg_start : ℕ
reg_start = 0

abbrev pub reg_count : ℕ
reg_count = 10

abbrev pub response_bytes : ℕ
response_bytes = 25

-- (crc & 1) ? ((crc >> 1) ^ 0xA001) : (crc >> 1)
unfoldable pub crc_bit : ℕ → ℕ
crc_bit crc = if crc % 2 == 1 then bit_xor (crc / 2) 0xA001 else crc / 2

unfoldable pub crc_bits : ℕ → ℕ → ℕ
crc_bits zero crc = crc
crc_bits (suc j) crc = crc_bits j (crc_bit crc)

unfoldable pub crc_from : ℕ → List ℕ → ℕ
crc_from crc [] = crc
crc_from crc (b ∷ bs) = crc_from (crc_bits 8 (bit_xor crc b)) bs

unfoldable pub pzem_modbus_crc16 : List ℕ → ℕ
pzem_modbus_crc16 buf = crc_from 0xFFFF buf

abbrev pub request_head : List ℕ
request_head =
    slave_addr
    ∷ func_read_input
    ∷ (reg_start / 2 ^ 8)
    ∷ (reg_start % 2 ^ 8)
    ∷ (reg_count / 2 ^ 8)
    ∷ (reg_count % 2 ^ 8)
    ∷ []

-- The bytes of a CRC on the wire, the low one first.
abbrev pub crc_bytes : ℕ → List ℕ
crc_bytes crc = (crc % 2 ^ 8) ∷ (crc / 2 ^ 8) ∷ []

unfoldable pub request : List ℕ
request = request_head ++ crc_bytes (pzem_modbus_crc16 request_head)

-- pzem_reading_t
pub record Reading : Type 0 where
  pub voltage : ℕ
  pub current : ℕ
  pub power : ℕ
  pub energy_wh : ℕ
  pub valid : Bool

abbrev pub no_reading : Reading
no_reading = record { voltage = 0; current = 0; power = 0; energy_wh = 0; valid = false }

-- What the UART does with a request: whether all of it was written, and the bytes it reads.
pub record Uart : Type 0 where
  pub written : Bool
  pub received : List ℕ

abbrev pub byte_at : List ℕ → ℕ → ℕ
byte_at resp i = get_or resp i 0

-- (resp[i] << 8) | resp[i + 1]
abbrev pub word_at : List ℕ → ℕ → ℕ
word_at resp i = byte_at resp i * 2 ^ 8 + byte_at resp (i + 1)

-- (high << 16) | low, the low register first.
abbrev pub long_at : List ℕ → ℕ → ℕ
long_at resp i = word_at resp (i + 2) * 2 ^ 16 + word_at resp i

unfoldable pub decode : List ℕ → Reading
decode resp = record {
  voltage = word_at resp 3;
  current = long_at resp 5;
  power = long_at resp 9;
  energy_wh = long_at resp 13;
  valid = true;
}

-- resp[23] | (resp[24] << 8)
abbrev pub got_crc : List ℕ → ℕ
got_crc resp = byte_at resp 23 + byte_at resp 24 * 2 ^ 8

-- The error, and the reading that the caller had cleared.
unfoldable pub pzem_v3_read : Uart → EspErr × Reading
pzem_v3_read u =
    let resp = take response_bytes u.received in
    if not u.written
    then (esp_fail, no_reading)
    else if length resp == 0
    then (esp_err_timeout, no_reading)
    else if not (length resp == response_bytes)
    then (esp_fail, no_reading)
    else if not (byte_at resp 1 == func_read_input) || not (byte_at resp 2 == 20)
    then (esp_fail, no_reading)
    else if not (got_crc resp == pzem_modbus_crc16 (take 23 resp))
    then (esp_fail, no_reading)
    else (esp_ok, decode resp)
