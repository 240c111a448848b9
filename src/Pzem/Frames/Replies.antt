-- ===== src/Pzem/Frames/Replies.antt =====
-- What main/pzem_reader.c makes of a reply: a whole one is decoded, and none is taken whose CRC is wrong.
use esp32_wifi_ap_cp.Base.{
  ℕ, zero, suc, ◌+◌, ◌/◌, ◌%◌, ◌^◌, ◌<◌, ◌≡◌, refl, ap, ◌∙◌, true, List, [], ◌∷◌, ◌++◌, arith,
  length, take, All, All-get_or,
}
use esp32_wifi_ap_cp.Base.Errors.{esp_ok}
use esp32_wifi_ap_cp.Pzem.Frames.{
  Reading, Uart, response_bytes, func_read_input, byte_at, got_crc, crc_bytes, pzem_modbus_crc16,
  decode, pzem_v3_read,
}
use esp32_wifi_ap_cp.Pzem.Frames.Crc.{IsByte, crc_verifies}

-- A register on the wire, and a value of two registers, the low one first.
abbrev pub word : ℕ → List ℕ → List ℕ
word w rest = (w / 2 ^ 8) ∷ (w % 2 ^ 8) ∷ rest

abbrev pub long : ℕ → List ℕ → List ℕ
long l rest = word (l % 2 ^ 16) (word (l / 2 ^ 16) rest)

-- The reply of a meter, as its data sheet has it: voltage, current, power, energy, frequency, power
-- factor and alarm.
abbrev pub reply_body : ℕ → ℕ → ℕ → ℕ → ℕ → ℕ → ℕ → ℕ → List ℕ
reply_body addr v i p e f pf alarm =
    addr
    ∷ func_read_input
    ∷ 20
    ∷ word v (long i (long p (long e (word f (word pf (word alarm []))))))

abbrev pub with_crc : List ℕ → List ℕ → List ℕ
with_crc body rest = body ++ (crc_bytes (pzem_modbus_crc16 body) ++ rest)

-- Whatever the meter measures, in the width of its registers, is what is read from its reply.
pub reply_is_read :
    (addr v i p e f pf alarm : ℕ) (rest : List ℕ)
    → v < 2 ^ 16
    → i < 2 ^ 32
    → p < 2 ^ 32
    → e < 2 ^ 32
    → pzem_v3_read
        (record { written = true; received = with_crc (reply_body addr v i p e f pf alarm) rest })
      ≡ (esp_ok, record { voltage = v; current = i; power = p; energy_wh = e; valid = true })
unfolding pzem_v3_read decode
reply_is_read addr v i p e f pf alarm rest hv hi hp he = ground arith

bytes_take : (n : ℕ) (xs : List ℕ) → All IsByte xs → All IsByte (take n xs)
bytes_take zero xs v = tt
bytes_take (suc n) [] v = tt
bytes_take (suc n) (x ∷ xs) v = (v.0, bytes_take n xs v.1)

split_last_two :
    (n : ℕ) (xs : List ℕ)
    → length xs ≡ n + 2
    → xs ≡ take n xs ++ (byte_at xs n ∷ byte_at xs (suc n) ∷ [])
split_last_two zero [] h = absurd (omega arith)
split_last_two zero (x ∷ []) h = absurd (omega arith)
split_last_two zero (x ∷ y ∷ []) h = refl
split_last_two zero (x ∷ y ∷ z ∷ xs) h = absurd (omega arith)
split_last_two (suc n) [] h = absurd (omega arith)
split_last_two (suc n) (x ∷ xs) h = ap (◌∷◌ x) (split_last_two n xs (omega arith))

crc_verifies_at :
    (xs : List ℕ)
    → All IsByte xs
    → length xs ≡ 25
    → got_crc xs ≡ pzem_modbus_crc16 (take 23 xs)
    → pzem_modbus_crc16 xs ≡ 0
crc_verifies_at xs v l e =
    let c = pzem_modbus_crc16 (take 23 xs) in
    let lo : byte_at xs 23 < 2 ^ 8 = All-get_or IsByte xs 23 0 (omega arith) v in
    let first : byte_at xs 23 ≡ c % 2 ^ 8 = omega arith in
    let second : byte_at xs 24 ≡ c / 2 ^ 8 = omega arith in
    let whole : xs ≡ take 23 xs ++ crc_bytes c =
      split_last_two 23 xs l
      ∙ ap (λ (a : ℕ). take 23 xs ++ (a ∷ byte_at xs 24 ∷ [])) first
      ∙ ap (λ (b : ℕ). take 23 xs ++ ((c % 2 ^ 8) ∷ b ∷ [])) second in
    ap pzem_modbus_crc16 whole ∙ crc_verifies (take 23 xs)

-- A reply is accepted only if it is whole, and its CRC, run over all 25 bytes, comes out as 0.
pub accepted_reply_verifies :
    (u : Uart) (r : Reading)
    → All IsByte u.received
    → pzem_v3_read u ≡ (esp_ok, r)
    → let resp = take response_bytes u.received in
      (length resp ≡ response_bytes)
      × (pzem_modbus_crc16 resp ≡ 0)
      × (byte_at resp 1 ≡ func_read_input)
unfolding pzem_v3_read
accepted_reply_verifies u r v h =
    let resp = take response_bytes u.received in
    ground (arith, crc_verifies_at resp (bytes_take response_bytes u.received v))
