-- ===== src/Pzem/Frames/Crc.antt =====
-- The CRC of main/pzem_reader.c: its range, and why a frame with its CRC behind verifies.
use esp32_wifi_ap_cp.Base.{
  ℕ, zero, suc, ◌+◌, ◌*◌, ◌/◌, ◌%◌, ◌^◌, ◌<◌, ◌≡◌, refl, ap, ◌∙◌, List, [], ◌∷◌, ◌++◌, bit_xor,
  arith, All,
}
use native.Mathlib.Nat.{pow-suc}
use esp32_wifi_ap_cp.Base.Bits.{bit_xor-lt, bit_xor_self, bit_xor_clears}
use esp32_wifi_ap_cp.Pzem.Frames.{crc_bit, crc_bits, crc_from, pzem_modbus_crc16, crc_bytes}

abbrev pub IsByte : ℕ → Type 0
IsByte b = b < 2 ^ 8

crc_bit-lt : (crc : ℕ) → crc < 2 ^ 16 → crc_bit crc < 2 ^ 16
unfolding crc_bit
crc_bit-lt crc h = ground (arith, bit_xor-lt 16 (crc / 2) 0xA001)

crc_bits-lt : (j crc : ℕ) → crc < 2 ^ 16 → crc_bits j crc < 2 ^ 16
unfolding crc_bits
crc_bits-lt zero crc h = h
crc_bits-lt (suc j) crc h = crc_bits-lt j (crc_bit crc) (crc_bit-lt crc h)

pub crc_from-lt : (crc : ℕ) (bs : List ℕ) → crc < 2 ^ 16 → All IsByte bs → crc_from crc bs < 2 ^ 16
unfolding crc_from
crc_from-lt crc [] h v = h
crc_from-lt crc (b ∷ bs) h v =
    crc_from-lt (crc_bits 8 (bit_xor crc b)) bs
      (crc_bits-lt 8 _ (bit_xor-lt 16 crc b h (omega (arith, v.0)))) v.1

-- An even value is only shifted.
crc_bit-even : (h : ℕ) → crc_bit (h * 2) ≡ h
unfolding crc_bit
crc_bit-even h = ground arith

-- With the low `j` bits clear, `j` rounds shift them out.
crc_bits-shift : (j h : ℕ) → crc_bits j (h * 2 ^ j) ≡ h
unfolding crc_bits
crc_bits-shift zero h = omega arith
crc_bits-shift (suc j) h =
    let even : h * 2 ^ suc j ≡ (h * 2 ^ j) * 2 =
      omega (arith, ap (λ (t : ℕ). h * t) (pow-suc 2 j)) in
    rw (even, crc_bit-even (h * 2 ^ j)) (crc_bits-shift j h)

crc_from-append :
    (crc : ℕ) (xs ys : List ℕ) → crc_from crc (xs ++ ys) ≡ crc_from (crc_from crc xs) ys
unfolding crc_from
crc_from-append crc [] ys = refl
crc_from-append crc (x ∷ xs) ys = crc_from-append (crc_bits 8 (bit_xor crc x)) xs ys

crc_bits_low : (crc : ℕ) → crc_bits 8 (bit_xor crc (crc % 2 ^ 8)) ≡ crc / 2 ^ 8
crc_bits_low crc =
    let split : crc ≡ crc / 2 ^ 8 * 2 ^ 8 + crc % 2 ^ 8 = omega arith in
    ap (λ (t : ℕ). crc_bits 8 (bit_xor t (crc % 2 ^ 8))) split
    ∙ ap (crc_bits 8) (bit_xor_clears 8 (crc / 2 ^ 8) (crc % 2 ^ 8) (omega arith))
    ∙ crc_bits-shift 8 (crc / 2 ^ 8)

crc_from_itself : (crc : ℕ) → crc_from crc (crc_bytes crc) ≡ 0
unfolding crc_from
crc_from_itself crc = rw (crc_bits_low crc, bit_xor_self (crc / 2 ^ 8)) (crc_bits-shift 8 0)

-- Run over a text with its own CRC behind, the CRC is 0.
pub crc_verifies : (bs : List ℕ) → pzem_modbus_crc16 (bs ++ crc_bytes (pzem_modbus_crc16 bs)) ≡ 0
unfolding pzem_modbus_crc16
crc_verifies bs =
    let crc = crc_from 0xFFFF bs in crc_from-append 0xFFFF bs (crc_bytes crc) ∙ crc_from_itself crc
