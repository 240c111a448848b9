-- ===== src/Hook/Checksum.antt =====
-- checksum_adjust of main/lwip_hooks.c keeps an Internet checksum right.
use esp32_wifi_ap_cp.Base.{ℕ, ◌+◌, ◌*◌, ◌%◌, ◌^◌, ◌<◌, ◌≡◌, List, [], ◌∷◌, arith, All}
use esp32_wifi_ap_cp.Hook.{
  subtract_word, add_word, subtract_words, add_words, complement, checksum_adjust,
}

-- The words of the bytes, added up without a carry.
abbrev pub sum_words : List ℕ → ℕ
sum_words [] = 0
sum_words (a ∷ []) = 0
sum_words (a ∷ b ∷ rest) = a * 256 + b + sum_words rest

abbrev pub IsByte : ℕ → Type 0
IsByte b = b < 256

subtract_words_lem :
    (bs : List ℕ) (x : ℕ)
    → All IsByte bs
    → x < 65536
    → (subtract_words bs x < 65536) × ((subtract_words bs x + sum_words bs) % 65535 ≡ x % 65535)
unfolding subtract_words
subtract_words_lem [] x h l = (l, omega arith)
subtract_words_lem (a ∷ []) x h l = (l, omega arith)
subtract_words_lem (a ∷ b ∷ bs) x h l =
    let step =
      subtract_words_lem bs (subtract_word (a * 256 + b) x) h.1.1 (ground (arith, h.0, h.1.0)) in
    (step.0, ground (arith, h.0, h.1.0, step.1))

add_words_lem :
    (bs : List ℕ) (x : ℕ)
    → All IsByte bs
    → x < 65536
    → (add_words bs x < 65536) × (add_words bs x % 65535 ≡ (x + sum_words bs) % 65535)
unfolding add_words
add_words_lem [] x h l = (l, omega arith)
add_words_lem (a ∷ []) x h l = (l, omega arith)
add_words_lem (a ∷ b ∷ bs) x h l =
    let step = add_words_lem bs (add_word (a * 256 + b) x) h.1.1 (ground (arith, h.0, h.1.0)) in
    (step.0, ground (arith, h.0, h.1.0, step.1))

-- A checksum that verifies still does when bytes of the data it covers are exchanged and it is
-- adjusted: with `rest` the sum of the other words, the total stays a multiple of 0xFFFF.
pub checksum_adjust_verifies :
    (old_data new_data : List ℕ) (rest chksum : ℕ)
    → All IsByte old_data
    → All IsByte new_data
    → chksum < 2 ^ 16
    → (chksum + sum_words old_data + rest) % 65535 ≡ 0
    → (checksum_adjust old_data new_data chksum < 2 ^ 16)
      × ((checksum_adjust old_data new_data chksum + sum_words new_data + rest) % 65535 ≡ 0)
unfolding checksum_adjust
checksum_adjust_verifies old_data new_data rest chksum o n l v =
    let first = subtract_words_lem old_data (complement chksum) o (omega arith) in
    let second = add_words_lem new_data (subtract_words old_data (complement chksum)) n first.0 in
    (omega arith, omega (arith, first.0, first.1, second.0, second.1))
