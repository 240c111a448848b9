-- ===== src/Base/Texts.antt =====
-- C strings as lists of bytes: string.h's searches, printf's numbers, atoi.
use Prim.Native.Char.{code}
use Prim.Native.Nat.{ℕ, zero, suc, ◌+◌, ◌-◌, ◌*◌, ◌/◌, ◌%◌, ◌≤◌}
use Prim.Native.String.{String}
use mathlib.Core.Bool.{Bool, true, false, ◌&&◌, ◌||◌}
use mathlib.Core.List.{List, [], ◌∷◌, ◌++◌, append_assoc}
use mathlib.Core.Option.{Option, none, some}
use mathlib.Core.Path.{◌≡◌, refl, ap, sym, ◌∙◌}
use native.Mathlib.Omega.{arith}
use esp32_wifi_ap_cp.Base.Lists.{drop, length, take}
use esp32_wifi_ap_cp.Base.Tests.{◌==◌, leb, ltb, if◌then◌else◌, is_empty}

-- The bytes of a literal.
abbrev pub codes : String → List ℕ
codes String.[] = []
codes (String.◌∷◌ c s) = code c ∷ codes s

-- An int.
pub data ℤ : Type 0 where
  pos negsuc : ℕ → ℤ

abbrev pub starts_with : List ℕ → List ℕ → Bool
starts_with [] text = true
starts_with (p ∷ ps) [] = false
starts_with (p ∷ ps) (c ∷ cs) = let rest = starts_with ps cs in if p == c then rest else false

-- strstr, from behind the pattern on.
abbrev pub find_after : List ℕ → List ℕ → Option (List ℕ)
find_after pattern [] = if is_empty pattern then some [] else none
find_after pattern (c ∷ cs) =
    let rest = find_after pattern cs in
    if starts_with pattern (c ∷ cs) then some (drop (length pattern) (c ∷ cs)) else rest

-- strchr: what is behind the character, and what is before it.
abbrev pub char_after : ℕ → List ℕ → Option (List ℕ)
char_after d [] = none
char_after d (c ∷ cs) = let rest = char_after d cs in if c == d then some cs else rest

abbrev pub cons_some : ℕ → Option (List ℕ) → Option (List ℕ)
cons_some c none = none
cons_some c (some cs) = some (c ∷ cs)

abbrev pub char_before : ℕ → List ℕ → Option (List ℕ)
char_before d [] = none
char_before d (c ∷ cs) = let rest = char_before d cs in if c == d then some [] else cons_some c rest

abbrev pub skip_while : (ℕ → Bool) → List ℕ → List ℕ
skip_while p [] = []
skip_while p (c ∷ cs) = let rest = skip_while p cs in if p c then rest else c ∷ cs

-- isspace, isdigit
abbrev pub is_space : ℕ → Bool
is_space c = (c == b' ') || (leb 9 c && leb c 13)

abbrev pub is_digit : ℕ → Bool
is_digit c = leb b'0' c && leb c b'9'

abbrev pub number_from : ℕ → List ℕ → ℕ
number_from n [] = n
number_from n (c ∷ cs) =
    let rest = number_from (n * 10 + (c - b'0')) cs in if is_digit c then rest else n

abbrev pub negated : ℕ → ℤ
negated zero = ℤ.pos 0
negated (suc n) = ℤ.negsuc n

abbrev pub signed_number : List ℕ → ℤ
signed_number [] = ℤ.pos 0
signed_number (c ∷ cs) =
    if c == b'-'
    then negated (number_from 0 cs)
    else if c == b'+'
    then ℤ.pos (number_from 0 cs)
    else ℤ.pos (number_from 0 (c ∷ cs))

-- The value of a number that an int does not hold is left open by C; here it is the number.
unfoldable pub atoi : List ℕ → ℤ
atoi text = signed_number (skip_while is_space text)

-- %d and %u of a number below 10 ^ 10, the digits before `behind`.
abbrev pub decimal_from : ℕ → ℕ → List ℕ → List ℕ
decimal_from zero n behind = behind
decimal_from (suc digits) n behind =
    let here = (b'0' + n % 10) ∷ behind in
    let rest = decimal_from digits (n / 10) here in if ltb n 10 then here else rest

unfoldable pub decimal : ℕ → List ℕ
decimal n = decimal_from 10 n []

abbrev pub hex_char : ℕ → ℕ
hex_char d = if ltb d 10 then b'0' + d else b'A' + (d - 10)

-- 0x%02X of a byte.
abbrev pub hex_byte : ℕ → List ℕ
hex_byte b = b'0' ∷ b'x' ∷ hex_char (b / 16) ∷ hex_char (b % 16) ∷ []

abbrev pub concat : List (List ℕ) → List ℕ
concat [] = []
concat (p ∷ ps) = p ++ concat ps

pub concat-append : (ps qs : List (List ℕ)) → concat (ps ++ qs) ≡ concat ps ++ concat qs
concat-append [] qs = refl
concat-append (p ∷ ps) qs =
    ap (λ (zs : List ℕ). p ++ zs) (concat-append ps qs)
    ∙ sym (append_assoc p (concat ps) (concat qs))

decimal_from-length :
    (digits n : ℕ) (behind : List ℕ)
    → length (decimal_from digits n behind) ≤ digits + length behind
decimal_from-length zero n behind = omega arith
decimal_from-length (suc digits) n behind =
    ground (arith, decimal_from-length digits (n / 10) ((b'0' + n % 10) ∷ behind))

pub decimal-length : (n : ℕ) → length (decimal n) ≤ 10
unfolding decimal
decimal-length n = decimal_from-length 10 n []

-- strncpy and its like, of a text that fits.
pub take_all : (n : ℕ) (xs : List ℕ) → length xs ≤ n → take n xs ≡ xs
take_all zero [] h = refl
take_all zero (x ∷ xs) h = absurd (omega arith)
take_all (suc n) [] h = refl
take_all (suc n) (x ∷ xs) h = ap (◌∷◌ x) (take_all n xs (omega arith))
