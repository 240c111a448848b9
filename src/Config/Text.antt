-- ===== src/Config/Text.antt =====
-- preprocess_string and mask_value of components/cmd_router/cmd_router.c. A char is unsigned, as on the
-- ESP32; a C string is the bytes before its NUL.
pub mod Decoding
use esp32_wifi_ap_cp.Base.{
  ℕ, ◌+◌, ◌-◌, ◌*◌, ◌%◌, Bool, true, false, ◌&&◌, Option, none, some, List, [], ◌∷◌, if◌then◌else◌,
  ◌==◌, leb,
}

abbrev pub toupper : ℕ → ℕ
toupper c = if leb b'a' c && leb c b'z' then c - 32 else c

-- A digit in a uint8_t.
unfoldable pub hex_digit : ℕ → ℕ
hex_digit c = if leb c b'9' then (c + 256 - b'0') % 256 else (toupper c + 256 - b'A' + 10) % 256

unfoldable pub unhex : ℕ → ℕ → ℕ
unhex h l = (hex_digit h * 16 % 256 + hex_digit l) % 256

abbrev pub plain : ℕ → ℕ
plain c = if c == b'+' then b' ' else c

-- The loop of preprocess_string: a `%` counts as a quote only with two characters behind.
unfoldable pub decode : List ℕ → List ℕ
decode [] = []
decode (c ∷ []) = plain c ∷ []
decode (c ∷ d ∷ []) = plain c ∷ decode (d ∷ [])
decode (c ∷ h ∷ l ∷ rest) = elim (c == b'%') [
  | true ↦ unhex h l ∷ decode rest
  | false ↦ plain c ∷ decode (h ∷ l ∷ rest)
]

-- What a C string reads as: a quoted NUL ends it.
unfoldable pub before_nul : List ℕ → List ℕ
before_nul [] = []
before_nul (c ∷ cs) = let rest = before_nul cs in if c == 0 then [] else c ∷ rest

unfoldable pub preprocess_string : List ℕ → List ℕ
preprocess_string str = before_nul (decode str)

-- "<empty>" and "********"
abbrev pub mask_empty : List ℕ
mask_empty = b'<' ∷ b'e' ∷ b'm' ∷ b'p' ∷ b't' ∷ b'y' ∷ b'>' ∷ []

abbrev pub mask_stars : List ℕ
mask_stars = b'*' ∷ b'*' ∷ b'*' ∷ b'*' ∷ b'*' ∷ b'*' ∷ b'*' ∷ b'*' ∷ []

-- The buffers that it fills have room for 16 bytes.
unfoldable pub mask_value : Option (List ℕ) → List ℕ
mask_value none = mask_empty
mask_value (some []) = mask_empty
mask_value (some (c ∷ cs)) = mask_stars
