-- ===== src/Config/Text/Decoding.antt =====
-- preprocess_string of components/cmd_router/cmd_router.c undoes the encoding of a form.
use esp32_wifi_ap_cp.Base.{
  ℕ, ◌+◌, ◌*◌, ◌≤◌, ◌<◌, ◌≡◌, ◌≢◌, refl, ap, sym, ◌∙◌, List, [], ◌∷◌, arith, ◌⊎◌, inl, inr,
}
use esp32_wifi_ap_cp.Config.Text.{hex_digit, unhex, plain, decode, before_nul, preprocess_string}

-- A hexadecimal digit, in either case, and its value.
abbrev pub IsHex : ℕ → ℕ → Type 0
IsHex c v =
    ((v < 10) × (c ≡ b'0' + v))
    ⊎ (((10 ≤ v) × (v < 16) × (c + 10 ≡ b'A' + v)) ⊎ ((10 ≤ v) × (v < 16) × (c + 10 ≡ b'a' + v)))

-- The texts that stand for a text in a form: a character as it is, unless it is `%` or `+`, a blank as
-- `+`, and any character by its two digits.
pub data Encodes : List ℕ → List ℕ → Type 0 where
  done : Encodes [] []
  as_is :
      (c : ℕ) {s e : List ℕ} → c ≢ 0 → c ≢ b'%' → c ≢ b'+' → Encodes s e → Encodes (c ∷ s) (c ∷ e)
  blank : {s e : List ℕ} → Encodes s e → Encodes (b' ' ∷ s) (b'+' ∷ e)
  quoted :
      (c h l hi lo : ℕ) {s e : List ℕ}
      → c ≡ hi * 16 + lo
      → c ≢ 0
      → IsHex h hi
      → IsHex l lo
      → Encodes s e
      → Encodes (c ∷ s) (b'%' ∷ h ∷ l ∷ e)

hex_digit_lem : (c v : ℕ) → IsHex c v → (hex_digit c ≡ v) × (v < 16)
unfolding hex_digit
hex_digit_lem c v (inl d) = ground arith
hex_digit_lem c v (inr (inl d)) = ground arith
hex_digit_lem c v (inr (inr d)) = ground arith

unhex_lem : (h l hi lo : ℕ) → IsHex h hi → IsHex l lo → unhex h l ≡ hi * 16 + lo
unfolding unhex
unhex_lem h l hi lo a b = omega (arith, hex_digit_lem h hi a, hex_digit_lem l lo b)

decode-plain : (c : ℕ) (e : List ℕ) → c ≢ b'%' → decode (c ∷ e) ≡ plain c ∷ decode e
unfolding decode
decode-plain c [] n = refl
decode-plain c (d ∷ []) n = refl
decode-plain c (h ∷ l ∷ rest) n = ground arith

before_nul_cons : (c : ℕ) (cs : List ℕ) → c ≢ 0 → before_nul (c ∷ cs) ≡ c ∷ before_nul cs
unfolding before_nul
before_nul_cons c cs n = ground arith

decode_quoted : (h l : ℕ) (e : List ℕ) → decode (b'%' ∷ h ∷ l ∷ e) ≡ unhex h l ∷ decode e
unfolding decode
decode_quoted h l e = refl

decode-Encodes : {s e : List ℕ} → Encodes s e → before_nul (decode e) ≡ s
decode-Encodes done = unfold before_nul decode in refl
decode-Encodes (as_is c {s = s} {e = e} nul percent plus rest) =
    let kept : plain c ≡ c = ground arith in
    rw (decode-plain c e percent, kept, before_nul_cons c (decode e) nul)
      (ap (◌∷◌ c) (decode-Encodes rest))
decode-Encodes (blank {s = s} {e = e} rest) =
    rw (decode-plain b'+' e (λ h. omega arith), before_nul_cons b' ' (decode e) (λ h. omega arith))
      (ap (◌∷◌ b' ') (decode-Encodes rest))
decode-Encodes (quoted c h l hi lo {s = s} {e = e} value nul high low rest) =
    let read : unhex h l ≡ c = unhex_lem h l hi lo high low ∙ sym value in
    rw (decode_quoted h l e, read, before_nul_cons c (decode e) nul)
      (ap (◌∷◌ c) (decode-Encodes rest))

-- Whichever way a text without NULs is encoded for a form, decoding gives the text back.
pub preprocess_undoes_encoding : {s e : List ℕ} → Encodes s e → preprocess_string e ≡ s
unfolding preprocess_string
preprocess_undoes_encoding h = decode-Encodes h
