-- ===== src/Dns/Packet/Names.antt =====
-- dns_skip_name of main/dns_server.c on the names that a resolver writes.
use mathlib.Core.List.{append_assoc}
use esp32_wifi_ap_cp.Base.{
  ℕ, zero, suc, ◌+◌, ◌<◌, ◌≡◌, refl, ap, ◌∙◌, Bool, true, false, ◌&&◌, not, List, [], ◌∷◌, ◌++◌,
  arith, ◌==◌, ==→≡, Bool-cases, inl, inr, length, drop, bit_and, length-append, drop-append, All,
}
use esp32_wifi_ap_cp.Dns.Packet.{byte_at, skip_from, dns_skip_name}

abbrev all_below : ℕ → Bool
all_below zero = true
all_below (suc n) = not (bit_and n 0xC0 == 0xC0) && all_below n

below_lem : (m n : ℕ) → n < m → all_below m ≡ true → (bit_and n 0xC0 == 0xC0) ≡ false
below_lem zero n l h = absurd (omega arith)
below_lem (suc m) n l h = elim (Bool-cases (n == m)) [
  | inl e ↦ rw (==→≡ n m e) (ground (arith, h))
  | inr e ↦ below_lem m n (ground (arith, e, l)) (ground (arith, h))
]

small : (n : ℕ) → n < 64 → (bit_and n 0xC0 == 0xC0) ≡ false
small n l = below_lem 64 n l refl

-- The labels of a name, each behind its length, and a 0.
abbrev pub encode : List (List ℕ) → List ℕ
encode [] = 0 ∷ []
encode (l ∷ ls) = length l ∷ (l ++ encode ls)

-- A label has 1 to 63 bytes.
abbrev pub IsLabel : List ℕ → Type 0
IsLabel l = (0 < length l) × (length l < 64)

next : (o : ℕ) → suc o + 1 ≡ suc (o + 1)
next o = omega arith

drop_head :
    (p : List ℕ) (o x : ℕ) (xs : List ℕ)
    → drop o p ≡ x ∷ xs
    → (byte_at p o ≡ x) × (o < length p) × (drop (o + 1) p ≡ xs)
drop_head [] zero x xs h = cc
drop_head [] (suc o) x xs h = cc
drop_head (y ∷ p) zero x xs h = (cc, omega arith, cc)
drop_head (y ∷ p) (suc o) x xs h =
    let r = drop_head p o x xs h in
    (r.0, omega (arith, r.1), ap (λ k. drop k (y ∷ p)) (next o) ∙ r.2)

drop_more :
    (p : List ℕ) (o : ℕ) (xs ys : List ℕ) → drop o p ≡ xs ++ ys → drop (o + length xs) p ≡ ys
drop_more p o [] ys h = ap (λ k. drop k p) (omega arith) ∙ h
drop_more p o (x ∷ xs) ys h =
    ap (λ k. drop k p) (omega arith) ∙ drop_more p (o + 1) xs ys (drop_head p o x (xs ++ ys) h).2

-- Where a name begins, the packet goes on.
fits :
    (p : List ℕ) (o : ℕ) (ls : List (List ℕ)) (rest : List ℕ)
    → drop o p ≡ encode ls ++ rest
    → o < length p
fits p o [] rest h = (drop_head p o 0 rest h).1
fits p o (l ∷ ls) rest h = (drop_head p o (length l) _ h).1

skip_from_encoded :
    (labels : List (List ℕ)) (n : ℕ) (packet rest : List ℕ) (offset : ℕ)
    → All IsLabel labels
    → drop offset packet ≡ encode labels ++ rest
    → length packet < n + offset
    → skip_from n packet offset ≡ offset + length (encode labels)
unfolding skip_from
skip_from_encoded [] zero packet rest offset a d f =
    absurd (omega (arith, f, (drop_head packet offset 0 rest d).1))
skip_from_encoded [] (suc n) packet rest offset a d f =
    let at = drop_head packet offset 0 rest d in ground (arith, at)
skip_from_encoded (l ∷ ls) zero packet rest offset a d f =
    absurd (omega (arith, f, (drop_head packet offset (length l) _ d).1))
skip_from_encoded (l ∷ ls) (suc n) packet rest offset a d f =
    let at = drop_head packet offset (length l) ((l ++ encode ls) ++ rest) d in
    let after =
      drop_more packet (offset + 1) l (encode ls ++ rest)
        (at.2 ∙ append_assoc l (encode ls) rest) in
    let rest_skipped =
      skip_from_encoded ls n packet rest (offset + 1 + length l) a.1 after (omega (arith, f)) in
    ground (
      arith,
      at.0,
      at.1,
      a.0,
      small (length l) a.0.1,
      fits packet (offset + 1 + length l) ls rest after,
      rest_skipped,
      length-append l (encode ls),
    )

-- On a name of labels of 1 to 63 bytes each, anywhere in a packet, dns_skip_name ends, and answers the offset
-- of what follows the name's 0.
pub encoded_name_is_skipped :
    (labels : List (List ℕ)) (before after : List ℕ)
    → All IsLabel labels
    → dns_skip_name (before ++ (encode labels ++ after)) (length before)
      ≡ length before + length (encode labels)
unfolding dns_skip_name
encoded_name_is_skipped labels before after a =
    skip_from_encoded labels _ _ after (length before) a (drop-append before _) (omega arith)
