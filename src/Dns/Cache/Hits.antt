-- ===== src/Dns/Cache/Hits.antt =====
-- What the cache of main/dns_server.c finds again.
use esp32_wifi_ap_cp.Base.{
  ℕ, zero, suc, ◌+◌, ◌-◌, ◌*◌, ◌<◌, ◌≤◌, ◌≡◌, refl, ap, sym, subst, inl, inr, Bool, true, false,
  ◌&&◌, Option, none, some, List, [], ◌∷◌, arith, ltb, length, set, take, is_empty, str_eq_refl,
  exists_slot, Bool-cases,
}
use esp32_wifi_ap_cp.Dns.Packet.{dns_buffer_size, name_room}
use esp32_wifi_ap_cp.Dns.Cache.{
  CacheEntry, dns_seconds_until_next_day, dns_cache_ttl_us, is_hit, dns_cache_lookup, int64_max,
  slot_or_zero, choose_slot, new_entry, dns_cache_insert,
}

-- The time that a response is kept is positive, and a day at most.
pub ttl_bounds :
    (wall : ℕ) → (0 < dns_cache_ttl_us wall) × (dns_cache_ttl_us wall ≤ 86400 * 1_000_000)
unfolding dns_cache_ttl_us dns_seconds_until_next_day
ttl_bounds wall = ground arith

-- A valid entry of the name and type.
abbrev pub holds : List ℕ → ℕ → CacheEntry → Bool
holds qname qtype e = e.valid && is_hit qname qtype e

choose-bound :
    (qname : List ℕ) (qtype i oldest : ℕ) (slot : Option ℕ) (es : List CacheEntry)
    → slot_or_zero slot ≤ i
    → 0 < i + length es
    → slot_or_zero slot < i + length es
    → choose_slot qname qtype i oldest slot es < i + length es
unfolding choose_slot
choose-bound qname qtype i oldest slot [] a b c = c
choose-bound qname qtype i oldest slot (e ∷ es) a b c = ground (
  arith,
  a,
  b,
  c,
  choose-bound qname qtype (i + 1) e.expires_us (some i) es,
  choose-bound qname qtype (i + 1) oldest slot es,
)

prefix-cons :
    (qname : List ℕ) (qtype i k d : ℕ) (e : CacheEntry) (es : List CacheEntry)
    → k - i ≡ d
    → holds qname qtype e ≡ false
    → exists_slot (holds qname qtype) (take (k - (i + 1)) es) ≡ false
    → exists_slot (holds qname qtype) (take d (e ∷ es)) ≡ false
prefix-cons qname qtype i k zero e es s n h = refl
prefix-cons qname qtype i k (suc d) e es s n h =
    let m : k - (i + 1) ≡ d = omega arith in
    let rest = subst (λ x. exists_slot (holds qname qtype) (take x es) ≡ false) m h in
    ground (arith, n, rest)

-- Before the slot chosen no entry holds the name.
choose-first :
    (qname : List ℕ) (qtype i oldest : ℕ) (slot : Option ℕ) (es : List CacheEntry)
    → slot_or_zero slot ≤ i
    → exists_slot (holds qname qtype) (take (choose_slot qname qtype i oldest slot es - i) es)
      ≡ false
unfolding choose_slot
choose-first qname qtype i oldest slot [] a = refl_prefix (slot_or_zero slot - i)
  where
    refl_prefix : (n : ℕ) → exists_slot (holds qname qtype) (take {A = CacheEntry} n []) ≡ false
    refl_prefix zero = refl
    refl_prefix (suc n) = refl
choose-first qname qtype i oldest slot (e ∷ es) a = elim (Bool-cases (holds qname qtype e)) [
  | inl h ↦ at_slot (ground (arith, h))
  | inr n ↦ elim (Bool-cases e.valid) [
    | inr v ↦ at_slot (rw v refl)
    | inl v ↦ elim (Bool-cases (ltb e.expires_us oldest)) [
      | inl o ↦
          after (choose_slot qname qtype (i + 1) e.expires_us (some i) es) n
            (ground (arith, n, v, o))
            (choose-first qname qtype (i + 1) e.expires_us (some i) es (omega arith))
      | inr o ↦
          after (choose_slot qname qtype (i + 1) oldest slot es) n (ground (arith, n, v, o))
            (choose-first qname qtype (i + 1) oldest slot es (omega arith))
    ]
  ]
]
  where
    at_slot :
        choose_slot qname qtype i oldest slot (e ∷ es) ≡ i
        → exists_slot
            (holds qname qtype)
            (take (choose_slot qname qtype i oldest slot (e ∷ es) - i) (e ∷ es))
          ≡ false
    at_slot c =
        let m : choose_slot qname qtype i oldest slot (e ∷ es) - i ≡ 0 = omega (arith, c) in
        subst (λ x. exists_slot (holds qname qtype) (take x (e ∷ es)) ≡ false) (sym m) refl

    after :
        (k : ℕ)
        → holds qname qtype e ≡ false
        → choose_slot qname qtype i oldest slot (e ∷ es) ≡ k
        → exists_slot (holds qname qtype) (take (k - (i + 1)) es) ≡ false
        → exists_slot
            (holds qname qtype)
            (take (choose_slot qname qtype i oldest slot (e ∷ es) - i) (e ∷ es))
          ≡ false
    after k n c h =
        subst (λ x. exists_slot (holds qname qtype) (take (x - i) (e ∷ es)) ≡ false) (sym c)
          (prefix-cons qname qtype i k (k - i) e es refl n h)

lookup-set :
    (now : ℕ) (qname : List ℕ) (qtype k : ℕ) (e : CacheEntry) (es : List CacheEntry)
    → k < length es
    → exists_slot (holds qname qtype) (take k es) ≡ false
    → holds qname qtype e ≡ true
    → now < e.expires_us
    → (dns_cache_lookup now qname qtype (set es k e)).0 ≡ some e
unfolding dns_cache_lookup
lookup-set now qname qtype k e [] l h m x = absurd (omega arith)
lookup-set now qname qtype zero e (f ∷ es) l h m x = ground (arith, m, x)
lookup-set now qname qtype (suc k) e (f ∷ es) l h m x =
    ground (arith, h, lookup-set now qname qtype k e es (omega arith) (ground (arith, h)) m x)

str_eq-take : (n : ℕ) (xs : List ℕ) → length xs ≤ n → take n xs ≡ xs
str_eq-take zero [] h = refl
str_eq-take zero (x ∷ xs) h = absurd (omega arith)
str_eq-take (suc n) [] h = refl
str_eq-take (suc n) (x ∷ xs) h = ap (◌∷◌ x) (str_eq-take n xs (omega arith))

-- A response of 1 to 512 bytes that was put into the cache, which has entries at all, under a
-- name of at most 95 bytes is what a lookup of the name and type finds, until its time is over.
pub insert_then_lookup :
    (now later wall qtype : ℕ) (qname response : List ℕ) (cache : List CacheEntry)
    → 0 < length cache
    → length qname ≤ name_room
    → is_empty response ≡ false
    → length response ≤ dns_buffer_size
    → later < now + dns_cache_ttl_us wall
    → (dns_cache_lookup later qname qtype (dns_cache_insert now wall qname qtype response cache)).0
      ≡ some (new_entry now wall qname qtype response)
unfolding dns_cache_insert
insert_then_lookup now later wall qtype qname response cache c l n s t =
    let k = choose_slot qname qtype 0 int64_max none cache in
    let e = new_entry now wall qname qtype response in
    let bound =
      choose-bound qname qtype 0 int64_max none cache (omega arith) (omega arith) (omega arith) in
    let same : k - 0 ≡ k = omega arith in
    let first =
      subst (λ x. exists_slot (holds qname qtype) (take x cache) ≡ false) same
        (choose-first qname qtype 0 int64_max none cache (omega arith)) in
    let found =
      lookup-set later qname qtype k e cache (omega (arith, bound)) first
        (rw (str_eq-take name_room qname l, str_eq_refl qname) (ground arith)) t in
    ground (arith, n, s, found)
