-- ===== src/Dns/Packet/Parsing.antt =====
-- dns_skip_name of main/dns_server.c: it ends, and stays within the packet.
use esp32_wifi_ap_cp.Base.{
  ℕ, zero, suc, ◌+◌, ◌<◌, ◌≤◌, ◌≡◌, refl, ◌≢◌, ◌∙◌, sym, inl, inr, List, arith, ◌==◌, length,
  Bool-cases, ==→≡,
}
use esp32_wifi_ap_cp.Dns.Packet.{byte_at, skip_from, dns_skip_name}

skip_from-bounds :
    (n : ℕ) (packet : List ℕ) (offset : ℕ)
    → skip_from n packet offset ≢ 0
    → (offset < skip_from n packet offset) × (skip_from n packet offset ≤ length packet)
unfolding skip_from
skip_from-bounds zero packet offset h = absurd (h refl)
skip_from-bounds (suc n) packet offset h =
    ground (arith, skip_from-bounds n packet (offset + 1 + byte_at packet offset))

-- A name that is found ends after its offset and within the packet.
pub skip_name_within :
    (packet : List ℕ) (offset : ℕ)
    → dns_skip_name packet offset ≢ 0
    → (offset < dns_skip_name packet offset) × (dns_skip_name packet offset ≤ length packet)
unfolding dns_skip_name
skip_name_within packet offset h = skip_from-bounds (suc (length packet)) packet offset h

-- Once the fuel exceeds the bytes that are left, more of it makes no difference.
skip_from_enough :
    (n m : ℕ) (packet : List ℕ) (offset : ℕ)
    → length packet < n + offset
    → length packet < m + offset
    → skip_from n packet offset ≡ skip_from m packet offset
unfolding skip_from
skip_from_enough zero zero packet offset a b = refl
skip_from_enough zero (suc m) packet offset a b = ground arith
skip_from_enough (suc n) zero packet offset a b = ground arith
skip_from_enough (suc n) (suc m) packet offset a b =
    ground (arith, skip_from_enough n m packet (offset + 1 + byte_at packet offset))

-- Two packets that agree on the bytes of a name: it ends at the same place in both.
skip_from-agree :
    (n offset end : ℕ) (p q : List ℕ)
    → skip_from n p offset ≡ end
    → end ≢ 0
    → end ≤ length q
    → ((j : ℕ) → offset ≤ j → j < end → byte_at q j ≡ byte_at p j)
    → skip_from n q offset ≡ end
unfolding skip_from
skip_from-agree zero offset end p q e h l same = e
skip_from-agree (suc n) offset end p q e h l same =
    let inside = skip_from-bounds (suc n) p offset (λ z. h (sym e ∙ z)) in
    let first = same offset (omega arith) (omega (arith, inside.0, e)) in
    let next = offset + 1 + byte_at p offset in
    let rest_inside = skip_from-bounds n p next in
    elim (Bool-cases (skip_from n p next == end)) [
      | inl t ↦
          let rest =
            skip_from-agree n next end p q (==→≡ _ _ t) h l (λ j a b. same j (omega arith) b) in
          rw first (ground (arith, e, h, l, t, inside, rest_inside, rest))
      | inr f ↦ rw first (ground (arith, e, h, l, f, inside, rest_inside))
    ]

-- Two packets that agree on the bytes of a name: it ends at the same place in both.
pub skip_name-agree :
    (offset : ℕ) (p q : List ℕ)
    → dns_skip_name p offset ≢ 0
    → dns_skip_name p offset ≤ length q
    → ((j : ℕ) → offset ≤ j → j < dns_skip_name p offset → byte_at q j ≡ byte_at p j)
    → dns_skip_name q offset ≡ dns_skip_name p offset
unfolding dns_skip_name
skip_name-agree offset p q h l same =
    let n = suc (length p + length q) in
    let at_p = skip_from_enough (suc (length p)) n p offset (omega arith) (omega arith) in
    let at_q = skip_from_enough (suc (length q)) n q offset (omega arith) (omega arith) in
    at_q ∙ skip_from-agree n offset _ p q (sym at_p) h l same
