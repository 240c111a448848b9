-- ===== src/Api/Rendering.antt =====
-- What json_append of main/admin_ports.c makes of a text in pieces.
use esp32_wifi_ap_cp.Base.{
  ℕ, zero, suc, ◌+◌, ◌-◌, ◌*◌, ◌≤◌, ◌≡◌, refl, ap, sym, ◌∙◌, Bool, true, false, List, [], ◌∷◌, ◌++◌,
  arith, leb, length, take, length-take, length-append, if◌then◌else◌, Bool-cases, inl, inr, ltb,
}
use mathlib.Core.List.{append_assoc, append-nil}
use esp32_wifi_ap_cp.Base.Texts.{codes, decimal, decimal-length, concat, concat-append, take_all}
use esp32_wifi_ap_cp.Base.Errors.{is_ok}
use esp32_wifi_ap_cp.Ports.Bus.{
  I2c, Ports, i2c_bus_install, i2c_probe_address, scan_from, port_sensors_scan_i2c,
}
use esp32_wifi_ap_cp.Api.{
  api_ports_i2c_scan_handler, json_append, append_pieces, address_pieces, scan_head, scan_pieces,
}

take_of : (xs : List ℕ) {n m : ℕ} → n ≡ m → take n xs ≡ take m xs
take_of xs e = ap (λ (k : ℕ). take k xs) e

take-append : (n : ℕ) (xs ys : List ℕ) → take n (xs ++ ys) ≡ take n xs ++ take (n - length xs) ys
take-append zero xs ys = let e : 0 ≡ 0 - length xs = omega arith in take_of ys e
take-append (suc n) [] ys = let e : suc n ≡ suc n - 0 = omega arith in take_of ys e
take-append (suc n) (x ∷ xs) ys =
    let e : n - length xs ≡ suc n - suc (length xs) = omega arith in
    ap (◌∷◌ x) (take-append n xs ys ∙ ap (λ (zs : List ℕ). take n xs ++ zs) (take_of ys e))

json_append_cut :
    (n : ℕ) (piece buf : List ℕ)
    → length buf ≤ n
    → json_append (suc n) piece buf ≡ buf ++ take (n - length buf) piece
unfolding json_append
json_append_cut n piece buf h =
    let room : suc n - length buf - 1 ≡ n - length buf = omega arith in
    let open_buf : leb (suc n) (length buf) ≡ false = ground arith in
    elim (Bool-cases (leb (suc n - length buf) (length piece))) [
      | inl e ↦ rw (open_buf, e, room) refl
      | inr e ↦
          let fits : length piece ≤ n - length buf = ground (arith, e) in
          rw (open_buf, e, take_all (n - length buf) piece fits) refl
    ]

-- One piece, appended to what there was room for of the pieces before.
json_append-take :
    (n : ℕ) (piece xs : List ℕ) → json_append (suc n) piece (take n xs) ≡ take n (xs ++ piece)
json_append-take n piece xs =
    let left : n - length (take n xs) ≡ n - length xs = omega (arith, length-take n xs) in
    json_append_cut n piece (take n xs) (omega (arith, length-take n xs))
    ∙ ap (λ (zs : List ℕ). take n xs ++ zs) (take_of piece left)
    ∙ sym (take-append n xs piece)

append_pieces-take :
    (n : ℕ) (ps : List (List ℕ)) (xs : List ℕ)
    → append_pieces (suc n) ps (take n xs) ≡ take n (xs ++ concat ps)
unfolding append_pieces
append_pieces-take n [] xs = ap (take n) (sym (append-nil xs))
append_pieces-take n (p ∷ ps) xs =
    ap (append_pieces (suc n) ps) (json_append-take n p xs)
    ∙ append_pieces-take n ps (xs ++ p)
    ∙ ap (take n) (append_assoc xs p (concat ps))

take-nil : (n : ℕ) → take {A = ℕ} n [] ≡ []
take-nil zero = refl
take-nil (suc n) = refl

-- Whatever the pieces and the size of the buffer, of 1 byte or more: json_append for one after the other
-- builds what cutting the whole text to the buffer would give, with room for its NUL.
pub append_pieces_cuts :
    (n : ℕ) (ps : List (List ℕ)) → append_pieces (n + 1) ps [] ≡ take n (concat ps)
append_pieces_cuts n ps =
    let e : n + 1 ≡ suc n = omega arith in
    ap (λ (k : ℕ). append_pieces k ps []) e
    ∙ ap (append_pieces (suc n) ps) (sym (take-nil n))
    ∙ append_pieces-take n ps []

address_pieces-length :
    (first : Bool) (found : List ℕ)
    → length (concat (address_pieces first found)) ≤ 7 * length found
unfolding address_pieces
address_pieces-length first [] = omega arith
address_pieces-length true (a ∷ rest) = omega (arith, address_pieces-length false rest)
address_pieces-length false (a ∷ rest) = omega (arith, address_pieces-length false rest)

scan_pieces-length :
    (found : List ℕ) (count : ℕ)
    → length found ≤ 32
    → length (concat (scan_pieces found count)) ≤ 767
unfolding scan_pieces
scan_pieces-length found count h =
    let tail : List ℕ = codes "],\"count\":" ++ (decimal count ++ codes "}") in
    let sizes = address_pieces-length true found in
    let joined = concat-append (address_pieces true found) (tail ∷ []) in
    omega (
      arith,
      length-append scan_head (concat (address_pieces true found ++ (tail ∷ []))),
      ap length joined,
      length-append (concat (address_pieces true found)) (tail ++ []),
      ap length (append-nil tail),
      length-append (codes "],\"count\":") (decimal count ++ codes "}"),
      length-append (decimal count) (codes "}"),
      decimal-length count,
      sizes,
    )

-- What a round of the scan does to the addresses, by whether there is an answer.
kept-length :
    (answers : Bool) (room addr : ℕ) (found : List ℕ) (count : ℕ)
    → length found ≤ room
    → length found ≤ count
    → let found' =
        if answers then (if ltb count room then found ++ (addr ∷ []) else found) else found in
      (length found' ≤ room) × (length found' ≤ (if answers then count + 1 else count))
kept-length answers room addr found count h k = ground (arith, length-append found (addr ∷ []))

scan_from-length :
    (io : I2c) (room n addr : ℕ) (found : List ℕ) (count : ℕ) (s : Ports)
    → length found ≤ room
    → length found ≤ count
    → length (scan_from io room n addr found count s).0 ≤ room
unfolding scan_from i2c_probe_address
scan_from-length io room zero addr found count s h k = h
scan_from-length io room (suc n) addr found count s h k =
    let kept = kept-length (is_ok (io.probe s.transfers addr)) room addr found count h k in
    scan_from-length io room n (addr + 1) _ _ (i2c_probe_address io addr s).1 kept.0 kept.1

scan-length : (io : I2c) (s : Ports) → length (port_sensors_scan_i2c io 32 s).1 ≤ 32
unfolding port_sensors_scan_i2c
scan-length io s =
    ground (
      arith,
      scan_from-length io 32 117 3 [] 0 (i2c_bus_install io s).1 (omega arith) (omega arith),
    )

-- Whatever answers on the bus, the JSON text of a scan that succeeds is whole: it has every address that
-- was kept and its closing brace, and fits the buffer.
pub scan_answer_is_whole :
    (io : I2c) (s : Ports)
    → is_ok (port_sensors_scan_i2c io 32 s).0 ≡ true
    → let (err, found, count, s1) = port_sensors_scan_i2c io 32 s in
      (api_ports_i2c_scan_handler io s).1 ≡ concat (scan_pieces found count)
unfolding api_ports_i2c_scan_handler
scan_answer_is_whole io s ok =
    let found = (port_sensors_scan_i2c io 32 s).1 in
    let count = (port_sensors_scan_i2c io 32 s).2 in
    rw ok (
      append_pieces_cuts 767 (scan_pieces found count)
      ∙ take_all 767 (concat (scan_pieces found count))
          (scan_pieces-length found count (scan-length io s)))
