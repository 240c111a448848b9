-- ===== src/Rfid/Pins.antt =====
-- The power pins of main/rfid_reader.c, and the override of the battery monitor.
use esp32_wifi_ap_cp.Base.{
  ℕ, ◌≡◌, refl, inl, inr, Bool, true, false, not, ◌&&◌, ◌||◌, Option, none, some, List, [], ◌∷◌,
  arith, map, All, Bool-cases,
}
use esp32_wifi_ap_cp.Rfid.{
  Reader, Poll, set_present, picc_request_a, picc_anticoll, uid_is_authorized, set_power_state,
  rfid_reader_set_ports_allowed, cut_stale, accept_card, reject_card, card_read, card_absent,
  rfid_poll,
}

abbrev pub IsLevel : Bool → Bool → Type 0
IsLevel level pin = pin ≡ level

-- Every pin is at the level of `ports_active`, and that is off while the battery forbids it.
pub record ReaderInv (r : Reader) : Type 0 where
  pub pins : All (IsLevel r.ports_active) r.pins
  pub allowed : r.ports_active ≡ true → r.ports_allowed_by_battery ≡ true

map-IsLevel : (b : Bool) (pins : List Bool) → All (IsLevel b) (map (λ _. b) pins)
map-IsLevel b [] = tt
map-IsLevel b (p ∷ ps) = (refl, map-IsLevel b ps)

same_power :
    (r s : Reader)
    → s.ports_active ≡ r.ports_active
    → s.pins ≡ r.pins
    → s.ports_allowed_by_battery ≡ r.ports_allowed_by_battery
    → ReaderInv r
    → ReaderInv s
same_power r s a p b v = record {
  pins = rw (a, p) v.pins;
  allowed = ground (arith, a, b, v.allowed);
}

-- The outputs follow the request, as far as the battery allows; the override and the clock are kept.
pub power_lem :
    (on : Bool) (r : Reader)
    → let r' = set_power_state on r in
      (r'.ports_active ≡ (on && r.ports_allowed_by_battery))
      × (r'.ports_allowed_by_battery ≡ r.ports_allowed_by_battery)
      × (r'.last_valid_tick ≡ r.last_valid_tick)
unfolding set_power_state
power_lem on r = ground arith

power-pins :
    (on : Bool) (r : Reader)
    → All (IsLevel r.ports_active) r.pins
    → All (IsLevel (set_power_state on r).ports_active) (set_power_state on r).pins
unfolding set_power_state
power-pins on r v =
    let level = on && r.ports_allowed_by_battery in
    elim (Bool-cases ((r.ports_active && level) || (not r.ports_active && not level))) [
      | inl e ↦ rw e v
      | inr e ↦ rw e (map-IsLevel level r.pins)
    ]

set_power_state-ReaderInv :
    (on : Bool) (r : Reader)
    → All (IsLevel r.ports_active) r.pins
    → ReaderInv (set_power_state on r)
set_power_state-ReaderInv on r v =
    let facts = power_lem on r in
    record { pins = power-pins on r v; allowed = ground (arith, facts) }

set_allowed-ReaderInv :
    (b : Bool) (r : Reader) → ReaderInv r → ReaderInv (rfid_reader_set_ports_allowed b r)
unfolding rfid_reader_set_ports_allowed
set_allowed-ReaderInv b r v =
    let r1 : Reader = record r { ports_allowed_by_battery = b } in
    ground (arith, v, set_power_state-ReaderInv false r1 v.pins)

cut_stale-ReaderInv : (now : ℕ) (r : Reader) → ReaderInv r → ReaderInv (cut_stale now r)
unfolding cut_stale
cut_stale-ReaderInv now r v = ground (arith, v, set_power_state-ReaderInv false r v.pins)

set_present-ReaderInv : (b : Bool) (r : Reader) → ReaderInv r → ReaderInv (set_present b r)
set_present-ReaderInv b r v =
    same_power r (set_present b r) (ground arith) (ground arith) (ground arith) v

accept_card-ReaderInv : (now : ℕ) (r : Reader) → ReaderInv r → ReaderInv (accept_card now r)
unfolding accept_card
accept_card-ReaderInv now r v =
    let r0 : Reader = record r { last_valid_tick = now; invalid_logged = false } in
    same_power (set_power_state true r0) (accept_card now r) (ground arith) (ground arith)
      (ground arith) (set_power_state-ReaderInv true r0 v.pins)

reject_card-ReaderInv : (r : Reader) → ReaderInv r → ReaderInv (reject_card r)
unfolding reject_card
reject_card-ReaderInv r v =
    same_power (set_power_state false r) (reject_card r) (ground arith) (ground arith)
      (ground arith) (set_power_state-ReaderInv false r v.pins)

card_read-ReaderInv :
    (now : ℕ) (card : Option (List ℕ)) (r : Reader) → ReaderInv r → ReaderInv (card_read now card r)
unfolding card_read
card_read-ReaderInv now none r v = v
card_read-ReaderInv now (some uid) r v = elim (Bool-cases (uid_is_authorized uid)) [
  | inl e ↦ rw e (accept_card-ReaderInv now r v)
  | inr e ↦ rw e (reject_card-ReaderInv r v)
]

card_absent-ReaderInv : (now : ℕ) (r : Reader) → ReaderInv r → ReaderInv (card_absent now r)
unfolding card_absent
card_absent-ReaderInv now r v =
    same_power r (card_absent now r) (unfold card_absent in ground arith)
      (unfold card_absent in ground arith) (unfold card_absent in ground arith) v

-- A round of the task keeps all power pins at one level, which is off while the battery forbids it.
pub rfid_poll-ReaderInv : (p : Poll) (r : Reader) → ReaderInv r → ReaderInv (rfid_poll p r)
unfolding rfid_poll
rfid_poll-ReaderInv p r v =
    let v1 = cut_stale-ReaderInv p.now r v in
    elim (Bool-cases (picc_request_a p.atqa)) [
      | inl e ↦ rw e (card_read-ReaderInv p.now (picc_anticoll p.sel) _ v1)
      | inr e ↦ rw e (card_absent-ReaderInv p.now _ v1)
    ]
