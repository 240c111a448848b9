-- ===== src/Rfid/Power.antt =====
-- When main/rfid_reader.c powers the charging ports.
use esp32_wifi_ap_cp.Base.{
  ℕ, ◌^◌, ◌≤◌, ◌<◌, ◌≡◌, refl, inl, inr, true, false, Option, none, some, List, [], ◌∷◌, arith,
  if◌then◌else◌, Bool-cases,
}
use esp32_wifi_ap_cp.Battery.{critical, ports_on}
use esp32_wifi_ap_cp.Rfid.{
  Reader, Poll, timeout_ticks, ticks_since, picc_request_a, picc_anticoll, uid_is_authorized,
  set_power_state, rfid_reader_set_ports_allowed, cut_stale, accept_card, reject_card, card_read,
  card_absent, rfid_poll,
}
use esp32_wifi_ap_cp.Rfid.Pins.{ReaderInv, power_lem}

pub accepted :
    (now : ℕ) (r : Reader)
    → let r' = accept_card now r in
      (r'.ports_active ≡ r.ports_allowed_by_battery) × (r'.last_valid_tick ≡ now)
unfolding accept_card
accepted now r =
    ground (arith, power_lem true (record r { last_valid_tick = now; invalid_logged = false }))

pub rejected : (r : Reader) → (reject_card r).ports_active ≡ false
unfolding reject_card
rejected r = ground (arith, power_lem false r)

pub absent :
    (now : ℕ) (r : Reader)
    → let r' = card_absent now r in
      (r'.ports_active ≡ r.ports_active) × (r'.last_valid_tick ≡ r.last_valid_tick)
unfolding card_absent
absent now r = ground arith

pub fresh :
    (now : ℕ) (r : Reader)
    → (cut_stale now r).ports_active ≡ true
    → (r.ports_active ≡ true) × (ticks_since now (cut_stale now r) ≤ timeout_ticks)
unfolding cut_stale
fresh now r h = ground (arith, h, power_lem false r)

read_lem :
    (now : ℕ) (card : Option (List ℕ)) (r : Reader)
    → now < 2 ^ 32
    → (card_read now card r).ports_active ≡ true
    → (r.ports_active ≡ true → ticks_since now r ≤ timeout_ticks)
    → ticks_since now (card_read now card r) ≤ timeout_ticks
unfolding card_read
read_lem now none r l h k = k h
read_lem now (some uid) r l h k = elim (Bool-cases (uid_is_authorized uid)) [
  | inl e ↦ rw e (ground (arith, l, accepted now r))
  | inr e ↦ ground (arith, h, e, rejected r)
]

-- While the ports have power after a round of the task, at a tick below 2 ^ 32, last_valid_tick is no more
-- than a second old, as the tick counter shows it.
pub powered_tick_is_recent :
    (p : Poll) (r : Reader)
    → p.now < 2 ^ 32
    → (rfid_poll p r).ports_active ≡ true
    → ticks_since p.now (rfid_poll p r) ≤ timeout_ticks
unfolding rfid_poll
powered_tick_is_recent p r l h =
    let r1 = cut_stale p.now r in
    ground (arith, h, l, fresh p.now r, absent p.now r1, read_lem p.now (picc_anticoll p.sel) r1 l)

read_turns_on :
    (now : ℕ) (card : Option (List ℕ)) (r : Reader)
    → r.ports_active ≡ false
    → (card_read now card r).ports_active ≡ true
    → (uid : List ℕ) × (card ≡ some uid)
      × (uid_is_authorized uid ≡ true)
      × (r.ports_allowed_by_battery ≡ true)
unfolding card_read
read_turns_on now none r o h = absurd (ground (arith, o, h))
read_turns_on now (some uid) r o h = elim (Bool-cases (uid_is_authorized uid)) [
  | inl e ↦ (uid, refl, e, ground (arith, e, h, accepted now r))
  | inr e ↦ absurd (ground (arith, e, h, rejected r))
]

poll_idle :
    (p : Poll) (r : Reader)
    → r.ports_active ≡ false
    → rfid_poll p r ≡ (
        if picc_request_a p.atqa
        then card_read p.now (picc_anticoll p.sel) r
        else card_absent p.now r)
unfolding rfid_poll cut_stale
poll_idle p r o = rw o refl

-- Power comes on only by an authorized card, and only while the battery allows it.
pub power_needs_card :
    (p : Poll) (r : Reader)
    → r.ports_active ≡ false
    → (rfid_poll p r).ports_active ≡ true
    → (uid : List ℕ) × (picc_anticoll p.sel ≡ some uid)
      × (uid_is_authorized uid ≡ true)
      × (r.ports_allowed_by_battery ≡ true)
power_needs_card p r o h = elim (Bool-cases (picc_request_a p.atqa)) [
  | inl e ↦ read_turns_on p.now (picc_anticoll p.sel) r o (ground (arith, h, e, poll_idle p r o))
  | inr e ↦ absurd (ground (arith, o, h, e, poll_idle p r o, absent p.now r))
]

-- Rounds of the task, in order.
unfoldable pub rfid_polls : List Poll → Reader → Reader
rfid_polls [] r = r
rfid_polls (p ∷ ps) r = rfid_polls ps (rfid_poll p r)

blocked_read :
    (now : ℕ) (card : Option (List ℕ)) (r : Reader)
    → r.ports_active ≡ false
    → r.ports_allowed_by_battery ≡ false
    → let r' = card_read now card r in
      (r'.ports_active ≡ false) × (r'.ports_allowed_by_battery ≡ false)
unfolding card_read accept_card reject_card set_power_state
blocked_read now none r o b = (o, b)
blocked_read now (some uid) r o b = ground (arith, o, b)

blocked_poll :
    (p : Poll) (r : Reader)
    → r.ports_active ≡ false
    → r.ports_allowed_by_battery ≡ false
    → let r' = rfid_poll p r in (r'.ports_active ≡ false) × (r'.ports_allowed_by_battery ≡ false)
unfolding card_absent
blocked_poll p r o b =
    rw (poll_idle p r o) (ground (arith, o, b, blocked_read p.now (picc_anticoll p.sel) r o b))

blocked_polls :
    (ps : List Poll) (r : Reader)
    → r.ports_active ≡ false
    → r.ports_allowed_by_battery ≡ false
    → (rfid_polls ps r).ports_active ≡ false
unfolding rfid_polls
blocked_polls [] r o b = o
blocked_polls (p ∷ ps) r o b =
    let next = blocked_poll p r o b in blocked_polls ps (rfid_poll p r) next.0 next.1

blocked :
    (r : Reader)
    → ReaderInv r
    → let r' = rfid_reader_set_ports_allowed false r in
      (r'.ports_active ≡ false) × (r'.ports_allowed_by_battery ≡ false)
unfolding rfid_reader_set_ports_allowed
blocked r v =
    ground (arith, v.allowed, power_lem false (record r { ports_allowed_by_battery = false }))

-- On a well-formed reader, once the battery monitor has blocked the ports, as in its critical
-- state, they have no power, whatever cards are read, until it allows them again.
pub critical_battery_cuts_power :
    (ps : List Poll) (r : Reader)
    → ReaderInv r
    → (rfid_polls ps (rfid_reader_set_ports_allowed (ports_on critical) r)).ports_active ≡ false
critical_battery_cuts_power ps r v =
    let off = blocked r v in blocked_polls ps (rfid_reader_set_ports_allowed false r) off.0 off.1
