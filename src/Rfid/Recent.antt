-- ===== src/Rfid/Recent.antt =====
-- Which card main/rfid_reader.c has the power of the charging ports from.
use esp32_wifi_ap_cp.Base.{
  ℕ, ◌+◌, ◌-◌, ◌%◌, ◌^◌, ◌≤◌, ◌<◌, ◌≡◌, ◌⊎◌, ◌∙◌, sym, refl, inl, inr, Bool, true, false, Option,
  none, some, List, [], ◌∷◌, arith, str_eq, str_eq→≡, Bool-cases,
}
use esp32_wifi_ap_cp.Rfid.{
  Reader, Poll, picc_request_a, picc_anticoll, uid_is_authorized, rfid_reader_set_ports_allowed,
  cut_stale, card_read, rfid_poll,
}
use esp32_wifi_ap_cp.Rfid.Pins.{power_lem}
use esp32_wifi_ap_cp.Rfid.Power.{accepted, rejected, absent, fresh, powered_tick_is_recent}

-- A round of the task, or a call of rfid_reader_set_ports_allowed by the battery monitor.
pub data GateEvent : Type 0 where
  polled : Poll → GateEvent
  allowed : Bool → GateEvent

unfoldable pub gate_step : GateEvent → Reader → Reader
gate_step (polled p) r = rfid_poll p r
gate_step (allowed b) r = rfid_reader_set_ports_allowed b r

-- The events so far, the last first.
unfoldable pub gate_run : List GateEvent → Reader → Reader
gate_run [] r = r
gate_run (e ∷ es) r = gate_step e (gate_run es r)

-- A round is among the events.
abbrev pub IsIn : Poll → List GateEvent → Type 0
IsIn p [] = ⊥
IsIn p (polled q ∷ es) = (p ≡ q) ⊎ IsIn p es
IsIn p (allowed b ∷ es) = IsIn p es

-- The two cards that the source lists.
abbrev IsCard : List ℕ → Type 0
IsCard uid = (uid ≡ 0x43 ∷ 0x79 ∷ 0xAD ∷ 0x38 ∷ []) ⊎ (uid ≡ 0xF3 ∷ 0x95 ∷ 0xCF ∷ 0x1E ∷ [])

authorized_is_listed : (uid : List ℕ) → uid_is_authorized uid ≡ true → IsCard uid
unfolding uid_is_authorized
authorized_is_listed uid h = elim (Bool-cases (str_eq uid (0x43 ∷ 0x79 ∷ 0xAD ∷ 0x38 ∷ []))) [
  | inl e ↦ inl (str_eq→≡ _ _ e)
  | inr n ↦ inr (str_eq→≡ _ _ (ground (arith, n, h)))
]

-- A round of the events read one of the cards, at a tick.
abbrev ReadAt : List GateEvent → ℕ → Type 0
ReadAt es tick =
    (p : Poll) × (uid : List ℕ) × IsIn p es
    × (picc_request_a p.atqa ≡ true)
    × (picc_anticoll p.sel ≡ some uid)
    × IsCard uid
    × (tick ≡ p.now)

read_before :
    (e : GateEvent) (es : List GateEvent) (tick now : ℕ)
    → now ≡ tick
    → ReadAt es tick
    → ReadAt (e ∷ es) now
read_before (polled q) es tick now s (p, uid, i, a, c, k, t) = (p, uid, inr i, a, c, k, s ∙ t)
read_before (allowed b) es tick now s (p, uid, i, a, c, k, t) = (p, uid, i, a, c, k, s ∙ t)

cut_stale_tick : (now : ℕ) (r : Reader) → (cut_stale now r).last_valid_tick ≡ r.last_valid_tick
unfolding cut_stale
cut_stale_tick now r = ground (arith, power_lem false r)

-- What a read answers, where it leaves the ports on: an authorized card, or nothing at all.
read_cases :
    (now : ℕ) (card : Option (List ℕ)) (r : Reader)
    → (card_read now card r).ports_active ≡ true
    → ((uid : List ℕ) × (card ≡ some uid)
        × IsCard uid
        × ((card_read now card r).last_valid_tick ≡ now))
      ⊎ ((r.ports_active ≡ true) × ((card_read now card r).last_valid_tick ≡ r.last_valid_tick))
unfolding card_read
read_cases now none r h = inr (h, refl)
read_cases now (some uid) r h = elim (Bool-cases (uid_is_authorized uid)) [
  | inl e ↦ inl (uid, refl, authorized_is_listed uid e, rw e (accepted now r).1)
  | inr e ↦ absurd (ground (arith, e, h, rejected r))
]

poll_read :
    (q : Poll) (es : List GateEvent) (r : Reader)
    → (r.ports_active ≡ true → ReadAt es r.last_valid_tick)
    → (rfid_poll q r).ports_active ≡ true
    → ReadAt (polled q ∷ es) (rfid_poll q r).last_valid_tick
unfolding rfid_poll
poll_read q es r v h = elim (Bool-cases (picc_request_a q.atqa)) [
  | inl a ↦ rw a (elim (read_cases q.now (picc_anticoll q.sel) r1 (ground (arith, h, a))) [
    | inl (uid, c, k, t) ↦ (q, uid, inl refl, a, c, k, t)
    | inr (on, t) ↦
        read_before (polled q) es _ _ (t ∙ cut_stale_tick q.now r) (v (fresh q.now r on).0)
  ])
  | inr a ↦
      let same = absent q.now r1 in
      rw a (
        read_before (polled q) es _ _ (same.1 ∙ cut_stale_tick q.now r)
          (v (fresh q.now r (ground (arith, h, a, same))).0))
]
  where
    r1 : Reader
    r1 = cut_stale q.now r

allowed_keeps :
    (b : Bool) (r : Reader)
    → let r' = rfid_reader_set_ports_allowed b r in
      (r'.ports_active ≡ true → r.ports_active ≡ true) × (r'.last_valid_tick ≡ r.last_valid_tick)
unfolding rfid_reader_set_ports_allowed
allowed_keeps b r =
    let off = power_lem false (record r { ports_allowed_by_battery = b }) in
    (λ h. ground (arith, h, off), ground (arith, off))

run_read :
    (es : List GateEvent) (r : Reader)
    → r.ports_active ≡ false
    → (gate_run es r).ports_active ≡ true
    → ReadAt es (gate_run es r).last_valid_tick
unfolding gate_run gate_step
run_read [] r o h = cc
run_read (polled q ∷ es) r o h = poll_read q es (gate_run es r) (run_read es r o) h
run_read (allowed b ∷ es) r o h =
    let kept = allowed_keeps b (gate_run es r) in
    read_before (allowed b) es _ _ kept.1 (run_read es r o (kept.0 h))

-- From ports without power on, after any rounds of the task and any calls of the battery monitor: where the
-- ports have power after a round at a tick below 2 ^ 32, that round or one before it got an answer and read
-- one of the two cards that the source lists, no more than 100 ticks, a second, before, as the 32-bit
-- counter shows it.
pub power_needs_recent_card :
    (es : List GateEvent) (q : Poll) (r : Reader)
    → r.ports_active ≡ false
    → q.now < 2 ^ 32
    → (gate_run (polled q ∷ es) r).ports_active ≡ true
    → (p : Poll) × (uid : List ℕ) × IsIn p (polled q ∷ es)
      × (picc_request_a p.atqa ≡ true)
      × (picc_anticoll p.sel ≡ some uid)
      × ((uid ≡ 0x43 ∷ 0x79 ∷ 0xAD ∷ 0x38 ∷ []) ⊎ (uid ≡ 0xF3 ∷ 0x95 ∷ 0xCF ∷ 0x1E ∷ []))
      × ((q.now + 2 ^ 32 - p.now) % 2 ^ 32 ≤ 100)
unfolding gate_run gate_step
power_needs_recent_card es q r o l h =
    let (p, uid, i, a, c, k, t) = run_read (polled q ∷ es) r o h in
    (p, uid, i, a, c, k, rw (sym t) (powered_tick_is_recent q (gate_run es r) l h))
