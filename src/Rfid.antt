-- ===== src/Rfid.antt =====
-- The RFID gate of the charging ports, main/rfid_reader.c: card reads, the power pins, and the override
-- of the battery monitor. RFID_ENFORCE_AUTH is 1. A tick count is a uint32_t, 100 ticks a second.
pub mod Chip
pub mod Pins
pub mod Power
pub mod Recent
use esp32_wifi_ap_cp.Base.{
  ℕ, ◌+◌, ◌-◌, ◌%◌, ◌^◌, Bool, true, false, not, ◌&&◌, ◌||◌, Option, none, some, List, [], ◌∷◌,
  if◌then◌else◌, ◌==◌, ltb, length, get_or, take, str_eq, bit_xor, replicate, map,
}

abbrev pub rfid_num_power_pins : ℕ
rfid_num_power_pins = 6

-- pdMS_TO_TICKS(RFID_PRESENCE_TIMEOUT_MS)
abbrev pub timeout_ticks : ℕ
timeout_ticks = 100

abbrev pub valid_uids : List (List ℕ)
valid_uids = (0x43 ∷ 0x79 ∷ 0xAD ∷ 0x38 ∷ []) ∷ (0xF3 ∷ 0x95 ∷ 0xCF ∷ 0x1E ∷ []) ∷ []

-- The statics of rfid_reader.c and the task's last_valid_tick; `pins` are the levels of the power pins,
-- `reports` what the presence callback was told, the last first, if there is one.
pub record Reader : Type 0 where
  pub ports_active : Bool
  pub ports_allowed_by_battery : Bool
  pub pins : List Bool
  pub last_valid_tick : ℕ
  pub card_present : Bool
  pub invalid_logged : Bool
  pub has_callback : Bool
  pub reports : List Bool

-- What a round of the task reads: the clock, and pcd_transceive's answers to REQA and to SELECT.
pub record Poll : Type 0 where
  pub now : ℕ
  pub atqa : Option (List ℕ)
  pub sel : Option (List ℕ)

abbrev pub picc_request_a : Option (List ℕ) → Bool
picc_request_a none = false
picc_request_a (some rx) = length rx == 2

abbrev pub rx_at : List ℕ → ℕ → ℕ
rx_at rx i = get_or rx i 0

-- The four bytes of the card, if their check byte is right.
abbrev pub picc_anticoll : Option (List ℕ) → Option (List ℕ)
picc_anticoll none = none
picc_anticoll (some rx) =
    if not (length rx == 5)
    then none
    else if bit_xor (bit_xor (bit_xor (rx_at rx 0) (rx_at rx 1)) (rx_at rx 2)) (rx_at rx 3)
        == rx_at rx 4
    then some (take 4 rx)
    else none

abbrev pub uid_in : List (List ℕ) → List ℕ → Bool
uid_in [] uid = false
uid_in (u ∷ us) uid = let rest = uid_in us uid in if str_eq uid u then true else rest

unfoldable pub uid_is_authorized : List ℕ → Bool
uid_is_authorized uid = uid_in valid_uids uid

unfoldable pub power_pins_init : Reader → Reader
power_pins_init r = record r { pins = replicate rfid_num_power_pins false; ports_active = false }

unfoldable pub set_power_state : Bool → Reader → Reader
set_power_state on r =
    let level = on && r.ports_allowed_by_battery in
    if (r.ports_active && level) || (not r.ports_active && not level)
    then r
    else record r { ports_active = level; pins = map (λ _. level) r.pins }

unfoldable pub rfid_reader_set_ports_allowed : Bool → Reader → Reader
rfid_reader_set_ports_allowed allowed r =
    let r1 = record r { ports_allowed_by_battery = allowed } in
    if (r.ports_allowed_by_battery && allowed) || (not r.ports_allowed_by_battery && not allowed)
    then r
    else if not allowed && r.ports_active
    then set_power_state false r1
    else r1

-- now - last_valid_tick on TickType_t.
abbrev pub ticks_since : ℕ → Reader → ℕ
ticks_since now r = (now + 2 ^ 32 - r.last_valid_tick) % 2 ^ 32

abbrev pub report : Bool → Reader → Reader
report present r = if r.has_callback then record r { reports = present ∷ r.reports } else r

abbrev pub set_present : Bool → Reader → Reader
set_present present r = report present (record r { card_present = present })

unfoldable pub cut_stale : ℕ → Reader → Reader
cut_stale now r =
    if r.ports_active && ltb timeout_ticks (ticks_since now r) then set_power_state false r else r

unfoldable pub accept_card : ℕ → Reader → Reader
accept_card now r =
    let r1 = set_power_state true (record r { last_valid_tick = now; invalid_logged = false }) in
    if r1.card_present then r1 else set_present true r1

pub reject_card : Reader → Reader
reject_card r =
    let r1 = record (set_power_state false r) { invalid_logged = true } in
    if r1.card_present then set_present false r1 else r1

unfoldable pub card_read : ℕ → Option (List ℕ) → Reader → Reader
card_read now none r = r
card_read now (some uid) r = if uid_is_authorized uid then accept_card now r else reject_card r

unfoldable pub card_absent : ℕ → Reader → Reader
card_absent now r =
    if r.card_present && ltb timeout_ticks (ticks_since now r)
    then set_present false (record r { invalid_logged = false })
    else r

-- One round of the loop of rfid_task.
unfoldable pub rfid_poll : Poll → Reader → Reader
rfid_poll p r =
    let r1 = cut_stale p.now r in
    if picc_request_a p.atqa then card_read p.now (picc_anticoll p.sel) r1 else card_absent p.now r1

abbrev pub rfid_reader_card_present : Reader → Bool
rfid_reader_card_present r = r.card_present

abbrev pub rfid_reader_set_presence_callback : Bool → Reader → Reader
rfid_reader_set_presence_callback has_callback r = record r { has_callback = has_callback }
