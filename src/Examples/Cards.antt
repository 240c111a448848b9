-- ===== src/Examples/Cards.antt =====
-- The theorems on rfid_reader.c, on a card that is read and a battery that runs low.
use esp32_wifi_ap_cp.Base.{
  [], arith, false, none, List, ◌⊎◌, ◌-◌, ◌%◌, ◌^◌, if◌then◌else◌, length, refl, some, true, ℕ, ◌+◌,
  ◌==◌, ◌∷◌, ◌≡◌, ◌≤◌,
}
use esp32_wifi_ap_cp.Rfid.Chip.{Spi, Chip, reg_comirq, reg_fifo_level, pcd_transceive}
use esp32_wifi_ap_cp.Rfid.Chip.Bounds.{Fits, transceive_is_bounded}
use esp32_wifi_ap_cp.Rfid.{
  Reader, Poll, picc_request_a, picc_anticoll, rfid_reader_set_ports_allowed, uid_is_authorized,
  set_power_state, rfid_poll, card_read, card_absent, accept_card, cut_stale,
}
use esp32_wifi_ap_cp.Rfid.Pins.{ReaderInv}
use esp32_wifi_ap_cp.Rfid.Recent.{GateEvent, gate_step, gate_run, IsIn, power_needs_recent_card}

abbrev idle : Reader
idle = record {
  ports_active = false;
  ports_allowed_by_battery = true;
  pins = false ∷ false ∷ false ∷ false ∷ false ∷ false ∷ [];
  last_valid_tick = 0;
  card_present = false;
  invalid_logged = false;
  has_callback = true;
  reports = [];
}

-- The first authorized card, with its check byte.
abbrev tap : Poll
tap = record {
  now = 500;
  atqa = some (4 ∷ 0 ∷ []);
  sel = some (0x43 ∷ 0x79 ∷ 0xAD ∷ 0x38 ∷ 0xAF ∷ []);
}

idle-ReaderInv : ReaderInv idle
idle-ReaderInv = record {
  pins = (refl, (refl, (refl, (refl, (refl, (refl, tt))))));
  allowed = λ h. refl;
}

-- Half a second later there is no answer.
abbrev gone : Poll
gone = record { now = 550; atqa = none; sel = none }

abbrev visit : List GateEvent
visit = GateEvent.allowed true ∷ GateEvent.polled tap ∷ []

powered : (gate_run (GateEvent.polled gone ∷ visit) idle).ports_active ≡ true
unfolding gate_run gate_step rfid_poll card_absent cut_stale card_read accept_card set_power_state
    uid_is_authorized rfid_reader_set_ports_allowed
powered = refl

power_needs_recent_card_example :
    (p : Poll) × (uid : List ℕ) × IsIn p (GateEvent.polled gone ∷ visit)
    × (picc_request_a p.atqa ≡ true)
    × (picc_anticoll p.sel ≡ some uid)
    × ((uid ≡ 0x43 ∷ 0x79 ∷ 0xAD ∷ 0x38 ∷ []) ⊎ (uid ≡ 0xF3 ∷ 0x95 ∷ 0xCF ∷ 0x1E ∷ []))
    × ((550 + 2 ^ 32 - p.now) % 2 ^ 32 ≤ 100)
power_needs_recent_card_example = power_needs_recent_card visit gone idle refl (omega arith) powered

-- An IRQ at once, no error, 5 bytes in the FIFO.
abbrev spi : Spi
spi = record {
  read = λ n reg. some (if reg == reg_fifo_level then 5 else if reg == reg_comirq then 0x20 else 0);
}

abbrev new_chip : Chip
new_chip = record { transfers = 0; written = [] }

transceive_is_bounded_example :
    let (answer, c') = pcd_transceive spi (0x93 ∷ 0x20 ∷ []) 5 0 new_chip in
    Fits 5 answer × (c'.transfers ≤ new_chip.transfers + length {A = ℕ} (0x93 ∷ 0x20 ∷ []) + 5 + 47)
transceive_is_bounded_example = transceive_is_bounded spi (0x93 ∷ 0x20 ∷ []) 5 0 new_chip
