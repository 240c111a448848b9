-- ===== src/Rfid/Chip.antt =====
-- The MFRC522 of main/rfid_reader.c: its registers over SPI, the transfer of a frame, its start.
pub mod Bounds
use esp32_wifi_ap_cp.Base.{
  ℕ, zero, suc, ◌+◌, ◌-◌, ◌%◌, ◌≤◌, ◌≡◌, refl, min, bit_and, bit_or, Bool, true, false, not, ◌&&◌,
  ◌||◌, Option, none, some, List, [], ◌∷◌, ◌++◌, if◌then◌else◌, ◌==◌, ltb, length, arith,
  length-append, Option-cases, Bool-cases, inl, inr,
}
use esp32_wifi_ap_cp.Base.Errors.{EspErr, esp_ok, esp_fail, other, is_ok, is_invalid_state}
use esp32_wifi_ap_cp.Rfid.{Reader, power_pins_init}

abbrev pub reg_command : ℕ
reg_command = 0x01

abbrev pub reg_comirq : ℕ
reg_comirq = 0x04

abbrev pub reg_error : ℕ
reg_error = 0x06

abbrev pub reg_fifo_data : ℕ
reg_fifo_data = 0x09

abbrev pub reg_fifo_level : ℕ
reg_fifo_level = 0x0A

abbrev pub reg_bit_framing : ℕ
reg_bit_framing = 0x0D

abbrev pub reg_coll : ℕ
reg_coll = 0x0E

abbrev pub reg_tx_control : ℕ
reg_tx_control = 0x14

-- What a read of a register gives, by the number of the transfers before: none for an SPI error.
pub record Spi : Type 0 where
  pub read : ℕ → ℕ → Option ℕ

-- The transfers so far, and what was written to which register, the last first.
pub record Chip : Type 0 where
  pub transfers : ℕ
  pub written : List (ℕ × ℕ)

abbrev pub mfrc522_write : ℕ → ℕ → Chip → Chip
mfrc522_write reg value c = record {
  transfers = c.transfers + 1;
  written = (reg, value) ∷ c.written;
}

abbrev pub mfrc522_read : Spi → ℕ → Chip → Option ℕ × Chip
mfrc522_read io reg c = (io.read c.transfers reg, record c { transfers = c.transfers + 1 })

abbrev pub write_if : Option ℕ → (ℕ → ℕ) → ℕ → Chip → Chip
write_if none f reg c = c
write_if (some v) f reg c = mfrc522_write reg (f v) c

unfoldable pub mfrc522_set_bits : Spi → ℕ → ℕ → Chip → Chip
mfrc522_set_bits io reg mask c =
    let (v, c1) = mfrc522_read io reg c in write_if v (λ b. bit_or b mask) reg c1

unfoldable pub mfrc522_clear_bits : Spi → ℕ → ℕ → Chip → Chip
mfrc522_clear_bits io reg mask c =
    let (v, c1) = mfrc522_read io reg c in write_if v (λ b. bit_and b (255 - mask)) reg c1

abbrev pub antenna_bits : Option ℕ → Chip → Chip
antenna_bits none c = c
antenna_bits (some v) c =
    if bit_and v 0x03 == 0x03 then c else mfrc522_write reg_tx_control (bit_or v 0x03) c

unfoldable pub pcd_antenna_on : Spi → Chip → Chip
pcd_antenna_on io c = let (v, c1) = mfrc522_read io reg_tx_control c in antenna_bits v c1

abbrev pub is_reset : Option ℕ → Bool
is_reset none = false
is_reset (some cmd) = bit_and cmd 0x10 == 0

-- The loop that waits for the reset, with `tries` left.
unfoldable pub await_reset : Spi → ℕ → Chip → Chip
await_reset io zero c = c
await_reset io (suc tries) c =
    let (cmd, c1) = mfrc522_read io reg_command c in
    let rest = await_reset io tries c1 in if is_reset cmd then c1 else rest

unfoldable pub write_all : List (ℕ × ℕ) → Chip → Chip
write_all [] c = c
write_all ((reg, value) ∷ ws) c = write_all ws (mfrc522_write reg value c)

-- T_MODE, T_PRESCALER, T_RELOAD_H, T_RELOAD_L, TX_ASK and MODE.
abbrev pub init_values : List (ℕ × ℕ)
init_values =
    (0x2A, 0x80) ∷ (0x2B, 0xA9) ∷ (0x2C, 0x03) ∷ (0x2D, 0xE8) ∷ (0x15, 0x40) ∷ (0x11, 0x3D) ∷ []

-- esp_fail stands for the error of SPI, 0x105 is ESP_ERR_NOT_FOUND.
abbrev pub version_result : Option ℕ → EspErr
version_result none = esp_fail
version_result (some version) =
    if (version == 0x00) || (version == 0xFF) then other 0x105 else esp_ok

unfoldable pub pcd_init_chip : Spi → Chip → EspErr × Chip
pcd_init_chip io c =
    let c1 = await_reset io 10 (mfrc522_write reg_command 0x0F c) in
    let (version, c2) = mfrc522_read io 0x37 (pcd_antenna_on io (write_all init_values c1)) in
    (version_result version, c2)

unfoldable pub write_fifo : List ℕ → Chip → Chip
write_fifo [] c = c
write_fifo (b ∷ bs) c = write_fifo bs (mfrc522_write reg_fifo_data b c)

abbrev pub next_irq : Option ℕ → Option (Option Bool)
next_irq none = some none
next_irq (some irq) =
    if not (bit_and irq 0x30 == 0)
    then some (some true)
    else if not (bit_and irq 0x01 == 0)
    then some (some false)
    else none

-- The loop that waits for an answer, with so many milliseconds left: whether there is one. A failed read and
-- a timeout both end the transfer.
unfoldable pub await_answer : Spi → ℕ → Chip → Bool × Chip
await_answer io zero c = (false, c)
await_answer io (suc left) c =
    let (irq, c1) = mfrc522_read io reg_comirq c in
    let rest = await_answer io left c1 in
    elim (next_irq irq) [ none ↦ rest | some none ↦ (false, c1) | some (some done) ↦ (done, c1) ]

-- The loop over the FIFO: `n` bytes are left.
unfoldable pub read_fifo : Spi → ℕ → List ℕ → Chip → Option (List ℕ) × Chip
read_fifo io zero rx c = (some rx, c)
read_fifo io (suc n) rx c =
    let (b, c1) = mfrc522_read io reg_fifo_data c in
    elim b [ none ↦ (none, c1) | some v ↦ read_fifo io n (rx ++ (v ∷ [])) c1 ]

abbrev pub has_error : Option ℕ → Bool
has_error none = false
has_error (some err_reg) = not (bit_and err_reg 0x13 == 0)

abbrev pub read_answer : Spi → ℕ → Option ℕ → Chip → Option (List ℕ) × Chip
read_answer io rx_size none c = (none, c)
read_answer io rx_size (some fifo_level) c = read_fifo io (min fifo_level rx_size) [] c

-- The bytes received into a buffer of `rx_size`, none for an error or a timeout.
unfoldable pub pcd_transceive : Spi → List ℕ → ℕ → ℕ → Chip → Option (List ℕ) × Chip
pcd_transceive io tx rx_size tx_last_bits c =
    let idle = write_all ((reg_command, 0) ∷ (reg_comirq, 0x7F) ∷ (reg_fifo_level, 0x80) ∷ []) c in
    let sent =
      write_all ((reg_bit_framing, tx_last_bits % 8) ∷ (reg_command, 0x0C) ∷ [])
        (write_fifo tx idle) in
    let (done, c1) = await_answer io 36 (mfrc522_set_bits io reg_bit_framing 0x80 sent) in
    let (err_reg, c2) = mfrc522_read io reg_error (mfrc522_clear_bits io reg_bit_framing 0x80 c1) in
    let (level, c3) = mfrc522_read io reg_fifo_level c2 in
    if not done
    then (none, c1)
    else if has_error err_reg
    then (none, c2)
    else read_answer io rx_size level c3

-- What picc_request_a and picc_anticoll send, and what they are answered.
unfoldable pub send_request_a : Spi → Chip → Option (List ℕ) × Chip
send_request_a io c = pcd_transceive io (0x26 ∷ []) 2 7 (mfrc522_write reg_coll 0x80 c)

unfoldable pub send_anticoll : Spi → Chip → Option (List ℕ) × Chip
send_anticoll io c = pcd_transceive io (0x93 ∷ 0x20 ∷ []) 5 0 (mfrc522_write reg_coll 0x80 c)

-- What the set-up of SPI and of the task answer.
pub record RfidSetup : Type 0 where
  pub bus_initialize : EspErr
  pub add_device : EspErr
  pub task_created : Bool

-- The result, s_hardware_ok, and the reader.
unfoldable pub rfid_reader_start :
    RfidSetup → Spi → Bool → Reader → Chip → EspErr × Bool × Reader × Chip
rfid_reader_start s io hardware_ok r c =
    let r1 = power_pins_init r in
    let (err, c1) = pcd_init_chip io c in
    if not (is_ok s.bus_initialize) && not (is_invalid_state s.bus_initialize)
    then (s.bus_initialize, hardware_ok, r1, c)
    else if not (is_ok s.add_device)
    then (s.add_device, hardware_ok, r1, c)
    else if not (is_ok err)
    then (esp_fail, false, r1, c1)
    else (if s.task_created then esp_ok else esp_fail, true, r1, c1)
