-- ===== src/Rfid/Chip/Bounds.antt =====
-- How long a transfer with the MFRC522 of main/rfid_reader.c takes, and what it writes.
use esp32_wifi_ap_cp.Base.{
  ℕ, zero, suc, ◌+◌, ◌%◌, ◌≤◌, ◌≡◌, min, Option, none, some, List, [], ◌∷◌, ◌++◌, length, arith,
  length-append, Option-cases, Bool-cases, inl, inr,
}
use esp32_wifi_ap_cp.Rfid.Chip.{
  Spi, Chip, reg_command, reg_comirq, reg_error, reg_fifo_data, reg_fifo_level, reg_bit_framing,
  mfrc522_write, mfrc522_read, mfrc522_set_bits, mfrc522_clear_bits, write_all, write_fifo,
  await_answer, read_fifo, has_error, read_answer, pcd_transceive,
}

abbrev pub Fits : ℕ → Option (List ℕ) → Type 0
Fits n none = Unit
Fits n (some rx) = length rx ≤ n

read_fifo-Fits :
    (io : Spi) (n size : ℕ) (rx : List ℕ) (c : Chip)
    → length rx + n ≤ size
    → Fits size (read_fifo io n rx c).0
unfolding read_fifo
read_fifo-Fits io zero size rx c h = omega arith
read_fifo-Fits io (suc n) size rx c h = elim (Option-cases (io.read c.transfers reg_fifo_data)) [
  | inl e ↦ rw e tt
  | inr (v, e) ↦ rw e (
      read_fifo-Fits io n size (rx ++ (v ∷ [])) (record c { transfers = c.transfers + 1 })
        (omega (arith, length-append rx (v ∷ []))))
]

read_answer-Fits :
    (io : Spi) (rx_size : ℕ) (level : Option ℕ) (c : Chip)
    → Fits rx_size (read_answer io rx_size level c).0
read_answer-Fits io rx_size none c = tt
read_answer-Fits io rx_size (some level) c =
    read_fifo-Fits io (min level rx_size) rx_size [] c (omega arith)

read_fifo_bounded :
    (io : Spi) (n : ℕ) (rx : List ℕ) (c : Chip)
    → (read_fifo io n rx c).1.transfers ≤ c.transfers + n
unfolding read_fifo
read_fifo_bounded io zero rx c = omega arith
read_fifo_bounded io (suc n) rx c = elim (Option-cases (io.read c.transfers reg_fifo_data)) [
  | inl e ↦ rw e (omega arith)
  | inr (v, e) ↦
      let c1 : Chip = record c { transfers = c.transfers + 1 } in
      let rest = read_fifo_bounded io n (rx ++ (v ∷ [])) c1 in rw e (omega (arith, rest))
]

await_answer_bounded :
    (io : Spi) (left : ℕ) (c : Chip) → (await_answer io left c).1.transfers ≤ c.transfers + left
unfolding await_answer
await_answer_bounded io zero c = omega arith
await_answer_bounded io (suc left) c =
    let c1 : Chip = record c { transfers = c.transfers + 1 } in
    let rest = await_answer_bounded io left c1 in ground (arith, rest)

write_fifo_bounded :
    (tx : List ℕ) (c : Chip) → (write_fifo tx c).transfers ≡ c.transfers + length tx
unfolding write_fifo
write_fifo_bounded [] c = omega arith
write_fifo_bounded (b ∷ bs) c =
    omega (arith, write_fifo_bounded bs (mfrc522_write reg_fifo_data b c))

bits_bounded :
    (io : Spi) (reg mask : ℕ) (c : Chip)
    → ((mfrc522_set_bits io reg mask c).transfers ≤ c.transfers + 2)
      × ((mfrc522_clear_bits io reg mask c).transfers ≤ c.transfers + 2)
unfolding mfrc522_set_bits mfrc522_clear_bits
bits_bounded io reg mask c = ground arith

read_answer_bounded :
    (io : Spi) (rx_size : ℕ) (level : Option ℕ) (c : Chip)
    → (read_answer io rx_size level c).1.transfers ≤ c.transfers + rx_size
read_answer_bounded io rx_size none c = omega arith
read_answer_bounded io rx_size (some level) c =
    omega (arith, read_fifo_bounded io (min level rx_size) [] c)

-- Whatever the chip answers, a transfer writes no byte behind the buffer for the answer, and it ends: it
-- takes no more SPI transfers than the bytes sent, the buffer's bytes and 47 more.
pub transceive_is_bounded :
    (io : Spi) (tx : List ℕ) (rx_size tx_last_bits : ℕ) (c : Chip)
    → let (answer, c') = pcd_transceive io tx rx_size tx_last_bits c in
      Fits rx_size answer × (c'.transfers ≤ c.transfers + length tx + rx_size + 47)
unfolding pcd_transceive write_all
transceive_is_bounded io tx rx_size tx_last_bits c =
    let idle = write_all ((reg_command, 0) ∷ (reg_comirq, 0x7F) ∷ (reg_fifo_level, 0x80) ∷ []) c in
    let sent =
      write_all ((reg_bit_framing, tx_last_bits % 8) ∷ (reg_command, 0x0C) ∷ [])
        (write_fifo tx idle) in
    let framed = mfrc522_set_bits io reg_bit_framing 0x80 sent in
    let (done, c1) = await_answer io 36 framed in
    let (err_reg, c2) = mfrc522_read io reg_error (mfrc522_clear_bits io reg_bit_framing 0x80 c1) in
    let (level, c3) = mfrc522_read io reg_fifo_level c2 in
    let sizes : c3.transfers ≤ c.transfers + length tx + 47 = omega (
      arith,
      write_fifo_bounded tx idle,
      (bits_bounded io reg_bit_framing 0x80 sent).0,
      await_answer_bounded io 36 framed,
      (bits_bounded io reg_bit_framing 0x80 c1).1,
    ) in
    elim (Bool-cases done) [
      | inl d ↦ elim (Bool-cases (has_error err_reg)) [
        | inl e ↦ rw (d, e) (tt, omega (arith, sizes))
        | inr e ↦
            rw (d, e)
              (
                read_answer-Fits io rx_size level c3,
                omega (arith, sizes, read_answer_bounded io rx_size level c3),
              )
      ]
      | inr d ↦ rw d (
        tt,
        omega (
          arith,
          write_fifo_bounded tx idle,
          (bits_bounded io reg_bit_framing 0x80 sent).0,
          await_answer_bounded io 36 framed,
        ),
      )
    ]
