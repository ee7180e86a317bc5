-- ===== src/Radio/Answers.antt =====
-- What the chip answers to the reads of `A7105_ReadData`, libraries/a7105/a7105.cpp, told by the
-- events alone.
use atmega_a.Prelude.{
  ℕ, zero, suc, ◌+◌, ◌*◌, ◌/◌, ◌%◌, ◌≤◌, ◌<◌, ◌≡◌, ◌⊎◌, ◌∙◌, refl, ap, arith, Bool, ◌&&◌, ◌||◌,
  Bool-cases, inl, inr, List, [], ◌∷◌, ◌==◌, if◌then◌else◌, length, set, byte_at, length-set,
  get_or-set_self, get_or-set_ne, bit_and, passes, by_table,
}
use atmega_a.World.{
  Event, write_low, write_high, begin_transaction, end_transaction, transfer, Io, World, emit,
  spi_transfer,
}
use atmega_a.Radio.{
  A7105, status_ok, rx_data_integrity_error, reg_fifo_data, is_damaged, select, release, read_reg,
  read_from, check_integrity,
}

-- Bit 5, of CRC, or bit 6, of FEC, is set in the mode register.
abbrev pub tells_of_damage : ℕ → Bool
tells_of_damage mode = mode / 32 % 2 == 1 || mode / 64 % 2 == 1

crc_bit : (mode : ℕ) → mode < 256 → bit_and mode 0x20 ≡ mode / 32 % 2 * 32
unfolding passes
crc_bit mode h = by_table (λ y. bit_and y 0x20) (λ y. y / 32 % 2 * 32) refl mode h

fec_bit : (mode : ℕ) → mode < 256 → bit_and mode 0x40 ≡ mode / 64 % 2 * 64
unfolding passes
fec_bit mode h = by_table (λ y. bit_and y 0x40) (λ y. y / 64 % 2 * 64) refl mode h

-- The driver's test is that of the two bits.
is_damaged_lem :
    ⦃io : Io⦄ (r : A7105) (mode : ℕ) → mode < 256 → is_damaged r mode ≡ tells_of_damage mode
is_damaged_lem r mode h = ground (arith, crc_bit mode h, fec_bit mode h)

module _ ⦃io : Io⦄ (r : A7105) where
  -- The chip's answer to a read of a register, with the command byte `command`, after some events.
  abbrev pub answer_to : ℕ → List Event → ℕ
  answer_to command events =
      io.miso (transfer 0x00 ∷ transfer command ∷ begin_transaction ∷ write_low r.cs_pin ∷ events)
      % 256

  -- The events once the read is over.
  abbrev pub after_read : ℕ → List Event → List Event
  after_read command events =
      write_high r.cs_pin
      ∷ end_transaction
      ∷ transfer 0x00
      ∷ transfer command
      ∷ begin_transaction
      ∷ write_low r.cs_pin
      ∷ events

  -- The answers to `n` reads of the FIFO in a row, and the events then.
  pub fifo_answers : ℕ → List Event → List ℕ
  fifo_answers zero events = []
  fifo_answers (suc n) events = answer_to 0x45 events ∷ fifo_answers n (after_read 0x45 events)

  pub after_reads : ℕ → List Event → List Event
  after_reads zero events = events
  after_reads (suc n) events = after_reads n (after_read 0x45 events)

  -- `n` bytes of `out` from `i` on are the answers, as far as the buffer goes, and the others are those of
  -- the buffer.
  pub record Read (buffer out : List ℕ) (n i : ℕ) (events : List Event) : Type 0 where
    pub read :
        (k : ℕ)
        → k < n
        → i + k < length buffer
        → byte_at out (i + k) ≡ byte_at (fifo_answers n events) k
    pub kept : (k : ℕ) → (k < i) ⊎ (i + n ≤ k) → byte_at out k ≡ byte_at buffer k

  Read-more :
      (buffer out : List ℕ) (n i : ℕ) (events : List Event)
      → Read (set buffer i (answer_to 0x45 events)) out n (suc i) (after_read 0x45 events)
      → Read buffer out (suc n) i events
  unfolding fifo_answers
  Read-more buffer out n i events rest = record {
    read = behind;
    kept = λ k d. rest.kept k (ground arith) ∙ get_or-set_ne buffer i k b 0 (λ e. ground arith);
  }
    where
      b : ℕ
      b = answer_to 0x45 events

      behind :
          (k : ℕ)
          → k < suc n
          → i + k < length buffer
          → byte_at out (i + k) ≡ byte_at (fifo_answers (suc n) events) k
      behind zero l h =
          ap (byte_at out) (omega arith)
          ∙ rest.kept i (inl (omega arith))
          ∙ get_or-set_self buffer i b 0 (omega arith)
      behind (suc k) l h =
          ap (byte_at out) (omega arith)
          ∙ rest.read k (omega arith) (omega (arith, length-set buffer i b))

  pub read_from-Read :
      (buffer : List ℕ) (n i : ℕ) (w : World)
      → let (out, w') = read_from r buffer n i w in
        Read buffer out n i w.events × (w'.events ≡ after_reads n w.events)
  unfolding read_from after_reads spi_transfer read_reg select release emit
  read_from-Read buffer zero i w =
      (record { read = λ k l h. absurd (omega arith); kept = λ k d. refl }, refl)
  read_from-Read buffer (suc n) i w =
      let b : ℕ = (read_reg r reg_fifo_data w).0 in
      let rest = read_from-Read (set buffer i b) n (suc i) (read_reg r reg_fifo_data w).1 in
      (Read-more buffer _ n i w.events rest.0, rest.1)

  -- The status by what the chip answers to the read of the mode register, if CRC or FEC is on.
  pub check_integrity-status :
      (w : World)
      → (check_integrity r status_ok w).0 ≡ (
          if (r.use_crc || r.use_fec) && tells_of_damage (answer_to 0x40 w.events)
          then rx_data_integrity_error
          else status_ok)
  unfolding check_integrity spi_transfer read_reg select release emit
  check_integrity-status w = elim (Bool-cases (r.use_crc || r.use_fec)) [
    | inl e ↦
        let same = is_damaged_lem r (answer_to 0x40 w.events) (omega arith) in
        rw e (ap (λ t. if t then rx_data_integrity_error else status_ok) same)
    | inr e ↦ rw e refl
  ]
