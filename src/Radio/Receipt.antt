-- ===== src/Radio/Receipt.antt =====
-- What `A7105_ReadData` of libraries/a7105/a7105.cpp leaves in the buffer and sends over the bus.
use atmega_a.Prelude.{
  ℕ, zero, suc, ◌≤◌, ◌<◌, ◌≡◌, ◌∙◌, refl, ap, arith, Bool, true, false, not, ◌&&◌, ◌||◌, Bool-cases,
  inl, inr, List, ◌∷◌, ltb, ◌==◌, if◌then◌else◌, length, set, byte_at, length-set, All, All-set,
}
use atmega_a.World.{
  Event, write_low, write_high, begin_transaction, end_transaction, transfer, count_access, Io,
  World, int_null, int_triggered, run_interrupts, emit, spi_transfer, read_count, write_count,
}
use atmega_a.Packet.{IsByte}
use atmega_a.Radio.{
  StatusCode, A7105, status_ok, invalid_fifo_length, no_data, rx_data_integrity_error,
  strobe_rst_rdptr, reg_fifo_data, max_fifo_size, select, release, strobe, read_reg, read_from,
  read_now, check_integrity, read_data,
}
use atmega_a.Radio.Transfer.{transfers}
use atmega_a.Radio.Answers.{
  tells_of_damage, answer_to, fifo_answers, after_reads, read_from-Read, check_integrity-status,
}

-- `n` reads of the FIFO register, the newest first, before what was there.
abbrev pub fifo_read : ℕ
fifo_read = 0x45

pub reads_onto : ℕ → List ℕ → List ℕ
reads_onto zero sent = sent
reads_onto (suc n) sent = reads_onto n (0x00 ∷ fifo_read ∷ sent)

-- What a buffer of bytes is after a read into it.
pub record Filled (buffer out : List ℕ) : Type 0 where
  pub size : length out ≡ length buffer
  pub bytes : All IsByte buffer → All IsByte out

module _ ⦃io : Io⦄ (r : A7105) where
  read_from_lem :
      (buffer : List ℕ) (n i : ℕ) (w : World)
      → let (out, w') = read_from r buffer n i w in
        Filled buffer out × (transfers w'.events ≡ reads_onto n (transfers w.events))
  unfolding read_from transfers reads_onto spi_transfer read_reg select release emit
  read_from_lem buffer zero i w = (record { size = refl; bytes = λ b. b }, refl)
  read_from_lem buffer (suc n) i w =
      let b : ℕ = (read_reg r reg_fifo_data w).0 in
      let rest = read_from_lem (set buffer i b) n (suc i) (read_reg r reg_fifo_data w).1 in
      (
        record {
          size = rest.0.size ∙ length-set buffer i b;
          bytes = λ s. rest.0.bytes (All-set IsByte buffer i b s (omega arith));
        },
        rest.1,
      )

  -- The read of the mode register that the check takes, if CRC or FEC is on.
  abbrev pub checked_onto : List ℕ → List ℕ
  checked_onto sent = if r.use_crc || r.use_fec then 0x00 ∷ 0x40 ∷ sent else sent

  check_integrity_lem :
      (w : World)
      → let (s, w') = check_integrity r status_ok w in
        transfers w'.events ≡ checked_onto (transfers w.events)
  unfolding check_integrity transfers spi_transfer read_reg select release emit
  check_integrity_lem w = elim (Bool-cases (r.use_crc || r.use_fec)) [
    | inl e ↦ rw e refl
    | inr e ↦ rw e refl
  ]

  -- The events when the reads of the FIFO start, `seen` being those before the counter is reset.
  abbrev pub reset_after : List Event → List Event
  reset_after seen =
      write_high r.cs_pin
      ∷ end_transaction
      ∷ transfer strobe_rst_rdptr
      ∷ begin_transaction
      ∷ write_low r.cs_pin
      ∷ count_access r.interrupt_pin
      ∷ seen

  -- What a read of `len` bytes gives, if the FIFO is read after the events `ready`: the status is that of
  -- damaged data exactly if CRC or FEC is on and the answer to the read of the mode has one of their
  -- bits set; the bytes are the answers to the reads of the FIFO, in order, and behind them the buffer is
  -- as it was.
  pub record Received (buffer : List ℕ) (len : ℕ) (ready : List Event) (code : StatusCode)
      (out : List ℕ) : Type 0 where
    pub judged : code ≡ (
        if (r.use_crc || r.use_fec) && tells_of_damage (answer_to r 0x40 (after_reads r len ready))
        then rx_data_integrity_error
        else status_ok)
    pub read :
        (k : ℕ) → k < len → k < length buffer → byte_at out k ≡ byte_at (fifo_answers r len ready) k
    pub kept : (k : ℕ) → len ≤ k → byte_at out k ≡ byte_at buffer k
    pub filled : Filled buffer out

  read_now_lem :
      (buffer : List ℕ) (len : ℕ) (w : World)
      → let ((s, out), w') = read_now r buffer len w in
        Received buffer len (reset_after w.events) s out
        × (transfers w'.events
            ≡ checked_onto (reads_onto len (strobe_rst_rdptr ∷ transfers w.events)))
  unfolding read_now transfers spi_transfer strobe select release emit write_count
  read_now_lem buffer len w =
      let ready : World =
        (strobe r strobe_rst_rdptr (write_count r.interrupt_pin int_null w).1).1 in
      let f = read_from_lem buffer len 0 ready in
      let g = read_from-Read r buffer len 0 ready in
      let done : World = (read_from r buffer len 0 ready).1 in
      (
        record {
          judged =
              check_integrity-status r done
              ∙ ap
                  (λ events.
                    if (r.use_crc || r.use_fec) && tells_of_damage (answer_to r 0x40 events)
                    then rx_data_integrity_error
                    else status_ok)
                  g.1;
          read = λ k l h.
              ap (byte_at (read_from r buffer len 0 ready).0) (omega arith)
              ∙ g.0.read k l (omega arith);
          kept = λ k l. g.0.kept k (inr (omega arith));
          filled = f.0;
        },
        check_integrity_lem done ∙ ap checked_onto f.1,
      )

  -- A WTR pin is set, and the counter that the driver reads first is not that of a received packet.
  abbrev pub nothing_came : World → Bool
  nothing_came w =
      ltb 0 r.interrupt_pin
      && not (
          byte_at (run_interrupts (io.interrupts w.events) w.counts) r.interrupt_pin
          == int_triggered)

  -- The events before the counter is reset: with a pin, its counter was read.
  abbrev pub seen_after : List Event → List Event
  seen_after events =
      if ltb 0 r.interrupt_pin then count_access r.interrupt_pin ∷ events else events

  -- `A7105_ReadData` of more than 64 bytes does nothing. If a WTR pin is set whose counter does not tell of
  -- a packet, it gives NO_DATA, leaves the buffer and sends nothing. Else it resets the read pointer,
  -- reads `len` bytes of the FIFO and, if CRC or FEC is on, the mode. The status is that of damaged data
  -- exactly if CRC or FEC is on and bit 5 or 6 of the chip's answer to that read of the mode is set, and
  -- else that of success. The first `len` bytes of the buffer, as far as it goes, are the chip's
  -- answers to the reads of the FIFO in order; the others stay, and so does the size of the buffer.
  pub read_data_lem :
      (buffer : List ℕ) (len : ℕ) (w : World)
      → let ((s, out), w') = read_data r buffer len w in
        (max_fifo_size < len → (s ≡ invalid_fifo_length) × (out ≡ buffer) × (w' ≡ w))
        × (len ≤ max_fifo_size
            → nothing_came w ≡ true
            → (s ≡ no_data) × (out ≡ buffer) × (transfers w'.events ≡ transfers w.events))
        × (len ≤ max_fifo_size
            → nothing_came w ≡ false
            → Received buffer len (reset_after (seen_after w.events)) s out
              × (transfers w'.events
                  ≡ checked_onto (reads_onto len (strobe_rst_rdptr ∷ transfers w.events))))
  unfolding read_data read_count transfers
  read_data_lem buffer len w = (
    (λ l. let e : ltb max_fifo_size len ≡ true = ground arith in rw e (refl, refl, refl)),
    (λ l q.
        let e : ltb max_fifo_size len ≡ false = ground arith in
        elim (Bool-cases (ltb 0 r.interrupt_pin)) [
          | inl f ↦ rw (e, f, rw f at q) (refl, refl, refl)
          | inr f ↦ absurd (ground arith)
        ]),
    (λ l q.
        let e : ltb max_fifo_size len ≡ false = ground arith in
        elim (Bool-cases (ltb 0 r.interrupt_pin)) [
          | inl f ↦ rw (e, f, rw f at q) (read_now_lem buffer len (read_count r.interrupt_pin w).1)
          | inr f ↦ rw (e, f) (read_now_lem buffer len w)
        ]),
  )
