-- ===== src/Radio/Transfer.antt =====
-- What goes over the bus when a packet is sent: `A7105_WriteData` of libraries/a7105/a7105.cpp.
use atmega_a.Prelude.{
  ℕ, zero, suc, ◌-◌, ◌%◌, ◌≡◌, refl, ap, arith, true, false, Bool-cases, inl, inr, List, [], ◌∷◌,
  ltb, ◌==◌, ◌&&◌, if◌then◌else◌, set, byte_at,
}
use atmega_a.World.{
  Event, transfer, Io, World, int_ignore_one, run_interrupts, emit, spi_transfer, read_count,
  write_count, count_access,
}
use atmega_a.Radio.{
  A7105, StatusCode, status_ok, invalid_fifo_length, busy, strobe_standby, strobe_tx,
  strobe_rst_wrptr, reg_fifo_i, reg_fifo_data, is_fifo_length, select, release, strobe, write_reg,
  fill_fifo, send_from, send_now, claim_and_send, write_data,
}

-- The bytes that went over the bus, the newest first.
unfoldable pub transfers : List Event → List ℕ
transfers [] = []
transfers (transfer b ∷ es) = b ∷ transfers es
transfers (e ∷ es) = transfers es

-- The `n` bytes of a buffer from index `i` on, the newest first, before what was there.
pub reversed_onto : List ℕ → ℕ → ℕ → List ℕ → List ℕ
reversed_onto buffer zero i sent = sent
reversed_onto buffer (suc n) i sent = reversed_onto buffer n (suc i) (byte_at buffer i ∷ sent)

-- What a packet takes: its length, the reset of the write pointer, the bytes, and the order to send.
abbrev pub packet_sent : List ℕ → ℕ → List ℕ → List ℕ
packet_sent buffer len sent =
    strobe_tx
    ∷ reversed_onto buffer len 0
        (reg_fifo_data ∷ strobe_rst_wrptr ∷ ((len - 1) % 256) ∷ reg_fifo_i ∷ strobe_standby ∷ sent)

module _ ⦃io : Io⦄ where
  send_from_lem :
      (buffer : List ℕ) (n i : ℕ) (w : World)
      → (transfers (send_from buffer n i w).1.events
          ≡ reversed_onto buffer n i (transfers w.events))
        × ((send_from buffer n i w).1.counts ≡ w.counts)
  unfolding send_from transfers reversed_onto spi_transfer
  send_from_lem buffer zero i w = (refl, refl)
  send_from_lem buffer (suc n) i w =
      send_from_lem buffer n (suc i) (spi_transfer (byte_at buffer i) w).1

  fill_fifo_lem :
      (r : A7105) (buffer : List ℕ) (len : ℕ) (w : World)
      → (transfers (fill_fifo r buffer len w).1.events
          ≡ strobe_tx
            ∷ reversed_onto buffer len 0 (
                reg_fifo_data
                ∷ strobe_rst_wrptr
                ∷ ((len - 1) % 256)
                ∷ reg_fifo_i
                ∷ transfers w.events))
        × ((fill_fifo r buffer len w).1.counts ≡ w.counts)
  unfolding fill_fifo transfers spi_transfer strobe write_reg select release emit
  fill_fifo_lem r buffer len w =
      let h = send_from_lem buffer len 0 _ in (ap (λ x. strobe_tx ∷ x) h.0, h.1)

  -- The counters when `A7105_WriteData` looks at them, after the strobe.
  pub counts_seen : A7105 → World → List ℕ
  counts_seen r w = run_interrupts (io.interrupts (strobe r strobe_standby w).1.events) w.counts

  -- What comes of a write that sends the packet.
  pub record Sent (r : A7105) (buffer : List ℕ) (len : ℕ) (w : World) (out : StatusCode × World)
      : Type 0 where
    pub status : out.0 ≡ status_ok
    pub bytes : transfers out.1.events ≡ packet_sent buffer len (transfers w.events)
    pub counts : out.1.counts ≡ (
        if ltb 0 r.interrupt_pin
        then set
            (run_interrupts
              (io.interrupts (count_access r.interrupt_pin ∷ (strobe r strobe_standby w).1.events))
              (counts_seen r w))
            r.interrupt_pin
            int_ignore_one
        else w.counts)

  -- What comes of a write that is refused since a transmission is under way.
  pub record Refused (r : A7105) (w : World) (out : StatusCode × World) : Type 0 where
    pub status : out.0 ≡ busy
    pub bytes : transfers out.1.events ≡ strobe_standby ∷ transfers w.events
    pub counts : out.1.counts ≡ counts_seen r w

  -- `A7105_WriteData` of a length other than 1, 8, 16, 32 and 64 does nothing. Else it orders the chip
  -- to standby. If a WTR pin is set whose counter is 0 then, it refuses, and sends no more. If not,
  -- it sends the length, resets the write pointer, sends the bytes of the buffer in order, and
  -- orders the transmission; the counter of the pin, if one is set, is 0 afterwards.
  pub write_data_lem :
      (r : A7105) (buffer : List ℕ) (len : ℕ) (w : World)
      → let out = write_data r buffer len w in
        (is_fifo_length len ≡ false → (out.0 ≡ invalid_fifo_length) × (out.1 ≡ w))
        × (is_fifo_length len ≡ true
            → (ltb 0 r.interrupt_pin && byte_at (counts_seen r w) r.interrupt_pin == int_ignore_one)
              ≡ true
            → Refused r w out)
        × (is_fifo_length len ≡ true
            → (ltb 0 r.interrupt_pin && byte_at (counts_seen r w) r.interrupt_pin == int_ignore_one)
              ≡ false
            → Sent r buffer len w out)
  unfolding write_data send_now claim_and_send counts_seen strobe select release emit spi_transfer
      read_count write_count transfers
  write_data_lem r buffer len w = (
    λ h. rw h (refl, refl),
    (λ h b. elim (Bool-cases (ltb 0 r.interrupt_pin)) [
      | inl e ↦ rw (h, e, rw e at b) record { status = refl; bytes = refl; counts = refl }
      | inr e ↦ absurd (ground arith)
    ]),
    (λ h b. elim (Bool-cases (ltb 0 r.interrupt_pin)) [
      | inl e ↦
          rw (h, e, rw e at b)
            (let f = fill_fifo_lem r buffer len _ in
              record { status = refl; bytes = f.0; counts = rw e f.1 })
      | inr e ↦
          rw (h, e)
            (let f = fill_fifo_lem r buffer len _ in
              record { status = refl; bytes = f.0; counts = rw e f.1 })
    ]),
  )
