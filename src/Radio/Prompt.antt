-- ===== src/Radio/Prompt.antt =====
-- A chip that reports the end of each transmission, and the accesses to the chip that then leave the
-- program where it goes on: libraries/a7105/a7105.cpp.
use atmega_a.Prelude.{
  ℕ, zero, suc, ◌%◌, ◌<◌, ◌≡◌, refl, arith, Bool, true, false, not, ◌||◌, Bool-cases, inl, inr,
  List, ltb, ◌==◌, byte_at, bit_and, passes, by_table,
}
use atmega_a.World.{
  M, pure, Io, World, int_ignore_one, int_triggered, emit, spi_transfer, read_count, write_count,
}
use atmega_a.Packet.{packet_size}
use atmega_a.Radio.{
  A7105, StatusCode, status_ok, reg_mode, select, release, strobe, write_reg, read_reg, fill_fifo,
  send_from, send_now, claim_and_send, write_data, check_integrity, check_tx_finished,
  check_rx_waiting, wait_tx_from, wait_tx_finished, easy_listen_for_packets,
}

module _ ⦃io : Io⦄ (r : A7105) where
  -- What follows a look for the end of the transmission that gave `code`.
  unfoldable pub wait_on : StatusCode → ℕ → World → World
  wait_on status_ok n w = w
  wait_on _ n w = (wait_tx_from r n w).1

  pub wait_tx_from_lem :
      (n : ℕ) (w : World)
      → (wait_tx_from r (suc n) w).1 ≡ wait_on (check_tx_finished r w).0 n (check_tx_finished r w).1
  unfolding wait_tx_from wait_on
  wait_tx_from_lem n w = by_code (check_tx_finished r w).0 (check_tx_finished r w).1
    where
      by_code :
          (code : StatusCode) (w' : World)
          → let rest : M (Unit {0}) = elim code [ status_ok ↦ pure tt | _ ↦ wait_tx_from r n ] in
            (rest w').1 ≡ wait_on code n w'
      by_code status_ok w' = refl
      by_code _ w' = refl

  -- One of the next `n` reads of the mode register answers with bit 0 clear: the transmission is over.
  unfoldable pub ends_within : ℕ → World → Bool
  ends_within zero w = false
  ends_within (suc n) w =
      let (mode, w') = read_reg r reg_mode w in mode % 2 == 0 || ends_within n w'

  -- The chip ends each transmission in the time that the wait has.
  abbrev pub IsPrompt : Type 0
  IsPrompt = (w : World) → ends_within io.patience w ≡ true

low_bit : (mode : ℕ) → mode < 256 → bit_and mode 0x01 ≡ mode % 2
unfolding passes
low_bit mode h = by_table (λ y. bit_and y 0x01) (λ y. y % 2) refl mode h

module _ ⦃io : Io⦄ (r : A7105) where
  send_from-stuck : (p : List ℕ) (n i : ℕ) (w : World) → (send_from p n i w).1.stuck ≡ w.stuck
  unfolding send_from spi_transfer
  send_from-stuck p zero i w = refl
  send_from-stuck p (suc n) i w = send_from-stuck p n (suc i) (spi_transfer (byte_at p i) w).1

  fill_fifo-stuck : (p : List ℕ) (len : ℕ) (w : World) → (fill_fifo r p len w).1.stuck ≡ w.stuck
  unfolding fill_fifo strobe write_reg select release emit spi_transfer
  fill_fifo-stuck p len w = send_from-stuck p len 0 _

  pub write_data-stuck : (p : List ℕ) (w : World) → (write_data r p packet_size w).1.stuck ≡ w.stuck
  unfolding write_data send_now claim_and_send strobe select release emit spi_transfer read_count
      write_count
  write_data-stuck p w =
      let ready : World = (strobe r 0xA0 w).1 in
      elim (Bool-cases (ltb 0 r.interrupt_pin)) [
        | inl e ↦ elim (Bool-cases ((read_count r.interrupt_pin ready).0 == int_ignore_one)) [
          | inl f ↦ rw (e, f) refl
          | inr f ↦ rw (e, f) (fill_fifo-stuck p packet_size _)
        ]
        | inr e ↦ rw e (fill_fifo-stuck p packet_size ready)
      ]

  pub listen-stuck : (w : World) → (easy_listen_for_packets r packet_size w).1.stuck ≡ w.stuck
  unfolding easy_listen_for_packets strobe write_reg select release emit spi_transfer write_count
  listen-stuck w = elim (Bool-cases (ltb 0 r.interrupt_pin)) [
    | inl e ↦ rw e refl
    | inr e ↦ rw e refl
  ]

  pub check_rx_waiting-stuck : (w : World) → (check_rx_waiting r w).1.stuck ≡ w.stuck
  unfolding check_rx_waiting check_integrity read_count read_reg select release emit spi_transfer
  check_rx_waiting-stuck w = elim (Bool-cases (ltb 0 r.interrupt_pin)) [
    | inl e ↦ elim (Bool-cases ((read_count r.interrupt_pin w).0 == int_triggered)) [
      | inl f ↦ elim (Bool-cases (r.use_crc || r.use_fec)) [
        | inl g ↦ rw (e, f, g) refl
        | inr g ↦ rw (e, f, g) refl
      ]
      | inr f ↦ rw (e, f) refl
    ]
    | inr e ↦ rw e refl
  ]

  over : (mode : ℕ) → mode < 256 → mode % 2 ≡ 0 → not (bit_and mode 0x01 == 0) ≡ false
  over mode h e = ground (arith, low_bit mode h)

  on_stuck :
      (code : StatusCode) (n : ℕ) (w : World)
      → (wait_tx_from r n w).1.stuck ≡ w.stuck
      → (wait_on r code n w).stuck ≡ w.stuck
  unfolding wait_on
  on_stuck status_ok n w h = refl
  on_stuck _ n w h = h

  wait_from-stuck :
      (n : ℕ) (w : World) → ends_within r n w ≡ true → (wait_tx_from r n w).1.stuck ≡ w.stuck
  unfolding ends_within wait_on check_tx_finished read_reg select release emit spi_transfer
  wait_from-stuck zero w h = absurd (ground arith)
  wait_from-stuck (suc n) w h =
      let mode : ℕ = (read_reg r reg_mode w).0 in
      elim (Bool-cases (mode % 2 == 0)) [
        | inl e ↦ rw (wait_tx_from_lem r n w, over mode (omega arith) (ground arith)) refl
        | inr e ↦ rw (wait_tx_from_lem r n w) (
            on_stuck (check_tx_finished r w).0 n (check_tx_finished r w).1
              (wait_from-stuck n (check_tx_finished r w).1 (ground arith)))
      ]

  pub wait-stuck : IsPrompt r → (w : World) → (wait_tx_finished r w).1.stuck ≡ w.stuck
  unfolding wait_tx_finished
  wait-stuck h w = wait_from-stuck io.patience w (h w)
