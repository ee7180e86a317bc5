-- ===== src/Send/Bus.antt =====
-- A request goes over the bus to the chip: `_A7105_Mesh_Send_Request` of
-- libraries/a7105_mesh/a7105_mesh.cpp with `A7105_WriteData` of libraries/a7105/a7105.cpp.
use atmega_a.Prelude.{
  ℕ, zero, suc, ◌≡◌, ◌∙◌, refl, ap, false, Bool-cases, inl, inr, List, [], ◌∷◌, ◌++◌, ltb, ◌==◌,
  ◌&&◌, byte_at, Bool,
}
use atmega_a.World.{Io, World, int_ignore_one, emit, spi_transfer, write_count, millis, give_up}
use atmega_a.Packet.{packet_size}
use atmega_a.Radio.{
  A7105, StatusCode, status_ok, select, release, strobe, write_reg, read_reg, write_data,
  check_tx_finished, wait_tx_from, wait_tx_finished, easy_listen_for_packets,
}
use atmega_a.Radio.Prompt.{wait_on, wait_tx_from_lem}
use atmega_a.Radio.Transfer.{transfers, packet_sent, counts_seen, write_data_lem}
use atmega_a.Mesh.{Mesh}
use atmega_a.Send.{send_request}
use atmega_a.Send.Outgoing.{sending, request_world}

-- The bytes on the bus, the newest first, begin with others and end with `sent`.
pub record EndsWith (sent all : List ℕ) : Type 0 where
  pub others : List ℕ
  pub together : all ≡ others ++ sent

EndsWith-refl : (sent : List ℕ) → EndsWith sent sent
EndsWith-refl sent = record { others = []; together = refl }

EndsWith-more : {sent all : List ℕ} (b : ℕ) → EndsWith sent all → EndsWith sent (b ∷ all)
EndsWith-more b h = record { others = b ∷ h.others; together = ap (λ t. b ∷ t) h.together }

pub EndsWith-same :
    {sent sent' all : List ℕ} → EndsWith sent all → sent ≡ sent' → EndsWith sent' all
EndsWith-same h e = record { others = h.others; together = h.together ∙ ap (λ t. h.others ++ t) e }

-- The write of the packet is refused: a WTR pin is set, and the counter of the pin tells of a
-- transmission under way.
abbrev pub is_refusing : ⦃io : Io⦄ → A7105 → World → Bool
is_refusing r w =
    ltb 0 r.interrupt_pin && byte_at (counts_seen r w) r.interrupt_pin == int_ignore_one

module _ ⦃io : Io⦄ (r : A7105) where
  wait_on-EndsWith :
      (code : StatusCode) (n : ℕ) (w : World) {sent : List ℕ}
      → EndsWith sent (transfers w.events)
      → EndsWith sent (transfers (wait_tx_from r n w).1.events)
      → EndsWith sent (transfers (wait_on r code n w).events)
  unfolding wait_on
  wait_on-EndsWith status_ok n w h k = h
  wait_on-EndsWith _ n w h k = k

  wait-EndsWith :
      (n : ℕ) (w : World) {sent : List ℕ}
      → EndsWith sent (transfers w.events)
      → EndsWith sent (transfers (wait_tx_from r n w).1.events)
  unfolding wait_tx_from give_up check_tx_finished read_reg select release emit spi_transfer
      transfers
  wait-EndsWith zero w h = h
  wait-EndsWith (suc n) w {sent} h =
      let seen : EndsWith sent (transfers (check_tx_finished r w).1.events) =
        EndsWith-more 0 (EndsWith-more 0x40 h) in
      rw (wait_tx_from_lem r n w) (
        wait_on-EndsWith (check_tx_finished r w).0 n (check_tx_finished r w).1 seen
          (wait-EndsWith n (check_tx_finished r w).1 seen))

  listen-EndsWith :
      (w : World) {sent : List ℕ}
      → EndsWith sent (transfers w.events)
      → EndsWith sent (transfers (easy_listen_for_packets r packet_size w).1.events)
  unfolding easy_listen_for_packets strobe write_reg select release emit spi_transfer write_count
      transfers
  listen-EndsWith w h =
      let more =
        EndsWith-more 0xC0
          (EndsWith-more 63 (EndsWith-more 3 (EndsWith-more 0xE0 (EndsWith-more 0xA0 h)))) in
      elim (Bool-cases (ltb 0 r.interrupt_pin)) [ inl e ↦ rw e more | inr e ↦ rw e more ]

  -- A packet that is not refused goes over the bus whole, before the wait and the return to listening.
  sending-EndsWith :
      (p : List ℕ) (w : World)
      → is_refusing r w ≡ false
      → EndsWith (packet_sent p packet_size (transfers w.events)) (transfers (sending r p w).events)
  unfolding sending wait_tx_finished millis transfers
  sending-EndsWith p w free =
      let written = (write_data_lem r p packet_size w).2 refl free in
      let start : EndsWith (packet_sent p packet_size (transfers w.events))
          (transfers (write_data r p packet_size w).1.events) =
        record { others = []; together = written.bytes } in
      listen-EndsWith _ (wait-EndsWith io.patience _ start)

-- A request of a node whose write is not refused sends the packet in its packet cache over the bus: its
-- length, the reset of the write pointer, the 64 bytes in order, and the order to send.
pub send_request-EndsWith :
    ⦃io : Io⦄ (m : Mesh)
    → is_refusing m.radio (millis m.world).1 ≡ false
    → EndsWith
        (packet_sent m.packet_cache packet_size (transfers m.world.events))
        (transfers (send_request m).world.events)
unfolding millis transfers
send_request-EndsWith m free =
    rw (request_world m) (sending-EndsWith m.radio m.packet_cache (millis m.world).1 free)
