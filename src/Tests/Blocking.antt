-- ===== src/Tests/Blocking.antt =====
-- A blocking PING at a concrete node.
use atmega_a.Prelude.{
  ℕ, zero, suc, ◌*◌, ◌≤◌, ◌≡◌, refl, arith, none, true, false, List, [], ◌∷◌, ◌==◌, ◌||◌,
  if◌then◌else◌, length, memcpy,
}
use atmega_a.World.{
  Io, Event, transfer, pin_interrupt_callback, run_interrupts, emit, spi_transfer, millis,
  read_count, write_count,
}
use atmega_a.Radio.{
  no_data, select, release, strobe, write_reg, read_reg, write_data, check_integrity,
  check_tx_finished, check_rx_waiting, easy_listen_for_packets, wait_tx_finished, fill_fifo,
}
use atmega_a.Radio.Prompt.{IsPrompt, ends_within}
use atmega_a.Send.{packet_header, prep_packet_header, send_request}
use atmega_a.Packet.{set_packet_seq, set_packet_hop}
use atmega_a.Join.{prep_finishing_callback}
use atmega_a.Mesh.{ok, is_past}
use atmega_a.Ping.{ping}
use atmega_a.Blocking.{mesh_ping}
use atmega_a.Blocking.Rounds.{Ended, rx_look, time_look, rounds}
use atmega_a.Blocking.Ends.{mesh_ping_ends}
use atmega_a.Tests.{node, passive}

-- The last order to the chip to send or to receive.
abbrev last_strobe : List Event → ℕ
last_strobe [] = 0
last_strobe (transfer b ∷ events) = if b == 0xE0 || b == 0xC0 then b else last_strobe events
last_strobe (_ ∷ events) = last_strobe events

-- Time passes with each event, and the chip is done at once with what it sends and receives nothing.
instance abbrev pub ticking : Io
ticking = record {
  miso = λ events. 0;
  millis_at = λ events. 600 * length events;
  random_at = λ events low high. low;
  analog_at = λ events pin. 0;
  interrupts = λ events. if last_strobe events == 0xE0 then 8 ∷ [] else [];
  serial_in = λ events. [];
  patience = 63;
}

nothing_received : (j : ℕ) → j ≤ 0 → (rx_look (rounds j (ping none node).1)).0 ≡ no_data
unfolding rounds ping packet_header prep_packet_header send_request select release strobe write_reg
    read_reg write_data check_integrity check_tx_finished check_rx_waiting easy_listen_for_packets
    wait_tx_finished fill_fifo pin_interrupt_callback run_interrupts emit spi_transfer millis
    read_count write_count is_past set_packet_seq set_packet_hop prep_finishing_callback memcpy
nothing_received zero l = refl
nothing_received (suc j) l = absurd (omega arith)

timed_out : (time_look (rounds 0 (ping none node).1)).0 ≡ true
unfolding rounds ping packet_header prep_packet_header send_request select release strobe write_reg
    read_reg write_data check_integrity check_tx_finished check_rx_waiting easy_listen_for_packets
    wait_tx_finished fill_fifo pin_interrupt_callback run_interrupts emit spi_transfer millis
    read_count write_count is_past set_packet_seq set_packet_hop prep_finishing_callback memcpy
timed_out = refl

-- The chip of `ticking` is done at once.
at_once : IsPrompt node.radio
unfolding ends_within read_reg select release emit spi_transfer
at_once w = refl

mesh_ping_ends_example :
    ((mesh_ping none node).0 ≡ ok)
    × Ended (mesh_ping none node).1
    × ((mesh_ping none node).1.world.stuck ≡ false)
mesh_ping_ends_example =
    mesh_ping_ends node 0 refl (omega arith) nothing_received timed_out at_once refl refl
