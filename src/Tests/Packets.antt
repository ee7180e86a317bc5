-- ===== src/Tests/Packets.antt =====
-- The packet theorems at concrete packets.
use atmega_a.Prelude.{ℕ, ◌<◌, ◌≡◌, ◌↔◌, arith, true, byte_at}
use atmega_a.Packet.{
  IsPacket, at_type, at_node_id, at_target_id, pkt_get_num_registers, get_packet_seq,
  get_packet_hop, set_packet_hop, get_pkt_unique_id, is_same_packet_sans_hop,
}
use atmega_a.Packet.Same.{same_iff_equal_without_hop}
use atmega_a.Send.{packet_header}
use atmega_a.Send.Header.{packet_header_fields}
use atmega_a.Tests.{name_packet, name_packet-IsPacket, hopped_packet, hopped_packet-IsPacket}

same_iff_equal_without_hop_example :
    (is_same_packet_sans_hop name_packet hopped_packet ≡ true)
    ↔ (set_packet_hop name_packet 0 ≡ set_packet_hop hopped_packet 0)
same_iff_equal_without_hop_example =
    same_iff_equal_without_hop name_packet hopped_packet name_packet-IsPacket hopped_packet-IsPacket

packet_header_fields_example :
    let p = packet_header pkt_get_num_registers 15 3 0x1234 9 in
    IsPacket p
    × (byte_at p at_type ≡ pkt_get_num_registers)
    × (get_packet_seq p ≡ 15)
    × (get_packet_hop p ≡ 0)
    × (byte_at p at_node_id ≡ 3)
    × (get_pkt_unique_id p ≡ 0x1234)
    × (byte_at p at_target_id ≡ 9)
    × ((i : ℕ) → at_target_id < i → byte_at p i ≡ 0)
packet_header_fields_example =
    packet_header_fields pkt_get_num_registers 15 3 0x1234 9 (omega arith) (omega arith)
      (omega arith) (omega arith) (omega arith)
