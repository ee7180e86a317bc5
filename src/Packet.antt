-- ===== src/Packet.antt =====
-- The packet layout of libraries/a7105_mesh/a7105_mesh_packet.h and the packet functions of
-- libraries/a7105_mesh/a7105_mesh.cpp. A packet is the list of its 64 bytes.
pub mod Nibbles
pub mod Same
use atmega_a.Prelude.{
  ℕ, zero, suc, ◌+◌, ◌*◌, ◌/◌, ◌%◌, ◌^◌, ◌<◌, ◌≡◌, Bool, true, false, not, ◌&&◌, List, ◌==◌,
  if◌then◌else◌, length, set, byte_at, All, bit_and, bit_or,
}

-- A7105_MESH_PACKET_SIZE
abbrev pub packet_size : ℕ
packet_size = 64

-- The packet types.
abbrev pub pkt_conflict_name : ℕ
pkt_conflict_name = 0x01

abbrev pub pkt_conflict_register : ℕ
pkt_conflict_register = 0x02

abbrev pub pkt_join : ℕ
pkt_join = 0x03

abbrev pub pkt_ping : ℕ
pkt_ping = 0x04

abbrev pub pkt_pong : ℕ
pkt_pong = 0x05

abbrev pub pkt_get_num_registers : ℕ
pkt_get_num_registers = 0x06

abbrev pub pkt_num_registers : ℕ
pkt_num_registers = 0x07

abbrev pub pkt_get_register_name : ℕ
pkt_get_register_name = 0x08

abbrev pub pkt_register_name : ℕ
pkt_register_name = 0x09

abbrev pub pkt_get_register : ℕ
pkt_get_register = 0x0A

abbrev pub pkt_register_value : ℕ
pkt_register_value = 0x0B

abbrev pub pkt_set_register : ℕ
pkt_set_register = 0x0C

abbrev pub pkt_set_register_ack : ℕ
pkt_set_register_ack = 0x0D

-- The offsets in a packet.
abbrev pub at_type : ℕ
at_type = 0

abbrev pub at_hop_seq : ℕ
at_hop_seq = 1

abbrev pub at_node_id : ℕ
at_node_id = 2

abbrev pub at_unique_id : ℕ
at_unique_id = 3

abbrev pub at_target_id : ℕ
at_target_id = 5

abbrev pub at_data_start : ℕ
at_data_start = 5

abbrev pub at_reg_index : ℕ
at_reg_index = 6

abbrev pub at_name_start : ℕ
at_name_start = 6

abbrev pub at_err_msg_start : ℕ
at_err_msg_start = 6

abbrev pub hop_mask : ℕ
hop_mask = 0x0F

abbrev pub seq_mask : ℕ
seq_mask = 0xF0

-- A byte of the source.
abbrev pub IsByte : ℕ → Type 0
IsByte b = b < 256

-- What an array `byte[64]` holds.
pub record IsPacket (p : List ℕ) : Type 0 where
  pub size : length p ≡ packet_size
  pub bytes : All IsByte p

-- `_A7105_Mesh_Get_Packet_Seq`
unfoldable pub get_packet_seq : List ℕ → ℕ
get_packet_seq p = bit_and (byte_at p at_hop_seq) seq_mask / 2 ^ 4

-- `_A7105_Mesh_Set_Packet_Seq`; the shift is done in `int`.
unfoldable pub set_packet_seq : List ℕ → ℕ → List ℕ
set_packet_seq p sequence =
    set p at_hop_seq
      (bit_or (bit_and (byte_at p at_hop_seq) hop_mask) (bit_and (sequence * 2 ^ 4) seq_mask))

-- `_A7105_Mesh_Get_Packet_Hop`
unfoldable pub get_packet_hop : List ℕ → ℕ
get_packet_hop p = bit_and (byte_at p at_hop_seq) hop_mask

-- `_A7105_Mesh_Set_Packet_Hop`
unfoldable pub set_packet_hop : List ℕ → ℕ → List ℕ
set_packet_hop p hop =
    set p at_hop_seq (bit_or (bit_and (byte_at p at_hop_seq) seq_mask) (bit_and hop hop_mask))

-- `A7105_Util_Get_Pkt_Unique_Id`, in `uint16_t`.
unfoldable pub get_pkt_unique_id : List ℕ → ℕ
get_pkt_unique_id p =
    (byte_at p at_unique_id * 2 ^ 8 % 2 ^ 16 + byte_at p (at_unique_id + 1)) % 2 ^ 16

-- The loop of `_A7105_Mesh_Util_Is_Same_Packet_Sans_Hop`: `n` rounds left, at index `x`.
unfoldable pub same_from : List ℕ → List ℕ → ℕ → ℕ → Bool
same_from a b zero x = true
same_from a b (suc n) x =
    if not (byte_at a x == byte_at b x) && not (x == at_hop_seq)
    then false
    else same_from a b n (suc x)

-- `_A7105_Mesh_Util_Is_Same_Packet_Sans_Hop`
unfoldable pub is_same_packet_sans_hop : List ℕ → List ℕ → Bool
is_same_packet_sans_hop a b =
    if not (get_packet_seq a == get_packet_seq b) then false else same_from a b packet_size 0
