-- ===== src/Handled.antt =====
-- The cache of handled requests, and the filter of received packets:
-- libraries/a7105_mesh/a7105_mesh.cpp.
pub mod Once
pub mod Expire
pub mod Safe
use atmega_a.Prelude.{
  ℕ, zero, suc, ◌+◌, ◌-◌, ◌%◌, Bool, true, false, not, ◌&&◌, ◌||◌, List, [], ◌==◌, if◌then◌else◌,
  get_or, set, replicate, byte_at,
}
use atmega_a.Packet.{at_type, at_node_id, at_unique_id, get_packet_seq, get_pkt_unique_id}
use atmega_a.Mesh.{Mesh, handled_packet_cache_length, handled_packet_cache_seq_expire}

-- The offsets in an entry.
abbrev pub handled_op : ℕ
handled_op = 0

abbrev pub handled_seq : ℕ
handled_seq = 1

abbrev pub handled_unique_id : ℕ
handled_unique_id = 2

abbrev pub handled_header_size : ℕ
handled_header_size = 4

-- The entry of a packet, written over the entry `old`.
unfoldable pub handled_entry : List ℕ → List ℕ → List ℕ
handled_entry packet old =
    set
      (set (set (set old handled_op (byte_at packet at_type)) handled_seq (get_packet_seq packet))
        handled_unique_id (byte_at packet at_unique_id))
      (handled_unique_id + 1) (byte_at packet (at_unique_id + 1))

-- `_A7105_Mesh_Handling_Request`; every caller passes the packet cache, which the code reads
-- whatever is passed.
unfoldable pub handling_request : Mesh → Mesh
handling_request m = record m {
  handled_packet_cache =
      set m.handled_packet_cache m.last_handled_packet_index (
        handled_entry m.packet_cache
          (get_or m.handled_packet_cache m.last_handled_packet_index []));
  last_handled_packet_index = (m.last_handled_packet_index + 1) % handled_packet_cache_length;
}

-- The sender of the packet is that of the entry.
abbrev pub same_sender : List ℕ → List ℕ → Bool
same_sender packet entry =
    byte_at entry handled_unique_id == byte_at packet at_unique_id
    && byte_at entry (handled_unique_id + 1) == byte_at packet (at_unique_id + 1)

-- The inner loop of `_A7105_Mesh_Update_Handled_Packet_Cache`, `n` rounds left at `y`: whether the
-- entry's sequence number is one of the next ones.
unfoldable pub approaches_from : ℕ → ℕ → ℕ → ℕ → Bool
approaches_from seq entry_seq zero y = false
approaches_from seq entry_seq (suc n) y =
    if (seq + y) % 16 == entry_seq then true else approaches_from seq entry_seq n (suc y)

-- What the outer loop does to one entry.
unfoldable pub expire_entry : List ℕ → List ℕ → List ℕ
unfolding approaches_from
expire_entry packet entry =
    if same_sender packet entry
      && approaches_from (get_packet_seq packet) (byte_at entry handled_seq)
          handled_packet_cache_seq_expire 1
    then replicate handled_header_size 0
    else entry

-- The outer loop, with `n` rounds left at `x`.
unfoldable pub expire_from : List ℕ → List (List ℕ) → ℕ → ℕ → List (List ℕ)
unfolding expire_entry
expire_from packet cache zero x = cache
expire_from packet cache (suc n) x =
    expire_from packet (set cache x (expire_entry packet (get_or cache x []))) n (suc x)

-- `_A7105_Mesh_Update_Handled_Packet_Cache`
unfoldable pub update_handled_packet_cache : Mesh → Mesh
unfolding expire_from
update_handled_packet_cache m = record m {
  handled_packet_cache =
      expire_from m.packet_cache m.handled_packet_cache handled_packet_cache_length 0;
}

-- The entry is that of the packet's request.
abbrev pub is_entry_of : List ℕ → List ℕ → Bool
is_entry_of packet entry =
    byte_at packet at_type == byte_at entry handled_op
    && get_packet_seq packet == byte_at entry handled_seq
    && same_sender packet entry

-- The loop of `_A7105_Mesh_Filter_Packet` over the cache, with `n` rounds left at `x`.
unfoldable pub is_new_from : List ℕ → List (List ℕ) → ℕ → ℕ → Bool
is_new_from packet cache zero x = true
is_new_from packet cache (suc n) x =
    if is_entry_of packet (get_or cache x []) then false else is_new_from packet cache n (suc x)

-- `_A7105_Mesh_Filter_Packet`
unfoldable pub filter_packet : Mesh → ℕ → Bool → Bool
filter_packet m packet_type treat_as_request =
    if not (byte_at m.packet_cache at_type == packet_type)
    then false
    else if treat_as_request
    then is_new_from m.packet_cache m.handled_packet_cache handled_packet_cache_length 0
    else (m.target_node_id == 0 || byte_at m.packet_cache at_node_id == m.target_node_id)
      && (m.target_unique_id == 0 || get_pkt_unique_id m.packet_cache == m.target_unique_id)
