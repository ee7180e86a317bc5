-- ===== src/Send.antt =====
-- How a node makes and sends its packets: the header, the cache of responses to repeat, and
-- `_A7105_Mesh_Send_*` of libraries/a7105_mesh/a7105_mesh.cpp.
pub mod Bus
pub mod Header
pub mod Frame
pub mod Outgoing
pub mod Safe
use atmega_a.Prelude.{
  ℕ, suc, ◌+◌, ◌-◌, ◌/◌, ◌%◌, ◌^◌, Bool, true, false, not, ◌||◌, Option, none, some, List, [], ◌==◌,
  if◌then◌else◌, get_or, set, replicate, byte_at, memcpy,
}
use atmega_a.World.{Io}
use atmega_a.Radio.{StatusCode, write_data, wait_tx_finished, easy_listen_for_packets}
use atmega_a.Packet.{
  packet_size, at_type, at_hop_seq, at_node_id, at_unique_id, at_target_id, pkt_join, pkt_pong,
  pkt_get_num_registers, pkt_num_registers, pkt_get_register_name, pkt_register_name,
  pkt_register_value, pkt_set_register_ack, get_packet_seq, set_packet_seq, set_packet_hop,
}
use atmega_a.Codec.{filter_register_name}
use atmega_a.Mesh.{Mesh, max_repeat_cache_size, response_cache_size, on_radio, now}

-- The offsets in an entry of the response cache.
abbrev pub entry_op : ℕ
entry_op = 0

abbrev pub entry_rep_count : ℕ
entry_rep_count = 1

abbrev pub entry_seq : ℕ
entry_seq = 2

abbrev pub entry_data : ℕ
entry_data = 3

-- The packet that `_A7105_Mesh_Prep_Packet_Header` leaves in the packet cache.
unfoldable pub packet_header : ℕ → ℕ → ℕ → ℕ → ℕ → List ℕ
packet_header packet_type sequence_num node_id unique_id target_node_id =
    let typed = set (replicate packet_size 0) at_type packet_type in
    let numbered = set_packet_seq (set_packet_hop typed 0) sequence_num in
    let sent = set numbered at_node_id node_id in
    let signed =
      set (set sent at_unique_id (unique_id / 2 ^ 8 % 256)) (at_unique_id + 1) (unique_id % 256) in
    if packet_type == pkt_get_num_registers || packet_type == pkt_get_register_name
    then set signed at_target_id target_node_id
    else signed

-- `_A7105_Mesh_Prep_Packet_Header`
unfoldable pub prep_packet_header : Mesh → ℕ → Mesh
prep_packet_header m packet_type = record m {
  packet_cache = packet_header packet_type m.sequence_num m.node_id m.unique_id m.target_node_id;
}

-- `(byte)` of the index that `_A7105_Mesh_Filter_RegisterName` returns.
abbrev pub index_byte : Option ℕ → ℕ
index_byte none = 255
index_byte (some i) = i % 256

-- The entry that `_A7105_Mesh_Append_Response_Repeat` leaves where `old` stood.
unfoldable pub response_entry : Mesh → List ℕ → List ℕ
response_entry m old =
    let sequence = get_packet_seq m.packet_cache in
    let op = byte_at m.packet_cache at_type in
    let e = set (set (set old entry_op op) entry_rep_count 0) entry_seq sequence in
    let e' =
      if op == pkt_register_name || op == pkt_register_value
      then set e entry_data
          (index_byte (filter_register_name m.packet_cache m.registers m.num_registers))
      else if op == pkt_set_register_ack
      then set e entry_data (byte_at m.packet_cache at_target_id)
      else e in
    set e' entry_seq sequence

-- `_A7105_Mesh_Append_Response_Repeat`. The room is compared with the size of the other ring.
unfoldable pub append_response_repeat : Mesh → Mesh
unfolding response_entry
append_response_repeat m =
    if m.response_repeat_cache_size == max_repeat_cache_size then m else record m {
      response_repeat_cache =
          set m.response_repeat_cache m.response_repeat_cache_end
            (response_entry m (get_or m.response_repeat_cache m.response_repeat_cache_end []));
      response_repeat_cache_end = (m.response_repeat_cache_end + 1) % response_cache_size;
      response_repeat_cache_size = (m.response_repeat_cache_size + 1) % 256;
    }

-- `_A7105_Mesh_Pop_Response_Repeat`; no caller uses the entry that it returns.
unfoldable pub pop_response_repeat : Mesh → Mesh
pop_response_repeat m = if m.response_repeat_cache_size == 0 then m else record m {
  response_repeat_cache_start = (m.response_repeat_cache_start + 1) % response_cache_size;
  response_repeat_cache_size = m.response_repeat_cache_size - 1;
}

abbrev pub is_response_type : ℕ → Bool
is_response_type packet_type =
    packet_type == pkt_pong
    || packet_type == pkt_num_registers
    || packet_type == pkt_register_name
    || packet_type == pkt_register_value
    || packet_type == pkt_set_register_ack

module _ ⦃io : Io⦄ where
  -- `A7105_WriteData` of a packet, whose status no caller looks at.
  unfoldable pub transmit : List ℕ → Mesh → Mesh
  transmit packet m = (on_radio (λ r. write_data r packet packet_size) m).1

  -- The wait for the end of the transmission, and the return to listening.
  unfoldable pub await_transmission : Mesh → Mesh
  await_transmission m = (on_radio wait_tx_finished m).1

  unfoldable pub listen : Mesh → Mesh
  listen m = (on_radio (λ r. easy_listen_for_packets r packet_size) m).1

  -- `_A7105_Mesh_Send_Response`
  unfoldable pub send_response : Mesh → Mesh
  unfolding transmit await_transmission listen append_response_repeat
  send_response m =
      let cached =
        if is_response_type (byte_at m.packet_cache at_type) then append_response_repeat m else m in
      let sent = await_transmission (transmit cached.packet_cache cached) in
      let (t, timed) = now sent in listen (record timed { last_response_repeat_sent_time = t })

  abbrev bump_sequence : Mesh → Mesh
  bump_sequence m = record m { sequence_num = (m.sequence_num + 1) % 16 }

  -- `_A7105_Mesh_Send_Request`
  unfoldable pub send_request : Mesh → Mesh
  unfolding send_response
  send_request m =
      let (t, timed) = now m in
      let bumped = record (bump_sequence timed) {
        request_sent_time = t;
        request_repeat_count = 0;
        last_request_repeat_sent_time = t;
      } in
      send_response (
        if not (byte_at m.packet_cache at_type == pkt_join)
        then record bumped {
          pending_request_cache = memcpy m.pending_request_cache 0 m.packet_cache 0 packet_size;
        }
        else bumped)

  -- `_A7105_Mesh_Send_Broadcast`
  unfoldable pub send_broadcast : Mesh → Mesh
  unfolding send_response
  send_broadcast m = send_response (bump_sequence m)
