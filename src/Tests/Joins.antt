-- ===== src/Tests/Joins.antt =====
-- The theorems on packets that come in, and on joins, at a concrete node.
use atmega_a.Prelude.{
  ℕ, ◌%◌, ◌^◌, ◌<◌, ◌≡◌, refl, arith, true, false, none, if◌then◌else◌, byte_at, List, set,
  replicate,
}
use atmega_a.Packet.{at_type, at_target_id, pkt_conflict_name}
use atmega_a.Mesh.{Mesh, not_joined, joining, idle, getting_register_name}
use atmega_a.Mesh.Valid.{IsValid, IsValid-with}
use atmega_a.Send.{prep_packet_header, send_request}
use atmega_a.Handled.{update_handled_packet_cache}
use atmega_a.Join.{join, finish_rejoin, is_namesake}
use atmega_a.Join.Rejoin.{finish_rejoin-join}
use atmega_a.Repeater.{cache_packet_for_repeat}
use atmega_a.Packet.{IsPacket, get_packet_seq}
use atmega_a.Packet.Nibbles.{set-IsPacket}
use atmega_a.Send.Header.{zero-IsPacket}
use atmega_a.Handled.{filter_packet, is_new_from}
use atmega_a.Query.{handle_get_register_name, handle_register_name}
use atmega_a.Query.Missing.{missing_name_ignored}
use atmega_a.Update.{handle_requests, process_packet}
use atmega_a.Update.Membership.{process_packet_on_mesh, process_packet_not_joined}
use atmega_a.Update.Joining.{joining_step, process_packet_joining}
use atmega_a.Tests.{node, node-IsValid, name_packet-IsPacket, silent, passive}

process_packet_on_mesh_example : process_packet node ≡ (
    if is_namesake node
    then send_request (prep_packet_header node pkt_conflict_name)
    else handle_requests (cache_packet_for_repeat (update_handled_packet_cache node)))
process_packet_on_mesh_example = process_packet_on_mesh node refl

-- The node before it joined, and while it joins.
abbrev newcomer : Mesh
newcomer = record node { state = not_joined }

abbrev candidate : Mesh
candidate = record node { state = joining }

candidate-IsValid : IsValid candidate
candidate-IsValid = IsValid-with node-IsValid joining name_packet-IsPacket (λ e. cc)

process_packet_not_joined_example : process_packet newcomer ≡ update_handled_packet_cache newcomer
process_packet_not_joined_example = process_packet_not_joined newcomer refl

process_packet_joining_example :
    process_packet candidate ≡ joining_step (update_handled_packet_cache candidate)
process_packet_joining_example = process_packet_joining candidate candidate-IsValid refl

finish_rejoin-join_example :
    let r = finish_rejoin (join 9 none true node) in
    (r.state ≡ node.state)
    × (r.operation_callback ≡ node.operation_callback)
    × (r.target_node_id ≡ node.target_node_id)
    × (r.target_unique_id ≡ node.target_unique_id % 2 ^ 8)
    × (r.node_id ≡ 9)
    × (r.pending_operation ≡ false)
    × (byte_at r.packet_cache at_type ≡ byte_at node.pending_request_cache at_type)
    × ((i : ℕ) → at_target_id < i → byte_at r.packet_cache i ≡ 0)
finish_rejoin-join_example = finish_rejoin-join node 9 none node-IsValid (omega arith)

-- The node with a request for the name of its register 4, which it does not have, and the node that asks.
abbrev name_request : List ℕ
name_request = set (set (set (replicate 64 0) 0 0x08) 5 3) 6 4

name_request-IsPacket : IsPacket name_request
name_request-IsPacket =
    set-IsPacket 6 4
      (set-IsPacket 5 3 (set-IsPacket 0 0x08 zero-IsPacket (omega arith)) (omega arith))
      (omega arith)

abbrev asked : Mesh
asked = record node { packet_cache = name_request }

abbrev asking : Mesh
asking = record node {
  state = getting_register_name;
  target_register_index = 4;
  packet_cache = (handle_get_register_name asked).packet_cache;
}

missing_name_ignored_example : handle_register_name asking ≡ asking
unfolding filter_packet is_new_from get_packet_seq
missing_name_ignored_example =
    missing_name_ignored asked asking
      (IsValid-with node-IsValid idle name_request-IsPacket (λ e. cc)) refl refl refl (omega arith)
      refl (omega arith)
