-- ===== src/Join.antt =====
-- Joining a mesh, conflicts of node ids, and how an operation ends:
-- libraries/a7105_mesh/a7105_mesh.cpp.
pub mod Rejoin
pub mod Safe
use atmega_a.Prelude.{
  ℕ, ◌+◌, ◌%◌, Bool, true, false, not, ◌&&◌, ◌||◌, Option, none, some, ltb, ◌==◌, if◌then◌else◌,
  byte_at, memcpy,
}
use atmega_a.World.{Io}
use atmega_a.Packet.{
  packet_size, at_type, at_node_id, pkt_conflict_name, pkt_join, get_pkt_unique_id,
}
use atmega_a.Mesh.{
  not_joined, joining, idle, Status, ok, no_status, Callback, user, blocking_op_finished,
  rejoin_finished, Mesh, Client, is_off_mesh, same_state, now, is_past, join_accept_delay,
}
use atmega_a.Send.{prep_packet_header, send_request}
use atmega_a.Handled.{handling_request}

-- `_A7105_Mesh_Prep_Finishing_Callback`
unfoldable pub prep_finishing_callback : Option Callback → Option Callback → Mesh → Mesh
prep_finishing_callback none blocking_finished_callback m = record m {
  blocking_operation_status = no_status;
  operation_callback = blocking_finished_callback;
}
prep_finishing_callback (some user_finished_callback) blocking_finished_callback m = record m {
  blocking_operation_status = no_status;
  operation_callback = some user_finished_callback;
}

module _ ⦃io : Io⦄ ⦃client : Client⦄ where
  -- `_rejoin_finished`
  unfoldable pub finish_rejoin : Mesh → Mesh
  finish_rejoin m =
      let restored = record m {
        state = m.pending_state;
        operation_callback = m.pending_operation_callback;
        target_node_id = m.pending_target_node_id;
        target_unique_id = m.pending_target_unique_id;
        pending_operation = false;
        packet_cache = memcpy m.packet_cache 0 m.pending_request_cache 0 packet_size;
      } in
      send_request (prep_packet_header restored (byte_at restored.packet_cache at_type))

  -- The call of a callback. A call through NULL does not return; it is left out here, and does
  -- not occur while the invariant of the node holds.
  unfoldable pub call_back : Option Callback → Status → Mesh → Mesh
  unfolding finish_rejoin
  call_back none s m = m
  call_back (some (user k)) s m = client.finished k s m
  call_back (some blocking_op_finished) s m = record m { blocking_operation_status = s }
  call_back (some rejoin_finished) s m = finish_rejoin m

  -- `node->state = A7105_Mesh_IDLE; node->operation_callback(node, status, ...)`
  unfoldable pub finish_operation : Status → Mesh → Mesh
  unfolding call_back
  finish_operation s m = call_back m.operation_callback s (record m { state = idle })

  -- `A7105_Mesh_Join` with its four arguments, up to the wait of a blocking call.
  unfoldable pub join : ℕ → Option Callback → Bool → Mesh → Mesh
  unfolding prep_finishing_callback
  join node_id join_finished_callback interrupting m =
      let saved =
        if interrupting
        then record m {
          pending_operation = true;
          pending_operation_callback = m.operation_callback;
          pending_state = m.state;
          pending_target_node_id = m.target_node_id;
          pending_target_unique_id = m.target_unique_id % 256;
        }
        else m in
      let (t, timed) = now saved in
      let started = record timed {
        state = joining;
        target_unique_id = 0;
        node_id = node_id;
        join_first_tx_time = t;
      } in
      let called =
        if interrupting
        then prep_finishing_callback (some rejoin_finished) none started
        else prep_finishing_callback join_finished_callback (some blocking_op_finished) started in
      send_request (prep_packet_header called pkt_join)

  -- `_A7105_Mesh_Update_Join`
  unfoldable pub update_join : Mesh → Mesh
  unfolding finish_operation
  update_join m =
      if not (same_state m.state joining)
      then m
      else (let (accepted, m₁) = is_past m.join_first_tx_time join_accept_delay m in
          if accepted
          then finish_operation ok m₁
          else (let (due, m₂) = is_past m₁.request_sent_time m₁.join_retransmit_delay m₁ in
              if due then send_request (prep_packet_header m₂ pkt_join) else m₂))

  -- The packet came from another node that has our node id.
  abbrev pub is_namesake : Mesh → Bool
  is_namesake m =
      byte_at m.packet_cache at_node_id == m.node_id
      && not (get_pkt_unique_id m.packet_cache == m.unique_id)

  -- `_A7105_Mesh_Handle_Conflict_Name`
  unfoldable pub handle_conflict_name : Mesh → Mesh
  unfolding join
  handle_conflict_name m =
      if byte_at m.packet_cache at_type == pkt_conflict_name && is_namesake m
      then (let is_joining = same_state m.state joining in
          let need_to_rejoin =
            is_joining
            || not (same_state m.state not_joined)
              && ltb m.unique_id (get_pkt_unique_id m.packet_cache) in
          let rejoin_id = if is_joining then (m.node_id + 1) % 256 else 1 in
          let interrupting =
            not (same_state m.state not_joined)
            && not (same_state m.state idle)
            && not is_joining in
          if need_to_rejoin
          then (let h = handling_request m in join rejoin_id h.operation_callback interrupting h)
          else m)
      else m

  -- `_A7105_Mesh_Handle_Deferred_Joining`
  unfoldable pub handle_deferred_joining : Mesh → Mesh
  unfolding join
  handle_deferred_joining m =
      if same_state m.state joining
        && byte_at m.packet_cache at_type == pkt_join
        && byte_at m.packet_cache at_node_id == m.node_id
        && ltb m.unique_id (get_pkt_unique_id m.packet_cache)
      then join ((m.node_id + 1) % 256) m.operation_callback false m
      else m

  -- `_A7105_Mesh_Check_For_Node_ID_Conflicts`
  unfoldable pub check_for_node_id_conflicts : Mesh → Bool × Mesh
  check_for_node_id_conflicts m =
      if not (is_off_mesh m.state) && is_namesake m
      then (true, send_request (prep_packet_header m pkt_conflict_name))
      else (false, m)
