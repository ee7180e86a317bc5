-- ===== src/Query.antt =====
-- The operations that list a node's registers, GET_NUM_REGISTERS and GET_REGISTER_NAME, and the
-- timeout of operations: libraries/a7105_mesh/a7105_mesh.cpp.
pub mod Missing
pub mod Safe
use atmega_a.Prelude.{
  ℕ, true, false, not, ◌&&◌, Option, some, ltb, ◌==◌, if◌then◌else◌, get_or, set, byte_at,
}
use atmega_a.World.{Io, serial_print, emit}
use atmega_a.Packet.{
  at_node_id, at_target_id, at_data_start, at_reg_index, pkt_get_num_registers, pkt_num_registers,
  pkt_get_register_name, pkt_register_name, get_pkt_unique_id,
}
use atmega_a.Codec.{
  no_register, register_to_packet, packet_to_register, get_register_index, set_register_index,
}
use atmega_a.Mesh.{
  State, getting_num_registers, getting_register_name, Status, ok, timeout, invalid_register_index,
  Callback, blocking_op_finished, Mesh, Client, is_off_mesh, same_state, is_past, on_radio,
}
use atmega_a.Send.{prep_packet_header, send_response, send_request}
use atmega_a.Handled.{handling_request, filter_packet}
use atmega_a.Join.{prep_finishing_callback, finish_operation}
use atmega_a.Ping.{is_node_idle}

-- The header, and one byte more.
abbrev pub with_byte : ℕ → ℕ → Mesh → Mesh
with_byte i b m = record m { packet_cache = set m.packet_cache i b }

-- `responder_node_id` and `responder_unique_id` from the packet.
unfoldable pub record_responder : Mesh → Mesh
record_responder m = record m {
  responder_node_id = byte_at m.packet_cache at_node_id;
  responder_unique_id = get_pkt_unique_id m.packet_cache;
}

module _ ⦃io : Io⦄ where
  -- `A7105_Mesh_GetNumRegisters`, up to the wait of a blocking call.
  unfoldable pub get_num_registers : ℕ → ℕ → Option Callback → Mesh → Status × Mesh
  get_num_registers node_id target_unique_id finished_callback m = elim (is_node_idle m) [
    | ok ↦
        let started = record m {
          state = getting_num_registers;
          target_node_id = node_id;
          target_unique_id = target_unique_id;
        } in
        let called =
          prep_finishing_callback finished_callback (some blocking_op_finished) started in
        (
          ok,
          send_request
              (with_byte at_target_id node_id (prep_packet_header called pkt_get_num_registers)),
        )
    | refusal ↦ (refusal, m)
  ]

  -- `_A7105_Mesh_Handle_GetNumRegisters`
  unfoldable pub handle_get_num_registers : Mesh → Mesh
  handle_get_num_registers m =
      if not (is_off_mesh m.state)
        && filter_packet m pkt_get_num_registers true
        && byte_at m.packet_cache at_target_id == m.node_id
      then (let headed = prep_packet_header (handling_request m) pkt_num_registers in
          send_response (with_byte at_data_start headed.num_registers headed))
      else m

  -- `A7105_Mesh_GetRegisterName`, up to the wait of a blocking call.
  unfoldable pub get_register_name : ℕ → ℕ → ℕ → Option Callback → Mesh → Status × Mesh
  get_register_name node_id reg_index filter_unique_id finished_callback m = elim (is_node_idle m) [
    | ok ↦
        let started = record m {
          state = getting_register_name;
          target_node_id = node_id;
          target_unique_id = filter_unique_id;
          target_register_index = reg_index;
        } in
        let called =
          prep_finishing_callback finished_callback (some blocking_op_finished) started in
        let addressed =
          with_byte at_target_id node_id (prep_packet_header called pkt_get_register_name) in
        (ok, send_request (with_byte at_reg_index reg_index addressed))
    | refusal ↦ (refusal, m)
  ]

  -- The name of a register that the node has, put in the packet with its index.
  unfoldable pub answer_name : ℕ → Mesh → Mesh
  answer_name reg_index m =
      let named =
        (register_to_packet m.packet_cache (get_or m.registers reg_index no_register) false).1 in
      let (_, printed) = on_radio (λ _. emit (serial_print reg_index)) m in
      record printed { packet_cache = (set_register_index named reg_index).1 }

  -- `_A7105_Mesh_Handle_GetRegisterName`
  unfoldable pub handle_get_register_name : Mesh → Mesh
  unfolding answer_name
  handle_get_register_name m =
      if not (is_off_mesh m.state)
        && filter_packet m pkt_get_register_name true
        && byte_at m.packet_cache at_target_id == m.node_id
      then (let reg_index = byte_at m.packet_cache at_reg_index in
          let headed =
            with_byte at_data_start 0 (prep_packet_header (handling_request m) pkt_register_name) in
          send_response
            (if ltb reg_index headed.num_registers then answer_name reg_index headed else headed))
      else m

module _ ⦃io : Io⦄ ⦃client : Client⦄ where
  -- `_A7105_Mesh_Handle_NumRegisters`
  unfoldable pub handle_num_registers : Mesh → Mesh
  unfolding record_responder
  handle_num_registers m =
      if same_state m.state getting_num_registers && filter_packet m pkt_num_registers false
      then finish_operation ok (
          record_responder
            (record m { num_registers_cache = byte_at m.packet_cache at_data_start }))
      else m

  -- `_A7105_Mesh_Handle_RegisterName`
  unfoldable pub handle_register_name : Mesh → Mesh
  unfolding record_responder
  handle_register_name m =
      if same_state m.state getting_register_name
        && filter_packet m pkt_register_name false
        && m.target_register_index == get_register_index m.packet_cache
      then (let (converted, reg) = packet_to_register m.packet_cache m.register_cache false in
          finish_operation (if converted then ok else invalid_register_index)
            (record_responder (record m { register_cache = reg })))
      else m

  -- `_A7105_Mesh_Check_For_Timeout`
  unfoldable pub check_for_timeout : State → ℕ → Mesh → Mesh
  check_for_timeout operation limit m =
      if not (same_state m.state operation)
      then m
      else (let (late, m₁) = is_past m.request_sent_time limit m in
          if late then finish_operation timeout m₁ else m₁)
