-- ===== src/Query/Missing.antt =====
-- The answer to a GET_REGISTER_NAME for a register that the node does not have:
-- `_A7105_Mesh_Handle_GetRegisterName` and `_A7105_Mesh_Handle_RegisterName` of
-- libraries/a7105_mesh/a7105_mesh.cpp.
use atmega_a.Prelude.{
  ℕ, ◌+◌, ◌≤◌, ◌≡◌, ◌∙◌, ap, arith, true, false, ltb, ◌==◌, List, set, byte_at, get_or-set_self,
  get_or-set_ne,
}
use atmega_a.World.{Io}
use atmega_a.Packet.{
  at_type, at_target_id, at_data_start, at_reg_index, pkt_get_register_name, pkt_register_name,
}
use atmega_a.Codec.{get_register_index}
use atmega_a.Mesh.{Mesh, Client, is_off_mesh}
use atmega_a.Mesh.Valid.{IsValid}
use atmega_a.Send.{packet_header, prep_packet_header}
use atmega_a.Send.Header.{packet_header_fields}
use atmega_a.Send.Frame.{send_response-Kept}
use atmega_a.Handled.{handling_request, filter_packet}
use atmega_a.Query.{handle_get_register_name, handle_register_name}

-- The packet that answers for a register that is not there.
abbrev blank : Mesh → List ℕ
blank m =
    set (packet_header pkt_register_name m.sequence_num m.node_id m.unique_id m.target_node_id)
      at_data_start 0

-- Its type, the length of its name, and the byte behind: the place of the index.
blank_bytes :
    (m : Mesh)
    → IsValid m
    → (byte_at (blank m) at_type ≡ pkt_register_name)
      × (byte_at (blank m) at_data_start ≡ 0)
      × (byte_at (blank m) (at_data_start + 0 + 1) ≡ 0)
blank_bytes m v =
    let p = packet_header pkt_register_name m.sequence_num m.node_id m.unique_id m.target_node_id in
    let h =
      packet_header_fields pkt_register_name m.sequence_num m.node_id m.unique_id m.target_node_id
        (omega arith) v.seq_nibble v.node_byte v.unique_word v.target_byte in
    (
      get_or-set_ne p at_data_start at_type 0 0 (λ e. omega arith) ∙ h.1,
      get_or-set_self p at_data_start 0 0 (omega (arith, h.0.size)),
      get_or-set_ne p at_data_start 6 0 0 (λ e. omega arith) ∙ h.7 6 (omega arith),
    )

get_register_index-blank : (m : Mesh) → IsValid m → get_register_index (blank m) ≡ 0
unfolding get_register_index
get_register_index-blank m v = let b = blank_bytes m v in rw (b.0, b.1) b.2

module _ ⦃io : Io⦄ where
  packet-handle_get_register_name :
      (m : Mesh)
      → is_off_mesh m.state ≡ false
      → filter_packet m pkt_get_register_name true ≡ true
      → byte_at m.packet_cache at_target_id ≡ m.node_id
      → m.num_registers ≤ byte_at m.packet_cache at_reg_index
      → (handle_get_register_name m).packet_cache ≡ blank m
  unfolding handle_get_register_name prep_packet_header handling_request
  packet-handle_get_register_name m on fresh mine missing =
      let here : (byte_at m.packet_cache at_target_id == m.node_id) ≡ true = ground arith in
      let none_there : ltb (byte_at m.packet_cache at_reg_index) m.num_registers ≡ false =
        ground arith in
      rw (on, fresh, here, none_there) (send_response-Kept _).packet

-- A node that asks a valid node on the mesh for the name of a register that it does not have learns
-- nothing from the answer, unless it asked for index 0: the answer carries the index 0, whatever the
-- request asked for, so that the node that asked takes it for the answer to another request and
-- stays as it was.
pub missing_name_ignored :
    ⦃io : Io⦄
    → ⦃client : Client⦄ → (m asking : Mesh) → IsValid m
    → is_off_mesh m.state ≡ false
    → filter_packet m pkt_get_register_name true ≡ true
    → byte_at m.packet_cache at_target_id ≡ m.node_id
    → m.num_registers ≤ byte_at m.packet_cache at_reg_index
    → asking.packet_cache ≡ (handle_get_register_name m).packet_cache
    → 1 ≤ asking.target_register_index
    → handle_register_name asking ≡ asking
unfolding handle_register_name
missing_name_ignored m asking v on fresh mine missing received other =
    let index : get_register_index asking.packet_cache ≡ 0 =
      ap get_register_index (received ∙ packet-handle_get_register_name m on fresh mine missing)
      ∙ get_register_index-blank m v in
    let wrong : (asking.target_register_index == get_register_index asking.packet_cache) ≡ false =
      ground (arith, index) in
    ground (arith, wrong)
