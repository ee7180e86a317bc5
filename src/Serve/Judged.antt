-- ===== src/Serve/Judged.antt =====
-- What the requester learns of a SET_REGISTER: the status of the callback and the error message in the
-- acknowledgement, `_A7105_Mesh_Handle_SetRegister` of libraries/a7105_mesh/a7105_mesh.cpp.
use atmega_a.Prelude.{
  ℕ, ◌≡◌, ◌≢◌, ◌∙◌, refl, arith, List, set, byte_at, strncpy, get_or-set_ne, strncpy_first,
}
use atmega_a.Packet.{IsPacket, at_target_id, at_err_msg_start, pkt_set_register_ack, at_node_id}
use atmega_a.Packet.Nibbles.{set-IsPacket, byte_at-IsByte}
use atmega_a.Mesh.{
  Mesh, Status, no_status, ok, timeout, invalid_register_index, invalid_register_length,
  invalid_register_returned, invalid_register_value, not_on_mesh, mesh_busy, mesh_full,
  mesh_already_joining, radio_init_error, radio_calibration_error, radio_invalid_channel,
  auto_set_register,
}
use atmega_a.Mesh.Valid.{IsValid}
use atmega_a.Send.{packet_header, prep_packet_header}
use atmega_a.Send.Header.{packet_header_fields}
use atmega_a.Handled.{handling_request}
use atmega_a.Values.{err_not_set, put_message}
use atmega_a.Serve.{judge, acknowledge}

-- The acknowledgement without a message.
abbrev plain : Mesh → List ℕ
plain m =
    set (packet_header pkt_set_register_ack m.sequence_num m.node_id m.unique_id m.target_node_id)
      at_target_id (byte_at m.packet_cache at_node_id)

plain_fields :
    (m : Mesh) → IsValid m → IsPacket (plain m) × (byte_at (plain m) at_err_msg_start ≡ 0)
plain_fields m v =
    let h =
      packet_header_fields pkt_set_register_ack m.sequence_num m.node_id m.unique_id
        m.target_node_id (omega arith) v.seq_nibble v.node_byte v.unique_word v.target_byte in
    (
      set-IsPacket at_target_id (byte_at m.packet_cache at_node_id) h.0
          (byte_at-IsByte at_node_id v.packet),
      get_or-set_ne
            (packet_header pkt_set_register_ack m.sequence_num m.node_id m.unique_id
              m.target_node_id)
            at_target_id at_err_msg_start (byte_at m.packet_cache at_node_id) 0 (λ e. omega arith)
          ∙ h.7 at_err_msg_start (omega arith),
    )

-- For a set callback of a valid node that returns a status other than INVALID_REGISTER_VALUE and
-- AUTO_SET_REGISTER, whatever it is, the acknowledgement holds no error message, so that the
-- requester takes it for success. For INVALID_REGISTER_VALUE without a message of the callback, it
-- holds one, which starts with the "U" of "Unknown Error (not set)".
pub acknowledge-judge :
    (m : Mesh) (s : Status)
    → IsValid m
    → (s ≢ invalid_register_value
        → s ≢ auto_set_register
        → byte_at (acknowledge (judge s m)).packet_cache at_err_msg_start ≡ 0)
      × (m.register_cache.error_set ≡ 0
          → byte_at (acknowledge (judge invalid_register_value m)).packet_cache at_err_msg_start
            ≡ b'U')
unfolding acknowledge judge handling_request prep_packet_header put_message
acknowledge-judge m s v = (told s, λ e. rw e message)
  where
    told :
        (s : Status)
        → s ≢ invalid_register_value
        → s ≢ auto_set_register
        → byte_at (acknowledge (judge s m)).packet_cache at_err_msg_start ≡ 0
    told no_status a b = (plain_fields m v).1
    told ok a b = (plain_fields m v).1
    told timeout a b = (plain_fields m v).1
    told invalid_register_index a b = (plain_fields m v).1
    told invalid_register_length a b = (plain_fields m v).1
    told invalid_register_returned a b = (plain_fields m v).1
    told invalid_register_value a b = absurd (a refl)
    told not_on_mesh a b = (plain_fields m v).1
    told mesh_busy a b = (plain_fields m v).1
    told mesh_full a b = (plain_fields m v).1
    told mesh_already_joining a b = (plain_fields m v).1
    told radio_init_error a b = (plain_fields m v).1
    told radio_calibration_error a b = (plain_fields m v).1
    told radio_invalid_channel a b = (plain_fields m v).1
    told auto_set_register a b = absurd (b refl)

    noted : List ℕ
    noted = strncpy m.register_cache.contents 0 err_not_set 0 54

    first : byte_at noted 0 ≡ b'U'
    first =
        strncpy_first m.register_cache.contents 0 err_not_set 0 53
          (omega (arith, v.register_valid.size)) (λ e. omega arith)

    message : byte_at (strncpy (plain m) at_err_msg_start noted 0 54) at_err_msg_start ≡ b'U'
    message =
        strncpy_first (plain m) at_err_msg_start noted 0 53
          (omega (arith, (plain_fields m v).0.size)) (λ e. omega (arith, first))
        ∙ first
