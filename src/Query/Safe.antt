-- ===== src/Query/Safe.antt =====
-- The handlers of GET_NUM_REGISTERS and GET_REGISTER_NAME, of their responses, and the timeouts keep
-- the invariant of the node: libraries/a7105_mesh/a7105_mesh.cpp.
use atmega_a.Prelude.{
  ℕ, ◌<◌, ◌≡◌, refl, arith, true, false, not, ◌&&◌, Bool-cases, inl, inr, ltb, ◌==◌, byte_at,
}
use atmega_a.World.{Io}
use atmega_a.Packet.{
  at_target_id, at_data_start, at_reg_index, pkt_get_num_registers, pkt_num_registers,
  pkt_get_register_name, pkt_register_name,
}
use atmega_a.Packet.Nibbles.{byte_at-IsByte, set-IsPacket}
use atmega_a.Codec.{get_register_index}
use atmega_a.Codec.Receive.{packet_to_register_bounds}
use atmega_a.Mesh.{
  Mesh, Client, State, not_joined, getting_num_registers, getting_register_name, ok, timeout,
  is_off_mesh, same_state, is_past,
}
use atmega_a.Mesh.Safe.{IsSafe, IsSafe-same, IsSafe-packet}
use atmega_a.Mesh.Started.{IsSafe-register_cache}
use atmega_a.Mesh.Lawful.{IsLawful, is_joined}
use atmega_a.Send.{prep_packet_header}
use atmega_a.Send.Safe.{prep_packet_header-IsSafe, send_response-IsSafe}
use atmega_a.Handled.{handling_request, filter_packet}
use atmega_a.Handled.Safe.{handling_request-IsSafe}
use atmega_a.Join.Safe.{finish_operation-IsSafe, is_past-IsSafe, is_past_joined}
use atmega_a.Repeater.Prepared.{register_to_packet-IsPacket, set_register_index-IsPacket}
use atmega_a.Query.{
  with_byte, record_responder, handle_get_num_registers, answer_name, handle_get_register_name,
  handle_num_registers, handle_register_name, check_for_timeout,
}

pub with_byte-IsSafe : {m : Mesh} (i b : ℕ) → IsSafe m → b < 256 → IsSafe (with_byte i b m)
with_byte-IsSafe i b s l = IsSafe-packet s (set-IsPacket i b s.valid.packet l)

pub record_responder-IsSafe : {m : Mesh} → IsSafe m → IsSafe (record_responder m)
unfolding record_responder
record_responder-IsSafe s = IsSafe-same _ s refl

module _ ⦃io : Io⦄ where
  pub handle_get_num_registers-IsSafe : {m : Mesh} → IsSafe m → IsSafe (handle_get_num_registers m)
  unfolding handle_get_num_registers
  handle_get_num_registers-IsSafe {m} s =
      elim (Bool-cases (
        not (is_off_mesh m.state)
        && filter_packet m pkt_get_num_registers true
        && byte_at m.packet_cache at_target_id == m.node_id)) [
          | inl e ↦
              let headed =
                prep_packet_header-IsSafe pkt_num_registers (handling_request-IsSafe s)
                  (omega arith) in
              rw e (
                send_response-IsSafe
                  (with_byte-IsSafe at_data_start _ headed headed.valid.num_registers_byte))
          | inr e ↦ rw e s
        ]

  answer_name-IsSafe : {m : Mesh} (i : ℕ) → IsSafe m → i < 256 → IsSafe (answer_name i m)
  unfolding answer_name
  answer_name-IsSafe {m} i s l =
      IsSafe-same _
        (IsSafe-packet s (
          set_register_index-IsPacket i
            (register_to_packet-IsPacket m.registers i false s.valid.packet s.valid.registers_valid)
            l))
        refl

  pub handle_get_register_name-IsSafe : {m : Mesh} → IsSafe m → IsSafe (handle_get_register_name m)
  unfolding handle_get_register_name
  handle_get_register_name-IsSafe {m} s =
      elim (Bool-cases (
        not (is_off_mesh m.state)
        && filter_packet m pkt_get_register_name true
        && byte_at m.packet_cache at_target_id == m.node_id)) [
          | inl e ↦
              let i = byte_at m.packet_cache at_reg_index in
              let h = prep_packet_header (handling_request m) pkt_register_name in
              let headed =
                with_byte-IsSafe at_data_start 0
                  (prep_packet_header-IsSafe pkt_register_name (handling_request-IsSafe s)
                    (omega arith))
                  (omega arith) in
              elim (Bool-cases (ltb i h.num_registers)) [
                | inl f ↦
                    rw (e, f)
                      (send_response-IsSafe
                        (answer_name-IsSafe i headed (byte_at-IsByte at_reg_index s.valid.packet)))
                | inr f ↦ rw (e, f) (send_response-IsSafe headed)
              ]
          | inr e ↦ rw e s
        ]

module _ ⦃io : Io⦄ ⦃client : Client⦄ (lawful : IsLawful client) where
  pub handle_num_registers-IsSafe : {m : Mesh} → IsSafe m → IsSafe (handle_num_registers m)
  unfolding handle_num_registers record_responder
  handle_num_registers-IsSafe {m} s =
      elim (Bool-cases
        (same_state m.state getting_num_registers && filter_packet m pkt_num_registers false)) [
          | inl e ↦ rw e (
              finish_operation-IsSafe lawful ok (IsSafe-same _ s refl)
                (is_joined m getting_num_registers (ground arith) refl))
          | inr e ↦ rw e s
        ]

  pub handle_register_name-IsSafe : {m : Mesh} → IsSafe m → IsSafe (handle_register_name m)
  unfolding handle_register_name record_responder
  handle_register_name-IsSafe {m} s =
      elim (Bool-cases (
        same_state m.state getting_register_name
        && filter_packet m pkt_register_name false
        && m.target_register_index == get_register_index m.packet_cache)) [
          | inl e ↦
              let taken =
                packet_to_register_bounds m.packet_cache m.register_cache false s.valid.packet
                  s.valid.register_valid in
              rw e (
                finish_operation-IsSafe lawful _
                  (IsSafe-same _ (IsSafe-register_cache s taken.7) refl)
                  (is_joined m getting_register_name (ground arith) refl))
          | inr e ↦ rw e s
        ]

  pub check_for_timeout-IsSafe :
      {m : Mesh} (operation : State) (limit : ℕ)
      → IsSafe m
      → same_state not_joined operation ≡ false
      → IsSafe (check_for_timeout operation limit m)
  unfolding check_for_timeout
  check_for_timeout-IsSafe {m} operation limit s other =
      elim (Bool-cases (same_state m.state operation)) [
        | inl e ↦
            let looked = is_past-IsSafe m.request_sent_time limit s in
            elim (Bool-cases (is_past m.request_sent_time limit m).0) [
              | inl late ↦
                  rw (e, late)
                    (finish_operation-IsSafe lawful timeout looked
                      (is_past_joined m m.request_sent_time limit (is_joined m operation e other)))
              | inr early ↦ rw (e, early) looked
            ]
        | inr e ↦ rw e s
      ]
