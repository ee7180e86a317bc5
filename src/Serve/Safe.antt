-- ===== src/Serve/Safe.antt =====
-- The handlers of GET_REGISTER, SET_REGISTER, their responses and broadcasts keep the invariant of the
-- node, for a client that does: libraries/a7105_mesh/a7105_mesh.cpp.
use atmega_a.Prelude.{
  ℕ, refl, arith, true, false, not, ◌&&◌, Bool-cases, inl, inr, Option, none, some, ◌==◌, byte_at,
}
use atmega_a.World.{Io}
use atmega_a.Packet.{
  at_node_id, at_target_id, at_err_msg_start, pkt_get_register, pkt_register_value,
  pkt_set_register, pkt_set_register_ack,
}
use atmega_a.Register.{Register}
use atmega_a.Codec.{packet_to_register, cmp_packet_register, filter_register_name}
use atmega_a.Codec.Receive.{packet_to_register_bounds}
use atmega_a.Mesh.{Mesh, Client, getting_register, setting_register, is_off_mesh, same_state}
use atmega_a.Mesh.Safe.{IsSafe, IsSafe-same, IsSafe-packet}
use atmega_a.Mesh.Started.{IsSafe-register_cache}
use atmega_a.Mesh.Lawful.{IsLawful, is_joined}
use atmega_a.Send.{prep_packet_header}
use atmega_a.Send.Safe.{prep_packet_header-IsSafe, send_response-IsSafe}
use atmega_a.Handled.{handling_request, filter_packet}
use atmega_a.Handled.Safe.{handling_request-IsSafe}
use atmega_a.Join.Safe.{finish_operation-IsSafe}
use atmega_a.Query.{record_responder}
use atmega_a.Repeater.Prepared.{register_to_packet-IsPacket}
use atmega_a.Serve.{
  register_at, call_get, answer_value, handle_get_register, handle_register_value, set_value,
  handle_set_register, handle_set_register_ack, take_broadcast, broadcast_to,
  handle_register_value_broadcast,
}
use atmega_a.Serve.Store.{put_message-IsRegister, set_value-IsSafe}

module _ ⦃io : Io⦄ ⦃client : Client⦄ (lawful : IsLawful client) where
  call_get-IsSafe :
      {m : Mesh} (callback : Option ℕ) (i : ℕ) → IsSafe m → IsSafe (call_get callback i m)
  call_get-IsSafe none i s = s
  call_get-IsSafe {m} (some k) i s = lawful.on_get k i m s

  answer_value-IsSafe : {m : Mesh} (i : ℕ) → IsSafe m → IsSafe (answer_value i m)
  unfolding answer_value
  answer_value-IsSafe {m} i s =
      let headed = prep_packet_header (handling_request m) pkt_register_value in
      let called =
        call_get-IsSafe (register_at i headed).get_callback i (
          prep_packet_header-IsSafe pkt_register_value (handling_request-IsSafe s) (omega arith)) in
      send_response-IsSafe (
        IsSafe-packet called
          (register_to_packet-IsPacket _ i true called.valid.packet called.valid.registers_valid))

  pub handle_get_register-IsSafe : {m : Mesh} → IsSafe m → IsSafe (handle_get_register m)
  unfolding handle_get_register
  handle_get_register-IsSafe {m} s =
      elim (Bool-cases (not (is_off_mesh m.state) && filter_packet m pkt_get_register true)) [
        | inl e ↦ rw e (found (filter_register_name m.packet_cache m.registers m.num_registers))
        | inr e ↦ rw e s
      ]
    where
      found : (f : Option ℕ) → IsSafe (elim f [ none ↦ m | some i ↦ answer_value i m ])
      found none = s
      found (some i) = answer_value-IsSafe i s

  pub handle_set_register-IsSafe : {m : Mesh} → IsSafe m → IsSafe (handle_set_register m)
  unfolding handle_set_register
  handle_set_register-IsSafe {m} s =
      elim (Bool-cases (not (is_off_mesh m.state) && filter_packet m pkt_set_register true)) [
        | inl e ↦ rw e (found (filter_register_name m.packet_cache m.registers m.num_registers))
        | inr e ↦ rw e s
      ]
    where
      found : (f : Option ℕ) → IsSafe (elim f [ none ↦ m | some i ↦ set_value i m ])
      found none = s
      found (some i) = set_value-IsSafe lawful i s

  pub handle_register_value-IsSafe : {m : Mesh} → IsSafe m → IsSafe (handle_register_value m)
  unfolding handle_register_value record_responder
  handle_register_value-IsSafe {m} s =
      elim (Bool-cases (
        same_state m.state getting_register
        && filter_packet m pkt_register_value false
        && cmp_packet_register m.packet_cache m.register_cache false)) [
          | inl e ↦
              let taken =
                packet_to_register_bounds m.packet_cache m.register_cache true s.valid.packet
                  s.valid.register_valid in
              rw e (
                finish_operation-IsSafe lawful _
                  (IsSafe-same _ (IsSafe-register_cache s taken.7) refl)
                  (is_joined m getting_register (ground arith) refl))
          | inr e ↦ rw e s
        ]

  pub handle_set_register_ack-IsSafe : {m : Mesh} → IsSafe m → IsSafe (handle_set_register_ack m)
  unfolding handle_set_register_ack record_responder
  handle_set_register_ack-IsSafe {m} s =
      elim (Bool-cases (
        same_state m.state setting_register
        && filter_packet m pkt_set_register_ack false
        && byte_at m.packet_cache at_target_id == m.node_id)) [
          | inl e ↦
              let active = is_joined m setting_register (ground arith) refl in
              elim (Bool-cases (byte_at m.packet_cache at_err_msg_start == 0)) [
                | inl fine ↦
                    rw (e, fine) (finish_operation-IsSafe lawful _ (IsSafe-same _ s refl) active)
                | inr failed ↦
                    let r =
                      put_message-IsRegister m.packet_cache at_err_msg_start s.valid.packet.bytes
                        s.valid.register_valid in
                    rw (e, failed)
                      (finish_operation-IsSafe lawful _
                        (IsSafe-same _
                          (IsSafe-register_cache s (record {
                            size = r.size;
                            bytes = r.bytes;
                            name_fits = r.name_fits;
                            data_fits = r.data_fits;
                          }))
                          refl)
                        active)
              ]
          | inr e ↦ rw e s
        ]

  take_broadcast-IsSafe :
      {m : Mesh} (k : ℕ) (cache : Register) → IsSafe m → IsSafe (take_broadcast k cache m)
  unfolding take_broadcast
  take_broadcast-IsSafe {m} k cache s =
      elim (Bool-cases (cmp_packet_register m.packet_cache cache true)) [
        | inl e ↦ rw e s
        | inr e ↦ elim (Bool-cases (packet_to_register m.packet_cache cache true).0) [
          | inl f ↦
              rw (e, f) (handling_request-IsSafe (lawful.on_broadcast k _ (IsSafe-same _ s refl)))
          | inr f ↦ rw (e, f) s
        ]
      ]

  broadcast_to-IsSafe :
      {m : Mesh} (callback : Option ℕ) (cache : Option Register)
      → IsSafe m
      → IsSafe (broadcast_to callback cache m)
  unfolding broadcast_to
  broadcast_to-IsSafe none cache s = s
  broadcast_to-IsSafe (some k) none s = s
  broadcast_to-IsSafe {m} (some k) (some cache) s =
      elim (Bool-cases
        (byte_at m.packet_cache at_node_id == 0 && filter_packet m pkt_register_value true)) [
          | inl e ↦ rw e (take_broadcast-IsSafe k cache s)
          | inr e ↦ rw e s
        ]

  pub handle_register_value_broadcast-IsSafe :
      {m : Mesh} → IsSafe m → IsSafe (handle_register_value_broadcast m)
  unfolding handle_register_value_broadcast
  handle_register_value_broadcast-IsSafe {m} s = elim (Bool-cases (is_off_mesh m.state)) [
    | inl e ↦ rw e s
    | inr e ↦ rw e (broadcast_to-IsSafe m.register_value_broadcast_callback m.broadcast_cache s)
  ]
