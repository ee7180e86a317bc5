-- ===== src/Values.antt =====
-- The operations on a register's value, GET_REGISTER and SET_REGISTER, and the broadcast of a
-- value: libraries/a7105_mesh/a7105_mesh.cpp.
pub mod Started
use atmega_a.Prelude.{
  ℕ, ◌-◌, true, false, not, Option, none, some, List, [], ◌∷◌, ◌==◌, if◌then◌else◌, replicate,
  strncpy,
}
use atmega_a.World.{Io}
use atmega_a.Packet.{at_node_id, pkt_get_register, pkt_register_value, pkt_set_register}
use atmega_a.Register.{Register, max_array_size, max_part_size, register_copy}
use atmega_a.Codec.{register_to_packet}
use atmega_a.Mesh.{
  getting_register, setting_register, Status, ok, invalid_register_length, invalid_register_value,
  not_on_mesh, Callback, blocking_op_finished, Mesh, is_off_mesh,
}
use atmega_a.Send.{prep_packet_header, send_request, send_broadcast}
use atmega_a.Join.{prep_finishing_callback}
use atmega_a.Ping.{is_node_idle}
use atmega_a.Query.{with_byte}

-- The three messages of `A7105_ERROR_STRINGS`.
abbrev pub err_not_set : List ℕ
err_not_set =
    b'U' ∷ b'n' ∷ b'k' ∷ b'n' ∷ b'o' ∷ b'w' ∷ b'n' ∷ b' ' ∷ b'E' ∷ b'r' ∷ b'r' ∷ b'o' ∷ b'r' ∷ b' '
    ∷ b'(' ∷ b'n' ∷ b'o' ∷ b't' ∷ b' ' ∷ b's' ∷ b'e' ∷ b't' ∷ b')' ∷ []

abbrev pub err_bogus_return : List ℕ
err_bogus_return =
    b'R' ∷ b'e' ∷ b'm' ∷ b'o' ∷ b't' ∷ b'e' ∷ b' ' ∷ b'C' ∷ b'a' ∷ b'l' ∷ b'l' ∷ b'b' ∷ b'a' ∷ b'c'
    ∷ b'k' ∷ b' ' ∷ b'E' ∷ b'r' ∷ b'r' ∷ b'o' ∷ b'r' ∷ []

abbrev pub err_value_size : List ℕ
err_value_size =
    b'I' ∷ b'n' ∷ b'v' ∷ b'a' ∷ b'l' ∷ b'i' ∷ b'd' ∷ b' ' ∷ b'V' ∷ b'a' ∷ b'l' ∷ b'u' ∷ b'e' ∷ b' '
    ∷ b'S' ∷ b'i' ∷ b'z' ∷ b'e' ∷ []

-- `strncpy((char*)reg._data, message, A7105_MESH_MAX_REGISTER_PART_SIZE - 1)`
unfoldable pub put_message : List ℕ → ℕ → Register → Register
put_message source p reg = record reg {
  contents = strncpy reg.contents 0 source p (max_part_size - 1);
}

-- `A7105_Mesh_Register_Set_Error`
unfoldable pub register_set_error : List ℕ → Mesh → Mesh
unfolding put_message
register_set_error error_msg m =
    let zeroed = record (m.register_cache) { contents = replicate max_array_size 0 } in
    record m { register_cache = record (put_message error_msg 0 zeroed) { error_set = 1 } }

-- `A7105_Mesh_Register_Get_Error`: the bytes that hold the message; `none` is NULL.
unfoldable pub register_get_error : Mesh → Option (List ℕ)
register_get_error m =
    if not (m.register_cache.error_set == 0) then some m.register_cache.contents else none

abbrev pub with_message : List ℕ → Mesh → Mesh
with_message message m = record m { register_cache = put_message message 0 m.register_cache }

module _ ⦃io : Io⦄ where
  -- `A7105_Mesh_GetRegister`, up to the wait of a blocking call.
  unfoldable pub get_register : Register → Option Callback → Mesh → Status × Mesh
  get_register reg finished_callback m = elim (is_node_idle m) [
    | ok ↦
        let started = record m {
          state = getting_register;
          target_node_id = 0;
          target_unique_id = 0;
        } in
        let called =
          prep_finishing_callback finished_callback (some blocking_op_finished) started in
        let headed = prep_packet_header called pkt_get_register in
        let (converted, packet) = register_to_packet headed.packet_cache reg false in
        if not converted
        then (invalid_register_length, record headed { packet_cache = packet })
        else (
          ok,
          send_request (record headed {
            packet_cache = packet;
            register_cache = register_copy headed.register_cache reg;
          }),
        )
    | refusal ↦ (refusal, m)
  ]

  -- `A7105_Mesh_SetRegister`, up to the wait of a blocking call.
  unfoldable pub set_register : Register → Option Callback → Mesh → Status × Mesh
  set_register reg finished_callback m = elim (is_node_idle m) [
    | ok ↦
        let started = record m {
          state = setting_register;
          target_node_id = 0;
          target_unique_id = 0;
        } in
        let called =
          prep_finishing_callback finished_callback (some blocking_op_finished) started in
        let headed = prep_packet_header called pkt_set_register in
        let (converted, packet) = register_to_packet headed.packet_cache reg true in
        let filled = record headed { packet_cache = packet } in
        if not converted then (invalid_register_length, filled) else (ok, send_request filled)
    | refusal ↦ (refusal, m)
  ]

  -- `A7105_Mesh_Broadcast`
  unfoldable pub broadcast : Register → Mesh → Status × Mesh
  broadcast reg m =
      if is_off_mesh m.state
      then (not_on_mesh, m)
      else (let headed = with_byte at_node_id 0 (prep_packet_header m pkt_register_value) in
          let (converted, packet) = register_to_packet headed.packet_cache reg true in
          let filled = record headed { packet_cache = packet } in
          if not converted then (invalid_register_value, filled) else (ok, send_broadcast filled))

-- `A7105_Mesh_Broadcast_Listen`
unfoldable pub broadcast_listen : Option ℕ → Option Register → Mesh → Mesh
broadcast_listen callback reg m = record m {
  register_value_broadcast_callback = callback;
  broadcast_cache = reg;
}
