-- ===== src/Serve.antt =====
-- The handlers of GET_REGISTER, SET_REGISTER, their responses, and broadcasts:
-- libraries/a7105_mesh/a7105_mesh.cpp.
pub mod Judged
pub mod Store
pub mod Safe
use atmega_a.Prelude.{
  ℕ, ◌-◌, Bool, true, false, not, ◌&&◌, ◌||◌, Option, none, some, ◌==◌, if◌then◌else◌, get_or, set,
  byte_at, strncpy,
}
use atmega_a.World.{Io}
use atmega_a.Packet.{
  at_node_id, at_target_id, at_err_msg_start, pkt_get_register, pkt_register_value,
  pkt_set_register, pkt_set_register_ack,
}
use atmega_a.Register.{Register, max_part_size, register_initialize, register_clear_error}
use atmega_a.Codec.{
  no_register, register_to_packet, packet_to_register, cmp_packet_register, filter_register_name,
}
use atmega_a.Mesh.{
  getting_register, setting_register, Status, ok, invalid_register_returned, invalid_register_value,
  auto_set_register, Mesh, Client, is_off_mesh, same_state,
}
use atmega_a.Send.{prep_packet_header, send_response}
use atmega_a.Handled.{handling_request, filter_packet}
use atmega_a.Join.{finish_operation}
use atmega_a.Query.{with_byte, record_responder}
use atmega_a.Values.{err_not_set, err_bogus_return, err_value_size, put_message, with_message}

-- The register at an index, and a change of it.
abbrev pub register_at : ℕ → Mesh → Register
register_at i m = get_or m.registers i no_register

abbrev pub with_register : ℕ → Register → Mesh → Mesh
with_register i reg m = record m { registers = set m.registers i reg }

-- How the setting of a register stands: `error_set`, `auto_set` and the node.
pub record Setting : Type 0 where
  pub error_set : Bool
  pub auto_set : Bool
  pub node : Mesh

-- What `_A7105_Mesh_Handle_SetRegister` makes of the status that the callback returned.
unfoldable pub judge : Status → Mesh → Setting
judge auto_set_register m = record { error_set = false; auto_set = true; node = m }
judge invalid_register_value m = record {
  error_set = true;
  auto_set = false;
  node = if m.register_cache.error_set == 0 then with_message err_not_set m else m;
}
judge ok m = record { error_set = false; auto_set = false; node = m }
judge _ m = record { error_set = false; auto_set = false; node = with_message err_bogus_return m }

-- The copy of the value from the packet, where no callback is set or it asks for that.
unfoldable pub store_value : ℕ → Setting → Setting
store_value i s =
    let (converted, reg) = packet_to_register s.node.packet_cache (register_at i s.node) true in
    if converted
    then record s { node = with_register i reg s.node }
    else record s { error_set = true; node = with_message err_value_size s.node }

abbrev pub is_none : Option ℕ → Bool
is_none none = true
is_none (some k) = false

-- The acknowledgement, with the error message if there is one; the register cache that held the
-- message is initialised again.
unfoldable pub acknowledge : Setting → Mesh
acknowledge s =
    let return_target = byte_at s.node.packet_cache at_node_id in
    let headed =
      with_byte at_target_id return_target
        (prep_packet_header (handling_request s.node) pkt_set_register_ack) in
    if s.error_set
    then record headed {
      packet_cache =
          strncpy headed.packet_cache at_err_msg_start headed.register_cache.contents 0
            (max_part_size - 1);
      register_cache = register_initialize none none;
    }
    else headed

module _ ⦃io : Io⦄ ⦃client : Client⦄ where
  -- The call of a register's get callback, if it has one.
  abbrev pub call_get : Option ℕ → ℕ → Mesh → Mesh
  call_get none i m = m
  call_get (some k) i m = client.on_get_register k i m

  unfoldable pub answer_value : ℕ → Mesh → Mesh
  answer_value i m =
      let headed = prep_packet_header (handling_request m) pkt_register_value in
      let called = call_get (register_at i headed).get_callback i headed in
      send_response (record called {
        packet_cache = (register_to_packet called.packet_cache (register_at i called) true).1;
      })

  -- `_A7105_Mesh_Handle_GetRegister`
  unfoldable pub handle_get_register : Mesh → Mesh
  unfolding answer_value
  handle_get_register m =
      if not (is_off_mesh m.state) && filter_packet m pkt_get_register true
      then elim (filter_register_name m.packet_cache m.registers m.num_registers) [
        | none ↦ m
        | some i ↦ answer_value i m
      ]
      else m

  -- `_A7105_Mesh_Handle_RegisterValue`
  unfoldable pub handle_register_value : Mesh → Mesh
  handle_register_value m =
      if same_state m.state getting_register
        && filter_packet m pkt_register_value false
        && cmp_packet_register m.packet_cache m.register_cache false
      then (let (converted, reg) = packet_to_register m.packet_cache m.register_cache true in
          finish_operation (if converted then ok else invalid_register_returned)
            (record_responder (record m { register_cache = reg })))
      else m

  -- The call of a register's set callback, if it has one, and what is made of its status.
  unfoldable pub call_set : Option ℕ → ℕ → Mesh → Setting
  unfolding judge
  call_set none i m = record { error_set = false; auto_set = false; node = m }
  call_set (some k) i m = let (s, called) = client.on_set_register k i m in judge s called

  unfoldable pub set_value : ℕ → Mesh → Mesh
  unfolding call_set store_value acknowledge
  set_value i m =
      let judged = call_set (register_at i m).set_callback i m in
      let stored =
        if is_none (register_at i judged.node).set_callback || judged.auto_set
        then store_value i judged
        else judged in
      let sent = send_response (acknowledge stored) in
      with_register i (register_clear_error (register_at i sent)) sent

  -- `_A7105_Mesh_Handle_SetRegister`
  unfoldable pub handle_set_register : Mesh → Mesh
  unfolding set_value
  handle_set_register m =
      if not (is_off_mesh m.state) && filter_packet m pkt_set_register true
      then elim (filter_register_name m.packet_cache m.registers m.num_registers) [
        | none ↦ m
        | some i ↦ set_value i m
      ]
      else m

  -- `_A7105_Mesh_Handle_SetRegisterAck`
  unfoldable pub handle_set_register_ack : Mesh → Mesh
  handle_set_register_ack m =
      if same_state m.state setting_register
        && filter_packet m pkt_set_register_ack false
        && byte_at m.packet_cache at_target_id == m.node_id
      then (let failed = not (byte_at m.packet_cache at_err_msg_start == 0) in
          let told =
            if failed
            then record m {
              register_cache =
                  record (put_message m.packet_cache at_err_msg_start m.register_cache) {
                    error_set = 1;
                  };
            }
            else m in
          finish_operation (if failed then invalid_register_value else ok) (record_responder told))
      else m

  -- The broadcast value is new to the client: it is stored and told.
  unfoldable pub take_broadcast : ℕ → Register → Mesh → Mesh
  take_broadcast k cache m =
      if cmp_packet_register m.packet_cache cache true
      then m
      else (let (converted, reg) = packet_to_register m.packet_cache cache true in
          if not converted
          then m
          else handling_request (client.on_broadcast k (record m { broadcast_cache = some reg })))

  -- The two pointers of a listening client; a callback without a register is not told of here.
  unfoldable pub broadcast_to : Option ℕ → Option Register → Mesh → Mesh
  unfolding take_broadcast
  broadcast_to none cache m = m
  broadcast_to (some k) none m = m
  broadcast_to (some k) (some cache) m =
      if byte_at m.packet_cache at_node_id == 0 && filter_packet m pkt_register_value true
      then take_broadcast k cache m
      else m

  -- `_A7105_Mesh_Handle_RegisterValue_Broadcast`
  unfoldable pub handle_register_value_broadcast : Mesh → Mesh
  unfolding broadcast_to
  handle_register_value_broadcast m =
      if not (is_off_mesh m.state)
      then broadcast_to m.register_value_broadcast_callback m.broadcast_cache m
      else m
