-- ===== src/Update.antt =====
-- The node's main function and the calls that wait for it: `A7105_Mesh_Update` and
-- `_A7105_Mesh_Handle_RX` of libraries/a7105_mesh/a7105_mesh.cpp.
pub mod Safe
pub mod Membership
pub mod Joining
use atmega_a.Prelude.{ℕ, zero, suc, if◌then◌else◌, Option, none}
use atmega_a.World.{Io, give_up}
use atmega_a.Packet.{packet_size}
use atmega_a.Radio.{StatusCode, status_ok, no_data, check_rx_waiting, read_data}
use atmega_a.Mesh.{
  getting_num_registers, getting_register_name, getting_register, setting_register, Status, ok,
  no_status, Callback, Mesh, Client, on_radio, now, request_timeout,
}
use atmega_a.Send.{listen}
use atmega_a.Handled.{update_handled_packet_cache}
use atmega_a.Join.{
  handle_conflict_name, handle_deferred_joining, check_for_node_id_conflicts, update_join,
}
use atmega_a.Repeater.{
  cache_packet_for_repeat, update_repeats, update_response_repeats, update_request_repeats,
}
use atmega_a.Ping.{handle_ping, handle_pong, update_ping}
use atmega_a.Query.{
  handle_get_num_registers, handle_num_registers, handle_get_register_name, handle_register_name,
  check_for_timeout,
}
use atmega_a.Serve.{
  handle_get_register, handle_register_value, handle_set_register, handle_set_register_ack,
  handle_register_value_broadcast,
}

module _ ⦃io : Io⦄ ⦃client : Client⦄ where
  -- The handlers of requests and responses, in the order of `_A7105_Mesh_Handle_RX`.
  unfoldable pub handle_requests : Mesh → Mesh
  handle_requests m =
      let m₁ = handle_get_num_registers (handle_pong (handle_ping m)) in
      let m₂ = handle_register_name (handle_get_register_name (handle_num_registers m₁)) in
      let m₃ = handle_set_register (handle_register_value (handle_get_register m₂)) in
      handle_register_value_broadcast (handle_set_register_ack m₃)

  -- What `_A7105_Mesh_Handle_RX` does with the packet that stands in the packet cache.
  unfoldable pub process_packet : Mesh → Mesh
  unfolding handle_requests
  process_packet m =
      let (conflicting, checked) = check_for_node_id_conflicts m in
      if conflicting
      then checked
      else (let expired = update_handled_packet_cache checked in
          let joined = handle_deferred_joining (handle_conflict_name expired) in
          handle_requests (cache_packet_for_repeat joined))

  -- What follows the read of a packet.
  unfoldable pub receive : StatusCode → Mesh → Mesh
  unfolding process_packet
  receive status_ok m =
      let (t, timed) = now m in process_packet (record timed { last_repeat_sent_time = t })
  receive _ m = m

  -- The read of a packet that is waiting, damaged or not.
  unfoldable pub read_packet : StatusCode → Mesh → Mesh
  unfolding receive
  read_packet no_data m = m
  read_packet _ m =
      let ((s, packet), m₁) = on_radio (λ r. read_data r m.packet_cache packet_size) m in
      receive s (listen (record m₁ { packet_cache = packet }))

  -- `_A7105_Mesh_Handle_RX`
  unfoldable pub handle_rx : Mesh → Mesh
  unfolding read_packet
  handle_rx m = let (s, m₁) = on_radio check_rx_waiting m in read_packet s m₁

  -- The timeouts that `A7105_Mesh_Update` looks for.
  unfoldable pub check_for_timeouts : Mesh → Mesh
  check_for_timeouts m = check_for_timeout setting_register request_timeout (
      check_for_timeout getting_register request_timeout (
        check_for_timeout getting_register_name request_timeout
          (check_for_timeout getting_num_registers request_timeout m)))

  -- `A7105_Mesh_Update`; its status is always that of success.
  unfoldable pub update : Mesh → Mesh
  unfolding handle_rx check_for_timeouts
  update m =
      let timed = check_for_timeouts (update_ping (update_join (handle_rx m))) in
      update_request_repeats (update_response_repeats (update_repeats timed))

  -- `while (node->blocking_operation_status == A7105_Mesh_NO_STATUS) A7105_Mesh_Update(node);`
  -- for at most `n` rounds. Without an end by then the world is stuck.
  unfoldable pub wait_from : ℕ → Mesh → Mesh
  wait_from zero m = (on_radio (λ _. give_up) m).1
  wait_from (suc n) m = elim m.blocking_operation_status [
    | no_status ↦ wait_from n (update m)
    | _ ↦ m
  ]

  -- How each operation ends that has a callback parameter: without a callback it waits for the end of
  -- what it started, and gives the status that came of it.
  unfoldable pub complete : Option Callback → Status × Mesh → Status × Mesh
  complete none (ok, m) =
      let waited = wait_from io.patience m in (waited.blocking_operation_status, waited)
  complete _ (s, m) = (s, m)
