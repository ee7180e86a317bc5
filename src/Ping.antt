-- ===== src/Ping.antt =====
-- The PING operation and the presence table: libraries/a7105_mesh/a7105_mesh.cpp.
pub mod Presence
pub mod Safe
use atmega_a.Prelude.{
  ℕ, zero, suc, ◌+◌, ◌-◌, ◌/◌, ◌%◌, ◌^◌, Bool, true, false, not, ◌&&◌, Option, some, List, ◌==◌,
  if◌then◌else◌, set, replicate, byte_at, bit_and, bit_or,
}
use atmega_a.World.{Io}
use atmega_a.Packet.{at_node_id, pkt_ping, pkt_pong, get_pkt_unique_id}
use atmega_a.Mesh.{
  State, not_joined, joining, idle, pinging, Status, ok, not_on_mesh, mesh_busy, Callback,
  blocking_op_finished, Mesh, Client, is_off_mesh, same_state, is_past, ping_timeout,
}
use atmega_a.Send.{prep_packet_header, send_response, send_request}
use atmega_a.Handled.{handling_request, filter_packet}
use atmega_a.Join.{prep_finishing_callback, finish_operation}

-- `_A7105_Mesh_Is_Node_Idle`
unfoldable pub is_node_idle : Mesh → Status
is_node_idle m =
    if is_off_mesh m.state
    then not_on_mesh
    else if not (same_state m.state idle)
    then mesh_busy
    else ok

-- `presence_table[x/8] |= 1 << (x%8)`, done in a byte.
unfoldable pub mark_present : List ℕ → ℕ → List ℕ
mark_present table x = set table (x / 8) (bit_or (byte_at table (x / 8)) (2 ^ (x % 8) % 256) % 256)

-- `presence_table[x/8] & (byte)(1<<(x%8))`
unfoldable pub is_present : List ℕ → ℕ → Bool
is_present table x = not (bit_and (byte_at table (x / 8)) (2 ^ (x % 8) % 256) == 0)

-- The loop of `A7105_Get_Next_Present_Node`, with `n` rounds left at `x`.
unfoldable pub next_present_from : List ℕ → ℕ → ℕ → ℕ
next_present_from table zero x = 0
next_present_from table (suc n) x =
    if is_present table x then x else next_present_from table n (suc x)

-- `A7105_Get_Next_Present_Node`: the loop runs while `x < 0xFF`.
unfoldable pub get_next_present_node : Mesh → ℕ → ℕ
unfolding next_present_from
get_next_present_node m start =
    if start == 0xFF then 0 else next_present_from m.presence_table (0xFF - (start + 1)) (start + 1)

module _ ⦃io : Io⦄ where
  -- `A7105_Mesh_Ping`, up to the wait of a blocking call.
  unfoldable pub ping : Option Callback → Mesh → Status × Mesh
  unfolding is_node_idle
  ping ping_finished_callback m = elim (is_node_idle m) [
    | ok ↦
        let started = record m { state = pinging; target_node_id = 0; target_unique_id = 0 } in
        let called =
          prep_finishing_callback ping_finished_callback (some blocking_op_finished) started in
        let cleared = record called { presence_table = replicate 32 0 } in
        (ok, send_request (prep_packet_header cleared pkt_ping))
    | refusal ↦ (refusal, m)
  ]

  -- `_A7105_Mesh_Handle_Ping`
  unfoldable pub handle_ping : Mesh → Mesh
  handle_ping m =
      if not (is_off_mesh m.state)
        && not (m.unique_id == get_pkt_unique_id m.packet_cache)
        && filter_packet m pkt_ping true
      then send_response (prep_packet_header (handling_request m) pkt_pong)
      else m

-- `_A7105_Mesh_Handle_Pong`
unfoldable pub handle_pong : Mesh → Mesh
unfolding mark_present
handle_pong m =
    if same_state m.state pinging && filter_packet m pkt_pong false
    then record m {
      presence_table = mark_present m.presence_table (byte_at m.packet_cache at_node_id);
    }
    else m

-- `_A7105_Mesh_Update_Ping`
unfoldable pub update_ping : ⦃io : Io⦄ → ⦃client : Client⦄ → Mesh → Mesh
update_ping m =
    if not (same_state m.state pinging)
    then m
    else (let (done, m₁) = is_past m.request_sent_time ping_timeout m in
        if done then finish_operation ok m₁ else m₁)
