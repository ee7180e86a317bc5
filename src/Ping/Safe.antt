-- ===== src/Ping/Safe.antt =====
-- The handlers of PING and PONG and the end of a PING keep the invariant of the node:
-- libraries/a7105_mesh/a7105_mesh.cpp.
use atmega_a.Prelude.{
  ◌/◌, ◌%◌, ◌^◌, ◌∙◌, refl, arith, true, false, not, ◌&&◌, Bool-cases, inl, inr, ◌==◌, byte_at,
  bit_or, length-set, All-set,
}
use atmega_a.World.{Io}
use atmega_a.Packet.{IsByte, at_node_id, pkt_ping, pkt_pong, get_pkt_unique_id}
use atmega_a.Mesh.{Mesh, Client, pinging, ok, is_off_mesh, same_state, is_past, ping_timeout}
use atmega_a.Mesh.Safe.{IsSafe}
use atmega_a.Mesh.Started.{IsSafe-presence}
use atmega_a.Mesh.Lawful.{IsLawful, is_joined}
use atmega_a.Send.Safe.{prep_packet_header-IsSafe, send_response-IsSafe}
use atmega_a.Handled.{filter_packet}
use atmega_a.Handled.Safe.{handling_request-IsSafe}
use atmega_a.Join.Safe.{finish_operation-IsSafe, is_past-IsSafe, is_past_joined}
use atmega_a.Ping.{mark_present, handle_ping, handle_pong, update_ping}

pub handle_pong-IsSafe : {m : Mesh} → IsSafe m → IsSafe (handle_pong m)
unfolding handle_pong mark_present
handle_pong-IsSafe {m} s =
    elim (Bool-cases (same_state m.state pinging && filter_packet m pkt_pong false)) [
      | inl e ↦
          let x = byte_at m.packet_cache at_node_id in
          rw e (
            IsSafe-presence s (length-set m.presence_table (x / 8) _ ∙ s.valid.presence_size) (
              All-set IsByte m.presence_table (x / 8)
                (bit_or (byte_at m.presence_table (x / 8)) (2 ^ (x % 8) % 256) % 256)
                s.valid.presence_bytes (omega arith)))
      | inr e ↦ rw e s
    ]

module _ ⦃io : Io⦄ where
  pub handle_ping-IsSafe : {m : Mesh} → IsSafe m → IsSafe (handle_ping m)
  unfolding handle_ping
  handle_ping-IsSafe {m} s =
      elim (Bool-cases (
        not (is_off_mesh m.state)
        && not (m.unique_id == get_pkt_unique_id m.packet_cache)
        && filter_packet m pkt_ping true)) [
          | inl e ↦ rw e (
              send_response-IsSafe
                (prep_packet_header-IsSafe pkt_pong (handling_request-IsSafe s) (omega arith)))
          | inr e ↦ rw e s
        ]

  pub update_ping-IsSafe :
      ⦃client : Client⦄ {m : Mesh} → IsLawful client → IsSafe m → IsSafe (update_ping m)
  unfolding update_ping
  update_ping-IsSafe {m} lawful s = elim (Bool-cases (same_state m.state pinging)) [
    | inl e ↦
        let looked = is_past-IsSafe m.request_sent_time ping_timeout s in
        elim (Bool-cases (is_past m.request_sent_time ping_timeout m).0) [
          | inl late ↦
              rw (e, late)
                (finish_operation-IsSafe lawful ok looked
                  (is_past_joined m m.request_sent_time ping_timeout (is_joined m pinging e refl)))
          | inr early ↦ rw (e, early) looked
        ]
    | inr e ↦ rw e s
  ]
