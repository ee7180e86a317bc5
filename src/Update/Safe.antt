-- ===== src/Update/Safe.antt =====
-- `A7105_Mesh_Update` keeps the invariant of the node, for a client that does:
-- libraries/a7105_mesh/a7105_mesh.cpp.
use atmega_a.Prelude.{
  ℕ, zero, suc, Option, none, some, ◌∙◌, refl, arith, Bool-cases, inl, inr, ◌==◌,
}
use atmega_a.World.{Io}
use atmega_a.Packet.{IsPacket, packet_size}
use atmega_a.Radio.{
  StatusCode, status_ok, read_data, check_rx_waiting, init_error, calibration_error,
  invalid_channel, invalid_fifo_length, rx_data_waiting, rx_data_integrity_error, no_data,
  no_wtr_interrupt_set, busy,
}
use atmega_a.Mesh.{
  Mesh, Client, getting_num_registers, getting_register_name, getting_register, setting_register,
  Status, ok, no_status, Callback, request_timeout, on_radio, max_repeat_cache_size,
}
use atmega_a.Mesh.Safe.{IsSafe, IsSafe-same, IsSafe-packet}
use atmega_a.Mesh.Changed.{IsSafe-repeats}
use atmega_a.Mesh.Lawful.{IsLawful}
use atmega_a.Radio.Receipt.{nothing_came, read_data_lem}
use atmega_a.Send.{listen}
use atmega_a.Handled.Safe.{update_handled_packet_cache-IsSafe}
use atmega_a.Join.{check_for_node_id_conflicts}
use atmega_a.Join.Safe.{
  handle_conflict_name-IsSafe, handle_deferred_joining-IsSafe, check_for_node_id_conflicts-IsSafe,
  update_join-IsSafe,
}
use atmega_a.Ping.Safe.{handle_ping-IsSafe, handle_pong-IsSafe, update_ping-IsSafe}
use atmega_a.Query.Safe.{
  handle_get_num_registers-IsSafe, handle_num_registers-IsSafe, handle_get_register_name-IsSafe,
  handle_register_name-IsSafe, check_for_timeout-IsSafe,
}
use atmega_a.Serve.Safe.{
  handle_get_register-IsSafe, handle_register_value-IsSafe, handle_set_register-IsSafe,
  handle_set_register_ack-IsSafe, handle_register_value_broadcast-IsSafe,
}
use atmega_a.Repeater.{append_repeat, is_repeatable, cache_packet_for_repeat}
use atmega_a.Repeater.Ring.{IsQueue, append_repeat_lem}
use atmega_a.Repeater.Safe.{repeaters-IsSafe}
use atmega_a.Update.{
  handle_requests, process_packet, receive, read_packet, handle_rx, check_for_timeouts, update,
  wait_from, complete,
}

append_repeat-IsSafe : {m : Mesh} → IsSafe m → IsSafe (append_repeat m)
unfolding append_repeat
append_repeat-IsSafe {m} s =
    let queue : IsQueue m = record {
      size = s.valid.repeat_size;
      packets = s.valid.repeat_packets;
      ring = s.valid.repeat_ring;
    } in
    let (_, q) = append_repeat_lem m queue s.valid.packet in
    elim (Bool-cases (m.repeat_cache_size == max_repeat_cache_size)) [
      | inl e ↦ rw e s
      | inr e ↦ let q' = rw e at q in rw e (IsSafe-repeats s q'.size q'.packets q'.ring)
    ]

cache_packet_for_repeat-IsSafe : {m : Mesh} → IsSafe m → IsSafe (cache_packet_for_repeat m)
unfolding cache_packet_for_repeat
cache_packet_for_repeat-IsSafe {m} s = elim (Bool-cases (is_repeatable m)) [
  | inl e ↦ rw e (append_repeat-IsSafe s)
  | inr e ↦ rw e s
]

module _ ⦃io : Io⦄ ⦃client : Client⦄ (lawful : IsLawful client) where
  handle_requests-IsSafe : {m : Mesh} → IsSafe m → IsSafe (handle_requests m)
  unfolding handle_requests
  handle_requests-IsSafe s =
      let s₁ = handle_get_num_registers-IsSafe (handle_pong-IsSafe (handle_ping-IsSafe s)) in
      let s₂ =
        handle_register_name-IsSafe lawful
          (handle_get_register_name-IsSafe (handle_num_registers-IsSafe lawful s₁)) in
      let s₃ =
        handle_set_register-IsSafe lawful
          (handle_register_value-IsSafe lawful (handle_get_register-IsSafe lawful s₂)) in
      handle_register_value_broadcast-IsSafe lawful (handle_set_register_ack-IsSafe lawful s₃)

  process_packet-IsSafe : {m : Mesh} → IsSafe m → IsSafe (process_packet m)
  unfolding process_packet
  process_packet-IsSafe {m} s =
      let checked = check_for_node_id_conflicts-IsSafe s in
      elim (Bool-cases (check_for_node_id_conflicts m).0) [
        | inl e ↦ rw e checked
        | inr e ↦
            let joined =
              handle_deferred_joining-IsSafe
                (handle_conflict_name-IsSafe (update_handled_packet_cache-IsSafe checked)) in
            rw e (handle_requests-IsSafe (cache_packet_for_repeat-IsSafe joined))
      ]

  read_data-IsPacket :
      (m : Mesh)
      → IsPacket m.packet_cache
      → IsPacket (read_data m.radio m.packet_cache packet_size m.world).0.1
  read_data-IsPacket m p =
      let (_, nothing, something) = read_data_lem m.radio m.packet_cache packet_size m.world in
      elim (Bool-cases (nothing_came m.radio m.world)) [
        | inl e ↦ let (_, same, _) = nothing (omega arith) e in rw same p
        | inr e ↦
            let (received, _) = something (omega arith) e in
            record { size = received.filled.size ∙ p.size; bytes = received.filled.bytes p.bytes }
      ]

  receive-IsSafe : {m : Mesh} (code : StatusCode) → IsSafe m → IsSafe (receive code m)
  unfolding receive
  receive-IsSafe status_ok s = process_packet-IsSafe (IsSafe-same _ s refl)
  receive-IsSafe init_error s = s
  receive-IsSafe calibration_error s = s
  receive-IsSafe invalid_channel s = s
  receive-IsSafe invalid_fifo_length s = s
  receive-IsSafe rx_data_waiting s = s
  receive-IsSafe rx_data_integrity_error s = s
  receive-IsSafe no_data s = s
  receive-IsSafe no_wtr_interrupt_set s = s
  receive-IsSafe busy s = s

  -- The node after the read of a packet.
  read-IsSafe :
      {m : Mesh}
      → IsSafe m
      → let ((code, packet), m₁) = on_radio (λ r. read_data r m.packet_cache packet_size) m in
        IsSafe (receive code (listen (record m₁ { packet_cache = packet })))
  unfolding listen
  read-IsSafe {m} s =
      receive-IsSafe _ (IsSafe-same _ (IsSafe-packet s (read_data-IsPacket m s.valid.packet)) refl)

  read_packet-IsSafe : {m : Mesh} (code : StatusCode) → IsSafe m → IsSafe (read_packet code m)
  unfolding read_packet
  read_packet-IsSafe no_data s = s
  read_packet-IsSafe status_ok s = read-IsSafe s
  read_packet-IsSafe init_error s = read-IsSafe s
  read_packet-IsSafe calibration_error s = read-IsSafe s
  read_packet-IsSafe invalid_channel s = read-IsSafe s
  read_packet-IsSafe invalid_fifo_length s = read-IsSafe s
  read_packet-IsSafe rx_data_waiting s = read-IsSafe s
  read_packet-IsSafe rx_data_integrity_error s = read-IsSafe s
  read_packet-IsSafe no_wtr_interrupt_set s = read-IsSafe s
  read_packet-IsSafe busy s = read-IsSafe s

  handle_rx-IsSafe : {m : Mesh} → IsSafe m → IsSafe (handle_rx m)
  unfolding handle_rx
  handle_rx-IsSafe {m} s = read_packet-IsSafe (on_radio check_rx_waiting m).0 (IsSafe-same _ s refl)

  check_for_timeouts-IsSafe : {m : Mesh} → IsSafe m → IsSafe (check_for_timeouts m)
  unfolding check_for_timeouts
  check_for_timeouts-IsSafe s =
      check_for_timeout-IsSafe lawful setting_register request_timeout
        (check_for_timeout-IsSafe lawful getting_register request_timeout
          (check_for_timeout-IsSafe lawful getting_register_name request_timeout
            (check_for_timeout-IsSafe lawful getting_num_registers request_timeout s refl) refl)
          refl)
        refl

  -- For a client whose functions keep the node safe, so does `A7105_Mesh_Update`, whatever the chip, the
  -- clock and the random numbers answer and whatever packet comes in: the arrays keep their sizes and hold
  -- bytes, the indices of the rings and of the cache of handled requests stay inside, no operation lacks
  -- a callback, at most two responses wait, and a rejoin has an operation to go back to. The number of a
  -- register that a waiting response holds is a byte, not more: it may lie behind the node's registers.
  pub update-IsSafe : (m : Mesh) → IsSafe m → IsSafe (update m)
  unfolding update
  update-IsSafe m s = repeaters-IsSafe _ (
      check_for_timeouts-IsSafe
        (update_ping-IsSafe lawful (update_join-IsSafe lawful (handle_rx-IsSafe s))))

  -- The wait of a blocking call keeps the invariant too, and so does the call.
  wait_from-IsSafe : (n : ℕ) {m : Mesh} → IsSafe m → IsSafe (wait_from n m)
  unfolding wait_from
  wait_from-IsSafe zero s = IsSafe-same _ s refl
  wait_from-IsSafe (suc n) {m} s =
      elim m.blocking_operation_status
        as (λ result. IsSafe (elim result [ no_status ↦ wait_from n (update m) | _ ↦ m ])) [
          | no_status ↦ wait_from-IsSafe n (update-IsSafe m s)
          | _ ↦ s
        ]

  pub complete-IsSafe :
      (callback : Option Callback) (result : Status) {m : Mesh}
      → IsSafe m
      → IsSafe (complete callback (result, m)).1
  unfolding complete
  complete-IsSafe none result {m} s = elim result as (λ r. IsSafe (complete none (r, m)).1) [
    | ok ↦ wait_from-IsSafe io.patience s
    | _ ↦ s
  ]
  complete-IsSafe (some c) result s = s
