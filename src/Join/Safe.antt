-- ===== src/Join/Safe.antt =====
-- Joining and the ends of operations keep the invariant of the node, for a client that does:
-- libraries/a7105_mesh/a7105_mesh.cpp.
use atmega_a.Prelude.{
  ℕ, ◌+◌, ◌%◌, ◌<◌, ◌≡◌, ◌≢◌, ◌∙◌, refl, ap, arith, Bool, true, false, not, ◌&&◌, ◌||◌, Bool-cases,
  inl, inr, Option, none, some, ltb, ◌==◌, if◌then◌else◌, byte_at, memcpy, length-memcpy,
  All-memcpy,
}
use atmega_a.World.{Io}
use atmega_a.Packet.{
  IsByte, IsPacket, packet_size, at_type, at_node_id, pkt_conflict_name, pkt_join,
  get_pkt_unique_id,
}
use atmega_a.Packet.Nibbles.{byte_at-IsByte}
use atmega_a.Mesh.{
  Mesh, State, not_joined, joining, idle, Status, ok, Callback, user, blocking_op_finished,
  rejoin_finished, Client, is_off_mesh, same_state, is_past, join_accept_delay,
}
use atmega_a.Mesh.Safe.{IsSafe, IsSafe-same, IsSafe-packet}
use atmega_a.Mesh.Started.{IsSafe-operation}
use atmega_a.Mesh.Lawful.{IsLawful, is_joined}
use atmega_a.Send.Safe.{prep_packet_header-IsSafe, send_request-IsSafe}
use atmega_a.Handled.{handling_request}
use atmega_a.Handled.Safe.{handling_request-IsSafe}
use atmega_a.Join.{
  prep_finishing_callback, finish_rejoin, call_back, finish_operation, join, update_join,
  is_namesake, handle_conflict_name, handle_deferred_joining, check_for_node_id_conflicts,
}

-- A node that a conflict interrupts in an operation has joined.
interrupted :
    (state : State)
    → not (same_state state not_joined)
        && not (same_state state idle)
        && not (same_state state joining)
      ≡ true
    → state ≢ not_joined
interrupted state q z =
    let g : same_state state not_joined ≡ true = ap (λ x. same_state x not_joined) z in
    let never : false ≡ true = rw g at q in cc

module _ ⦃io : Io⦄ ⦃client : Client⦄ where
  finish_rejoin-IsSafe :
      {m : Mesh} → IsSafe m → m.operation_callback ≡ some rejoin_finished → IsSafe (finish_rejoin m)
  unfolding finish_rejoin
  finish_rejoin-IsSafe {m} s e =
      let packet : IsPacket (memcpy m.packet_cache 0 m.pending_request_cache 0 packet_size) =
        record {
          size =
              length-memcpy m.packet_cache 0 m.pending_request_cache 0 packet_size
              ∙ s.valid.packet.size;
          bytes =
              All-memcpy IsByte m.packet_cache 0 m.pending_request_cache 0 packet_size
                s.valid.packet.bytes s.valid.pending.bytes (omega arith);
        } in
      let restored =
        IsSafe-operation s {state = m.pending_state} {callback = m.pending_operation_callback}
          s.valid.node_byte s.valid.pending_target_byte s.valid.pending_target_byte
          (λ _. s.resumed e) (λ _. s.resumed e) in
      send_request-IsSafe (
        prep_packet_header-IsSafe _ (IsSafe-same _ (IsSafe-packet restored packet) refl)
          (byte_at-IsByte at_type packet))

  pub join-IsSafe :
      {m : Mesh} (node_id : ℕ) (callback : Option Callback) (interrupting : Bool)
      → IsSafe m
      → node_id < 256
      → (interrupting ≡ true → m.operation_callback ≢ none)
      → (callback ≡ some rejoin_finished → m.pending_operation_callback ≢ none)
      → IsSafe (join node_id callback interrupting m)
  unfolding join prep_finishing_callback
  join-IsSafe {m} node_id callback true s l there resumed = send_request-IsSafe (
      prep_packet_header-IsSafe pkt_join
        (IsSafe-same _
          (IsSafe-operation s {state = joining} {callback = some rejoin_finished}
            {waiting = m.operation_callback} l s.valid.target_byte s.valid.target_byte (λ _ e. cc)
            (λ _. there refl))
          refl)
        (omega arith))
  join-IsSafe {m} node_id none false s l there resumed = send_request-IsSafe (
      prep_packet_header-IsSafe pkt_join
        (IsSafe-same _
          (IsSafe-operation s {state = joining} {callback = some blocking_op_finished}
            {waiting = m.pending_operation_callback} l s.valid.target_byte
            s.valid.pending_target_byte (λ _ e. cc) (λ e. cc))
          refl)
        (omega arith))
  join-IsSafe {m} node_id (some c) false s l there resumed = send_request-IsSafe (
      prep_packet_header-IsSafe pkt_join
        (IsSafe-same _
          (IsSafe-operation s {state = joining} {callback = some c}
            {waiting = m.pending_operation_callback} l s.valid.target_byte
            s.valid.pending_target_byte (λ _ e. cc) resumed)
          refl)
        (omega arith))

  pub handle_conflict_name-IsSafe : {m : Mesh} → IsSafe m → IsSafe (handle_conflict_name m)
  unfolding handle_conflict_name handling_request
  handle_conflict_name-IsSafe {m} s =
      let is_joining = same_state m.state joining in
      elim (Bool-cases (byte_at m.packet_cache at_type == pkt_conflict_name && is_namesake m)) [
        | inl a ↦
            elim (Bool-cases (
              is_joining
              || not (same_state m.state not_joined)
                && ltb m.unique_id (get_pkt_unique_id m.packet_cache))) [
                  | inl b ↦
                      let h = handling_request-IsSafe s in
                      rw (a, b)
                        (join-IsSafe (if is_joining then (m.node_id + 1) % 256 else 1)
                          m.operation_callback
                          (not (same_state m.state not_joined)
                            && not (same_state m.state idle)
                            && not is_joining)
                          h (ground arith) (λ q. s.valid.callback_there (interrupted m.state q))
                          s.resumed)
                  | inr b ↦ rw (a, b) s
                ]
        | inr a ↦ rw a s
      ]

  pub handle_deferred_joining-IsSafe : {m : Mesh} → IsSafe m → IsSafe (handle_deferred_joining m)
  unfolding handle_deferred_joining
  handle_deferred_joining-IsSafe {m} s =
      elim (Bool-cases (
        same_state m.state joining
        && byte_at m.packet_cache at_type == pkt_join
        && byte_at m.packet_cache at_node_id == m.node_id
        && ltb m.unique_id (get_pkt_unique_id m.packet_cache))) [
          | inl e ↦ rw e (
              join-IsSafe ((m.node_id + 1) % 256) m.operation_callback false s (omega arith)
                (λ q. cc) s.resumed)
          | inr e ↦ rw e s
        ]

  pub check_for_node_id_conflicts-IsSafe :
      {m : Mesh} → IsSafe m → IsSafe (check_for_node_id_conflicts m).1
  unfolding check_for_node_id_conflicts
  check_for_node_id_conflicts-IsSafe {m} s =
      elim (Bool-cases (not (is_off_mesh m.state) && is_namesake m)) [
        | inl e ↦
            rw e (send_request-IsSafe (prep_packet_header-IsSafe pkt_conflict_name s (omega arith)))
        | inr e ↦ rw e s
      ]

  pub is_past-IsSafe : {m : Mesh} (since delay : ℕ) → IsSafe m → IsSafe (is_past since delay m).1
  unfolding is_past
  is_past-IsSafe since delay s = IsSafe-same _ s refl

  pub is_past_joined :
      (m : Mesh) (since delay : ℕ)
      → m.state ≢ not_joined
      → (is_past since delay m).1.state ≢ not_joined
  unfolding is_past
  is_past_joined m since delay active = active

module _ ⦃io : Io⦄ ⦃client : Client⦄ (lawful : IsLawful client) where
  call_back-IsSafe :
      {m : Mesh} (callback : Option Callback) (result : Status)
      → IsSafe m
      → m.operation_callback ≡ callback
      → IsSafe (call_back callback result m)
  unfolding call_back
  call_back-IsSafe none result s e = s
  call_back-IsSafe (some (user k)) result s e = lawful.finished k result _ s
  call_back-IsSafe (some blocking_op_finished) result s e = IsSafe-same _ s refl
  call_back-IsSafe (some rejoin_finished) result s e = finish_rejoin-IsSafe s e

  pub finish_operation-IsSafe :
      {m : Mesh} (result : Status)
      → IsSafe m
      → m.state ≢ not_joined
      → IsSafe (finish_operation result m)
  unfolding finish_operation
  finish_operation-IsSafe {m} result s active =
      call_back-IsSafe m.operation_callback result
        (IsSafe-same _
          (IsSafe-operation s {state = idle} {callback = m.operation_callback}
            {waiting = m.pending_operation_callback} s.valid.node_byte s.valid.target_byte
            s.valid.pending_target_byte (λ _. s.valid.callback_there active) s.resumed)
          refl)
        refl

  pub update_join-IsSafe : {m : Mesh} → IsSafe m → IsSafe (update_join m)
  unfolding update_join
  update_join-IsSafe {m} s = elim (Bool-cases (same_state m.state joining)) [
    | inl e ↦
        let looked = is_past-IsSafe m.join_first_tx_time join_accept_delay s in
        let m₁ = (is_past m.join_first_tx_time join_accept_delay m).1 in
        elim (Bool-cases (is_past m.join_first_tx_time join_accept_delay m).0) [
          | inl accepted ↦
              rw (e, accepted)
                (finish_operation-IsSafe ok looked (
                  is_past_joined m m.join_first_tx_time join_accept_delay
                    (is_joined m joining e refl)))
          | inr waits ↦
              let again = is_past-IsSafe m₁.request_sent_time m₁.join_retransmit_delay looked in
              elim (Bool-cases (is_past m₁.request_sent_time m₁.join_retransmit_delay m₁).0) [
                | inl due ↦
                    rw (e, waits, due)
                      (send_request-IsSafe (prep_packet_header-IsSafe pkt_join again (omega arith)))
                | inr early ↦ rw (e, waits, early) again
              ]
        ]
    | inr e ↦ rw e s
  ]
