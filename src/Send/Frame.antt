-- ===== src/Send/Frame.antt =====
-- What sending leaves as it was: `_A7105_Mesh_Send_Response` and `_A7105_Mesh_Send_Request` of
-- libraries/a7105_mesh/a7105_mesh.cpp.
use atmega_a.Prelude.{
  ℕ, ◌+◌, ◌%◌, ◌≡◌, ◌∙◌, refl, not, Bool-cases, inl, inr, if◌then◌else◌, List, ◌==◌, byte_at,
  memcpy,
}
use atmega_a.World.{Io, World}
use atmega_a.Packet.{at_type, packet_size, pkt_join}
use atmega_a.Mesh.{Mesh, now, max_repeat_cache_size}
use atmega_a.Send.{
  append_response_repeat, is_response_type, send_response, send_request, bump_sequence, transmit,
  await_transmission, listen,
}

-- The fields that no packet sent changes.
pub record Kept (m sent : Mesh) : Type 0 where
  pub packet : sent.packet_cache ≡ m.packet_cache
  pub state : sent.state ≡ m.state
  pub unique_id : sent.unique_id ≡ m.unique_id
  pub node_id : sent.node_id ≡ m.node_id
  pub target_node_id : sent.target_node_id ≡ m.target_node_id
  pub target_unique_id : sent.target_unique_id ≡ m.target_unique_id
  pub operation_callback : sent.operation_callback ≡ m.operation_callback
  pub blocking_status : sent.blocking_operation_status ≡ m.blocking_operation_status
  pub registers : sent.registers ≡ m.registers
  pub num_registers : sent.num_registers ≡ m.num_registers
  pub presence_table : sent.presence_table ≡ m.presence_table
  pub pending_operation : sent.pending_operation ≡ m.pending_operation
  pub pending_callback : sent.pending_operation_callback ≡ m.pending_operation_callback
  pub pending_state : sent.pending_state ≡ m.pending_state
  pub pending_target : sent.pending_target_node_id ≡ m.pending_target_node_id
  pub pending_unique : sent.pending_target_unique_id ≡ m.pending_target_unique_id

-- The changes that a packet sent makes outside of those fields.
Kept-changed :
    (m : Mesh) (w : World) (cache : List (List ℕ)) (end size number sent repeats repeated : ℕ)
    (pending : List ℕ)
    → Kept m (record m {
      world = w;
      response_repeat_cache = cache;
      response_repeat_cache_end = end;
      response_repeat_cache_size = size;
      sequence_num = number;
      request_sent_time = sent;
      request_repeat_count = repeats;
      last_request_repeat_sent_time = repeated;
      pending_request_cache = pending;
    })
Kept-changed m w cache end size number sent repeats repeated pending = record {
  packet = refl;
  state = refl;
  unique_id = refl;
  node_id = refl;
  target_node_id = refl;
  target_unique_id = refl;
  operation_callback = refl;
  blocking_status = refl;
  registers = refl;
  num_registers = refl;
  presence_table = refl;
  pending_operation = refl;
  pending_callback = refl;
  pending_state = refl;
  pending_target = refl;
  pending_unique = refl;
}

pub Kept-refl : (m : Mesh) → Kept m m
Kept-refl m = Kept-changed m _ _ _ _ _ _ _ _ _

pub Kept-trans : {a b c : Mesh} → Kept a b → Kept b c → Kept a c
Kept-trans k l = record {
  packet = l.packet ∙ k.packet;
  state = l.state ∙ k.state;
  unique_id = l.unique_id ∙ k.unique_id;
  node_id = l.node_id ∙ k.node_id;
  target_node_id = l.target_node_id ∙ k.target_node_id;
  target_unique_id = l.target_unique_id ∙ k.target_unique_id;
  operation_callback = l.operation_callback ∙ k.operation_callback;
  blocking_status = l.blocking_status ∙ k.blocking_status;
  registers = l.registers ∙ k.registers;
  num_registers = l.num_registers ∙ k.num_registers;
  presence_table = l.presence_table ∙ k.presence_table;
  pending_operation = l.pending_operation ∙ k.pending_operation;
  pending_callback = l.pending_callback ∙ k.pending_callback;
  pending_state = l.pending_state ∙ k.pending_state;
  pending_target = l.pending_target ∙ k.pending_target;
  pending_unique = l.pending_unique ∙ k.pending_unique;
}

append_response_repeat-Kept : (m : Mesh) → Kept m (append_response_repeat m)
unfolding append_response_repeat
append_response_repeat-Kept m =
    elim (Bool-cases (m.response_repeat_cache_size == max_repeat_cache_size)) [
      | inl e ↦ rw e (Kept-refl m)
      | inr e ↦ rw e (Kept-changed m _ _ _ _ _ _ _ _ _)
    ]

module _ ⦃io : Io⦄ where
  -- What follows the cache of responses.
  unfoldable pub push : Mesh → Mesh
  unfolding transmit await_transmission listen
  push m =
      let sent = await_transmission (transmit m.packet_cache m) in
      let (t, timed) = now sent in listen (record timed { last_response_repeat_sent_time = t })

  push-Kept : {m a : Mesh} → Kept m a → Kept m (push a)
  unfolding push
  push-Kept {m} {a} k = record {
    packet = k.packet;
    state = k.state;
    unique_id = k.unique_id;
    node_id = k.node_id;
    target_node_id = k.target_node_id;
    target_unique_id = k.target_unique_id;
    operation_callback = k.operation_callback;
    blocking_status = k.blocking_status;
    registers = k.registers;
    num_registers = k.num_registers;
    presence_table = k.presence_table;
    pending_operation = k.pending_operation;
    pending_callback = k.pending_callback;
    pending_state = k.pending_state;
    pending_target = k.pending_target;
    pending_unique = k.pending_unique;
  }

  pub send_response_lem :
      (m : Mesh)
      → send_response m
        ≡ push (
            if is_response_type (byte_at m.packet_cache at_type)
            then append_response_repeat m
            else m)
  unfolding send_response push
  send_response_lem m = refl

  pub send_response-Kept : (m : Mesh) → Kept m (send_response m)
  send_response-Kept m =
      rw (send_response_lem m)
        (elim (Bool-cases (is_response_type (byte_at m.packet_cache at_type))) [
          | inl e ↦ rw e (push-Kept (append_response_repeat-Kept m))
          | inr e ↦ rw e (push-Kept (Kept-refl m))
        ])

  -- The fields of the request under way.
  pub response_keeps_request :
      (m : Mesh)
      → ((send_response m).sequence_num ≡ m.sequence_num)
        × ((send_response m).pending_request_cache ≡ m.pending_request_cache)
        × ((send_response m).request_repeat_count ≡ m.request_repeat_count)
  unfolding push append_response_repeat
  response_keeps_request m =
      rw (send_response_lem m)
        (elim (Bool-cases (is_response_type (byte_at m.packet_cache at_type))) [
          | inl e ↦ elim (Bool-cases (m.response_repeat_cache_size == max_repeat_cache_size)) [
            | inl f ↦ rw (e, f) (refl, refl, refl)
            | inr f ↦ rw (e, f) (refl, refl, refl)
          ]
          | inr e ↦ rw e (refl, refl, refl)
        ])

  -- A request before it goes out.
  unfoldable pub request_of : Mesh → Mesh
  request_of m =
      let (t, timed) = now m in
      let bumped = record (bump_sequence timed) {
        request_sent_time = t;
        request_repeat_count = 0;
        last_request_repeat_sent_time = t;
      } in
      if not (byte_at m.packet_cache at_type == pkt_join)
      then record bumped {
        pending_request_cache = memcpy m.pending_request_cache 0 m.packet_cache 0 packet_size;
      }
      else bumped

  request_of-Kept : (m : Mesh) → Kept m (request_of m)
  unfolding request_of
  request_of-Kept m = elim (Bool-cases (byte_at m.packet_cache at_type == pkt_join)) [
    | inl e ↦ rw e (Kept-changed m _ _ _ _ _ _ _ _ _)
    | inr e ↦ rw e (Kept-changed m _ _ _ _ _ _ _ _ _)
  ]

  request_fields :
      (m : Mesh)
      → ((request_of m).sequence_num ≡ (m.sequence_num + 1) % 16)
        × ((request_of m).request_repeat_count ≡ 0)
        × ((request_of m).pending_request_cache ≡ (
            if byte_at m.packet_cache at_type == pkt_join
            then m.pending_request_cache
            else memcpy m.pending_request_cache 0 m.packet_cache 0 packet_size))
  unfolding request_of
  request_fields m = elim (Bool-cases (byte_at m.packet_cache at_type == pkt_join)) [
    | inl e ↦ rw e (refl, refl, refl)
    | inr e ↦ rw e (refl, refl, refl)
  ]

  pub send_request_lem : (m : Mesh) → send_request m ≡ send_response (request_of m)
  unfolding send_request request_of
  send_request_lem m = refl

  -- The changes of a request that goes out.
  pub send_request-Kept :
      (m : Mesh)
      → Kept m (send_request m)
        × ((send_request m).sequence_num ≡ (m.sequence_num + 1) % 16)
        × ((send_request m).request_repeat_count ≡ 0)
        × ((send_request m).pending_request_cache ≡ (
            if byte_at m.packet_cache at_type == pkt_join
            then m.pending_request_cache
            else memcpy m.pending_request_cache 0 m.packet_cache 0 packet_size))
  send_request-Kept m =
      let fields = response_keeps_request (request_of m) in
      rw (send_request_lem m) (
        Kept-trans (request_of-Kept m) (send_response-Kept (request_of m)),
        fields.0 ∙ (request_fields m).0,
        fields.2 ∙ (request_fields m).1,
        fields.1 ∙ (request_fields m).2,
      )
