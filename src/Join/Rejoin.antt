-- ===== src/Join/Rejoin.antt =====
-- What `A7105_Mesh_Join` starts, and what `_rejoin_finished` brings back of an operation that a new
-- join interrupted: libraries/a7105_mesh/a7105_mesh.cpp.
use atmega_a.Prelude.{
  ℕ, ◌+◌, ◌%◌, ◌^◌, ◌<◌, ◌≡◌, ◌∙◌, refl, ap, arith, Bool, true, false, Option, none, some, byte_at,
  memcpy, byte_at-memcpy_start,
}
use atmega_a.World.{Io}
use atmega_a.Packet.{
  IsPacket, at_type, at_target_id, packet_size, pkt_join, set_packet_seq, set_packet_hop,
}
use atmega_a.Packet.Nibbles.{byte_at-IsByte}
use atmega_a.Mesh.{Mesh, Client, Callback, joining, rejoin_finished}
use atmega_a.Mesh.Valid.{IsValid}
use atmega_a.Send.{packet_header, prep_packet_header, send_request}
use atmega_a.Send.Header.{packet_header_fields}
use atmega_a.Send.Frame.{send_request-Kept}
use atmega_a.Join.{prep_finishing_callback, join, finish_rejoin}

-- What a join leaves, by whether it interrupts an operation.
pub record Started (m : Mesh) (id : ℕ) (interrupting : Bool) (number : ℕ) (j : Mesh) : Type 0 where
  pub state : j.state ≡ joining
  pub node_id : j.node_id ≡ id
  pub unique_id : j.unique_id ≡ m.unique_id
  pub sequence : j.sequence_num ≡ number
  pub packet :
      j.packet_cache ≡ packet_header pkt_join m.sequence_num id m.unique_id m.target_node_id
  pub request : j.pending_request_cache ≡ m.pending_request_cache
  pub pending_operation : interrupting ≡ true → j.pending_operation ≡ true
  pub pending_callback : interrupting ≡ true → j.pending_operation_callback ≡ m.operation_callback
  pub pending_state : interrupting ≡ true → j.pending_state ≡ m.state
  pub pending_target : interrupting ≡ true → j.pending_target_node_id ≡ m.target_node_id
  pub pending_unique : interrupting ≡ true → j.pending_target_unique_id ≡ m.target_unique_id % 2 ^ 8
  pub callback : interrupting ≡ true → j.operation_callback ≡ some rejoin_finished

type-join_header :
    (number id unique_id target : ℕ)
    → byte_at (packet_header pkt_join number id unique_id target) at_type ≡ pkt_join
unfolding packet_header set_packet_seq set_packet_hop
type-join_header number id unique_id target = refl

module _ ⦃io : Io⦄ ⦃client : Client⦄ where
  Started-send_request :
      {m b : Mesh} {id number : ℕ} {interrupting : Bool}
      → Started m id interrupting number b
      → Started m id interrupting ((number + 1) % 16) (send_request b)
  Started-send_request {m} {b} {id} s =
      let (k, sequence_bumped, _, request_kept) = send_request-Kept b in
      let join_type : byte_at b.packet_cache at_type ≡ pkt_join =
        rw s.packet (type-join_header m.sequence_num id m.unique_id m.target_node_id) in
      record {
        state = k.state ∙ s.state;
        node_id = k.node_id ∙ s.node_id;
        unique_id = k.unique_id ∙ s.unique_id;
        sequence = sequence_bumped ∙ ap (λ n. (n + 1) % 16) s.sequence;
        packet = k.packet ∙ s.packet;
        request = (rw join_type at request_kept) ∙ s.request;
        pending_operation = λ i. k.pending_operation ∙ s.pending_operation i;
        pending_callback = λ i. k.pending_callback ∙ s.pending_callback i;
        pending_state = λ i. k.pending_state ∙ s.pending_state i;
        pending_target = λ i. k.pending_target ∙ s.pending_target i;
        pending_unique = λ i. k.pending_unique ∙ s.pending_unique i;
        callback = λ i. k.operation_callback ∙ s.callback i;
      }

  pub join-Started :
      (m : Mesh) (id : ℕ) (callback : Option Callback) (interrupting : Bool)
      → Started m id interrupting ((m.sequence_num + 1) % 16) (join id callback interrupting m)
  unfolding join prep_finishing_callback prep_packet_header
  join-Started m id callback true = Started-send_request record {
    state = refl;
    node_id = refl;
    unique_id = refl;
    sequence = refl;
    packet = refl;
    request = refl;
    pending_operation = λ i. refl;
    pending_callback = λ i. refl;
    pending_state = λ i. refl;
    pending_target = λ i. refl;
    pending_unique = λ i. refl;
    callback = λ i. refl;
  }
  join-Started m id none false = Started-send_request record {
    state = refl;
    node_id = refl;
    unique_id = refl;
    sequence = refl;
    packet = refl;
    request = refl;
    pending_operation = λ i. cc;
    pending_callback = λ i. cc;
    pending_state = λ i. cc;
    pending_target = λ i. cc;
    pending_unique = λ i. cc;
    callback = λ i. cc;
  }
  join-Started m id (some c) false = Started-send_request record {
    state = refl;
    node_id = refl;
    unique_id = refl;
    sequence = refl;
    packet = refl;
    request = refl;
    pending_operation = λ i. cc;
    pending_callback = λ i. cc;
    pending_state = λ i. cc;
    pending_target = λ i. cc;
    pending_unique = λ i. cc;
    callback = λ i. cc;
  }

  -- The end of a rejoin, on any node.
  finish_rejoin_lem :
      (j : Mesh)
      → let r = finish_rejoin j in
        (r.state ≡ j.pending_state)
        × (r.operation_callback ≡ j.pending_operation_callback)
        × (r.target_node_id ≡ j.pending_target_node_id)
        × (r.target_unique_id ≡ j.pending_target_unique_id)
        × (r.node_id ≡ j.node_id)
        × (r.pending_operation ≡ false)
        × (r.packet_cache
            ≡ packet_header
                (byte_at (memcpy j.packet_cache 0 j.pending_request_cache 0 packet_size) at_type)
                j.sequence_num
                j.node_id
                j.unique_id
                j.pending_target_node_id)
  unfolding finish_rejoin prep_packet_header
  finish_rejoin_lem j =
      let k = (send_request-Kept _).0 in
      (
        k.state, k.operation_callback, k.target_node_id, k.target_unique_id, k.node_id,
        k.pending_operation, k.packet,
      )

  -- The end of a rejoin, run on what a join leaves that interrupts the request of a valid node: the
  -- state, the callback and the target node are those of the interrupted operation, and the node
  -- has its new id. Of the unique id that filters the responses, only the low eight bits come
  -- back, and of the request that is sent again, only the header: all bytes behind TARGET_ID are 0.
  pub finish_rejoin-join :
      (m : Mesh) (id : ℕ) (callback : Option Callback)
      → IsValid m
      → id < 256
      → let r = finish_rejoin (join id callback true m) in
        (r.state ≡ m.state)
        × (r.operation_callback ≡ m.operation_callback)
        × (r.target_node_id ≡ m.target_node_id)
        × (r.target_unique_id ≡ m.target_unique_id % 2 ^ 8)
        × (r.node_id ≡ id)
        × (r.pending_operation ≡ false)
        × (byte_at r.packet_cache at_type ≡ byte_at m.pending_request_cache at_type)
        × ((i : ℕ) → at_target_id < i → byte_at r.packet_cache i ≡ 0)
  finish_rejoin-join m id callback v small =
      let f = finish_rejoin_lem j in
      let fields =
        packet_header_fields request_type ((m.sequence_num + 1) % 16) id m.unique_id
          m.target_node_id (byte_at-IsByte at_type v.pending) (omega arith) small v.unique_word
          v.target_byte in
      (
        f.0 ∙ s.pending_state refl,
        f.1 ∙ s.pending_callback refl,
        f.2 ∙ s.pending_target refl,
        f.3 ∙ s.pending_unique refl,
        f.4 ∙ s.node_id,
        f.5,
        ap (λ p. byte_at p at_type) (f.6 ∙ sent) ∙ fields.1,
        λ i l. ap (λ p. byte_at p i) (f.6 ∙ sent) ∙ fields.7 i l,
      )
    where
      j : Mesh
      j = join id callback true m

      s : Started m id true ((m.sequence_num + 1) % 16) j
      s = join-Started m id callback true

      request_type : ℕ
      request_type = byte_at m.pending_request_cache at_type

      joined : IsPacket j.packet_cache
      joined =
          rw s.packet
            (packet_header_fields pkt_join m.sequence_num id m.unique_id m.target_node_id
              (omega arith) v.seq_nibble small v.unique_word v.target_byte).0

      restored :
          byte_at (memcpy j.packet_cache 0 j.pending_request_cache 0 packet_size) at_type
          ≡ request_type
      restored =
          byte_at-memcpy_start j.packet_cache j.pending_request_cache 0 packet_size 0
            (omega (arith, joined.size)) (omega arith)
          ∙ ap (byte_at j.pending_request_cache) (omega arith)
          ∙ ap (λ p. byte_at p at_type) s.request

      sent :
          packet_header
            (byte_at (memcpy j.packet_cache 0 j.pending_request_cache 0 packet_size) at_type)
            j.sequence_num
            j.node_id
            j.unique_id
            j.pending_target_node_id
          ≡ packet_header request_type ((m.sequence_num + 1) % 16) id m.unique_id m.target_node_id
      sent = rw (restored, s.sequence, s.node_id, s.unique_id, s.pending_target refl) refl
