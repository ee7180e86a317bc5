-- ===== src/Update/Joining.antt =====
-- What a packet means to a node that is joining: `_A7105_Mesh_Handle_RX` of
-- libraries/a7105_mesh/a7105_mesh.cpp from its check for namesakes on.
use atmega_a.Prelude.{
  ◌≡◌, ◌∙◌, refl, ap, arith, Bool, false, ◌&&◌, Bool-cases, inl, inr, if◌then◌else◌, ◌==◌, byte_at,
  ltb, ◌+◌, ◌%◌, ◌^◌, ◌<◌,
}
use atmega_a.World.{Io}
use atmega_a.Packet.{pkt_conflict_name, pkt_join, at_type, at_node_id, get_pkt_unique_id}
use atmega_a.Mesh.Valid.{IsValid, in_state}
use atmega_a.Mesh.{joining, Mesh, Client, is_off_mesh}
use atmega_a.Handled.{handling_request, update_handled_packet_cache}
use atmega_a.Join.{join, is_namesake, handle_conflict_name, handle_deferred_joining}
use atmega_a.Join.Rejoin.{Started, join-Started}
use atmega_a.Send.Header.{packet_header_fields}
use atmega_a.Repeater.{cache_packet_for_repeat}
use atmega_a.Update.{handle_requests, process_packet}
use atmega_a.Update.Membership.{
  off_mesh_requests, state-update_handled_packet_cache, process_packet_off,
}

if_refused : (a b : Bool) {c : Bool} (x y : Mesh) → c ≡ false → (if a && b && c then x else y) ≡ y
if_refused a b x y h = ground arith

module _ ⦃io : Io⦄ ⦃client : Client⦄ where
  expired_bounds :
      (m : Mesh)
      → IsValid m
      → ((update_handled_packet_cache m).sequence_num < 16)
        × ((update_handled_packet_cache m).unique_id < 2 ^ 16)
        × ((update_handled_packet_cache m).target_node_id < 256)
  unfolding update_handled_packet_cache
  expired_bounds m v = (v.seq_nibble, v.unique_word, v.target_byte)

  -- The join with the next id that a joining node starts over.
  abbrev pub next_join : Mesh → Mesh
  next_join m = join ((m.node_id + 1) % 256) m.operation_callback false m

  abbrev pub conflicting : Mesh → Bool
  conflicting m = byte_at m.packet_cache at_type == pkt_conflict_name && is_namesake m

  abbrev pub deferring : Mesh → Bool
  deferring m =
      byte_at m.packet_cache at_type == pkt_join
      && byte_at m.packet_cache at_node_id == m.node_id
      && ltb m.unique_id (get_pkt_unique_id m.packet_cache)

  -- What a packet means to a joining node, whose cache of handled requests is up to date.
  abbrev pub joining_step : Mesh → Mesh
  joining_step m =
      if conflicting m
      then next_join (handling_request m)
      else if deferring m
      then next_join m
      else m

  conflict_name_at_joining :
      (m : Mesh)
      → let e = record m { state = joining } in
        handle_conflict_name e ≡ (if conflicting e then next_join (handling_request e) else e)
  unfolding handle_conflict_name handling_request
  conflict_name_at_joining m = refl

  conflict_name_joining :
      (m : Mesh)
      → m.state ≡ joining
      → handle_conflict_name m ≡ (if conflicting m then next_join (handling_request m) else m)
  conflict_name_joining m h = rw (in_state m h) (conflict_name_at_joining m)

  deferred_joining :
      (m : Mesh)
      → m.state ≡ joining
      → handle_deferred_joining m ≡ (if deferring m then next_join m else m)
  unfolding handle_deferred_joining
  deferred_joining m h = rw h refl

  -- The packet in the cache of a node that has just sent a JOIN is its own: it does not defer to it.
  deferred-next_join :
      (m : Mesh)
      → m.sequence_num < 16
      → m.unique_id < 2 ^ 16
      → m.target_node_id < 256
      → handle_deferred_joining (next_join m) ≡ next_join m
  deferred-next_join m hs hu ht =
      deferred_joining (next_join m) s.state
      ∙ if_refused (byte_at (next_join m).packet_cache at_type == pkt_join)
          (byte_at (next_join m).packet_cache at_node_id == (next_join m).node_id) _ _ own
    where
      s : Started m ((m.node_id + 1) % 256) false ((m.sequence_num + 1) % 16) (next_join m)
      s = join-Started m ((m.node_id + 1) % 256) m.operation_callback false

      sent : get_pkt_unique_id (next_join m).packet_cache ≡ m.unique_id
      sent =
          rw s.packet
            (packet_header_fields pkt_join m.sequence_num ((m.node_id + 1) % 256) m.unique_id
              m.target_node_id (omega arith) hs (omega arith) hu ht).5

      own : ltb (next_join m).unique_id (get_pkt_unique_id (next_join m).packet_cache) ≡ false
      own = rw (sent, s.unique_id) (ground arith)

  joining_step-joining : (m : Mesh) → m.state ≡ joining → (joining_step m).state ≡ joining
  joining_step-joining m h = elim (Bool-cases (conflicting m)) [
    | inl e ↦ rw e (join-Started (handling_request m) _ _ false).state
    | inr e ↦ elim (Bool-cases (deferring m)) [
      | inl f ↦ rw (e, f) (join-Started m _ _ false).state
      | inr f ↦ rw (e, f) h
    ]
  ]

  settled :
      (m : Mesh)
      → m.state ≡ joining
      → m.sequence_num < 16
      → m.unique_id < 2 ^ 16
      → m.target_node_id < 256
      → handle_deferred_joining (handle_conflict_name m) ≡ joining_step m
  unfolding handling_request
  settled m h hs hu ht =
      ap handle_deferred_joining (conflict_name_joining m h) ∙ elim (Bool-cases (conflicting m)) [
        | inl e ↦ rw e (deferred-next_join (handling_request m) hs hu ht)
        | inr e ↦ rw e (deferred_joining m h)
      ]

  -- A valid node that is joining takes the next id, 0 behind 255, and starts over if a packet is a
  -- CONFLICT_NAME of another node with its id, or a JOIN for its id from a node of a higher unique
  -- id. Apart from that it answers no packet and repeats none. It never takes two ids for one
  -- packet.
  pub process_packet_joining :
      (m : Mesh)
      → IsValid m
      → m.state ≡ joining
      → process_packet m ≡ joining_step (update_handled_packet_cache m)
  process_packet_joining m v h =
      let b = expired_bounds m v in
      process_packet_off m (ap is_off_mesh h)
      ∙ ap (λ x. handle_requests (cache_packet_for_repeat x)) (settled expired still b.0 b.1 b.2)
      ∙ off_mesh_requests (joining_step expired)
          (ap is_off_mesh (joining_step-joining expired still))
    where
      expired : Mesh
      expired = update_handled_packet_cache m

      still : expired.state ≡ joining
      still = state-update_handled_packet_cache m ∙ h
