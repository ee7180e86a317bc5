-- ===== src/Update/Membership.antt =====
-- What a node does with a packet, by its place in the mesh: `_A7105_Mesh_Handle_RX` of
-- libraries/a7105_mesh/a7105_mesh.cpp from its check for namesakes on.
use atmega_a.Prelude.{
  ◌≡◌, ◌⊎◌, ◌∙◌, refl, ap, arith, true, false, ◌&&◌, Bool-cases, inl, inr, if◌then◌else◌, ◌==◌,
  byte_at,
}
use atmega_a.World.{Io}
use atmega_a.Mesh.Valid.{in_state}
use atmega_a.Packet.{pkt_conflict_name, at_type}
use atmega_a.Mesh.{
  State, not_joined, joining, idle, pinging, getting_num_registers, getting_register_name,
  getting_register, setting_register, Mesh, Client, is_off_mesh, same_state,
}
use atmega_a.Send.{prep_packet_header, send_request}
use atmega_a.Handled.{update_handled_packet_cache}
use atmega_a.Join.{
  is_namesake, handle_conflict_name, handle_deferred_joining, check_for_node_id_conflicts,
}
use atmega_a.Repeater.{is_repeatable, cache_packet_for_repeat}
use atmega_a.Ping.{handle_ping, handle_pong}
use atmega_a.Query.{
  handle_get_num_registers, handle_num_registers, handle_get_register_name, handle_register_name,
}
use atmega_a.Serve.{
  handle_get_register, handle_register_value, handle_set_register, handle_set_register_ack,
  handle_register_value_broadcast,
}
use atmega_a.Update.{handle_requests, process_packet}

not_joining : (s : State) → is_off_mesh s ≡ false → same_state s joining ≡ false
not_joining not_joined h = cc
not_joining joining h = cc
not_joining idle h = refl
not_joining pinging h = refl
not_joining getting_num_registers h = refl
not_joining getting_register_name h = refl
not_joining getting_register h = refl
not_joining setting_register h = refl

off_mesh_states : (s : State) → is_off_mesh s ≡ true → (s ≡ not_joined) ⊎ (s ≡ joining)
off_mesh_states not_joined h = inl refl
off_mesh_states joining h = inr refl
off_mesh_states idle h = cc
off_mesh_states pinging h = cc
off_mesh_states getting_num_registers h = cc
off_mesh_states getting_register_name h = cc
off_mesh_states getting_register h = cc
off_mesh_states setting_register h = cc

module _ ⦃io : Io⦄ ⦃client : Client⦄ where
  conflict_name_without : (m : Mesh) → is_namesake m ≡ false → handle_conflict_name m ≡ m
  unfolding handle_conflict_name
  conflict_name_without m h = ground (arith, h)

  deferred_without : (m : Mesh) → same_state m.state joining ≡ false → handle_deferred_joining m ≡ m
  unfolding handle_deferred_joining
  deferred_without m h = rw h refl

  conflicts_lem :
      (m : Mesh)
      → is_off_mesh m.state ≡ false
      → check_for_node_id_conflicts m ≡ (
          if is_namesake m
          then (true, send_request (prep_packet_header m pkt_conflict_name))
          else (false, m))
  unfolding check_for_node_id_conflicts
  conflicts_lem m h = rw h refl

  -- A node that is on the mesh answers a packet of another node with its own node id by a
  -- CONFLICT_NAME packet, and handles every other packet, CONFLICT_NAME packets included, without
  -- joining again: the two steps that start a new join are never taken.
  pub process_packet_on_mesh :
      (m : Mesh)
      → is_off_mesh m.state ≡ false
      → process_packet m ≡ (
          if is_namesake m
          then send_request (prep_packet_header m pkt_conflict_name)
          else handle_requests (cache_packet_for_repeat (update_handled_packet_cache m)))
  unfolding process_packet update_handled_packet_cache
  process_packet_on_mesh m h = elim (Bool-cases (is_namesake m)) [
    | inl e ↦ rw (conflicts_lem m h, e) refl
    | inr e ↦
        rw
          (
            conflicts_lem m h,
            e,
            conflict_name_without (update_handled_packet_cache m) e,
            deferred_without (update_handled_packet_cache m) (not_joining m.state h),
          )
          refl
  ]

  not_joined_requests :
      (m : Mesh)
      → handle_requests (cache_packet_for_repeat (record m { state = not_joined }))
        ≡ record m { state = not_joined }
  unfolding handle_requests is_repeatable cache_packet_for_repeat handle_ping handle_pong
      handle_get_num_registers handle_num_registers handle_get_register_name handle_register_name
      handle_get_register handle_register_value handle_set_register handle_set_register_ack
      handle_register_value_broadcast
  not_joined_requests m = refl

  joining_requests :
      (m : Mesh)
      → handle_requests (cache_packet_for_repeat (record m { state = joining }))
        ≡ record m { state = joining }
  unfolding handle_requests is_repeatable cache_packet_for_repeat handle_ping handle_pong
      handle_get_num_registers handle_num_registers handle_get_register_name handle_register_name
      handle_get_register handle_register_value handle_set_register handle_set_register_ack
      handle_register_value_broadcast
  joining_requests m = refl

  -- No handler of requests, and no repeater, does anything off the mesh.
  pub off_mesh_requests :
      (m : Mesh) → is_off_mesh m.state ≡ true → handle_requests (cache_packet_for_repeat m) ≡ m
  off_mesh_requests m h = elim (off_mesh_states m.state h) [
    | inl e ↦ rw (in_state m e) (not_joined_requests m)
    | inr e ↦ rw (in_state m e) (joining_requests m)
  ]

  pub state-update_handled_packet_cache :
      (m : Mesh) → (update_handled_packet_cache m).state ≡ m.state
  unfolding update_handled_packet_cache
  state-update_handled_packet_cache m = refl

  pub process_packet_off :
      (m : Mesh)
      → is_off_mesh m.state ≡ true
      → process_packet m
        ≡ handle_requests (
            cache_packet_for_repeat
              (handle_deferred_joining (handle_conflict_name (update_handled_packet_cache m))))
  unfolding process_packet check_for_node_id_conflicts
  process_packet_off m h = rw h refl

  conflict_name_not_joined :
      (m : Mesh)
      → handle_conflict_name (record m { state = not_joined }) ≡ record m { state = not_joined }
  unfolding handle_conflict_name
  conflict_name_not_joined m =
      elim (Bool-cases (byte_at m.packet_cache at_type == pkt_conflict_name && is_namesake m)) [
        | inl e ↦ rw e refl
        | inr e ↦ rw e refl
      ]

  -- A node that has not joined a mesh answers no packet and repeats none: all that a packet does is
  -- to make entries of the cache of handled requests expire.
  pub process_packet_not_joined :
      (m : Mesh) → m.state ≡ not_joined → process_packet m ≡ update_handled_packet_cache m
  process_packet_not_joined m h =
      process_packet_off m (ap is_off_mesh h)
      ∙ ap (λ x. handle_requests (cache_packet_for_repeat x))
          (ap handle_deferred_joining
              (rw (in_state expired still) (conflict_name_not_joined expired))
            ∙ deferred_without expired (ap (λ s. same_state s joining) still))
      ∙ off_mesh_requests expired (ap is_off_mesh still)
    where
      expired : Mesh
      expired = update_handled_packet_cache m

      still : expired.state ≡ not_joined
      still = state-update_handled_packet_cache m ∙ h
