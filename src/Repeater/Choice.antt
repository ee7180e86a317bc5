-- ===== src/Repeater/Choice.antt =====
-- Which packets a node repeats: `_A7105_Mesh_Cache_Packet_For_Repeat` of
-- libraries/a7105_mesh/a7105_mesh.cpp.
use atmega_a.Prelude.{
  ℕ, zero, suc, ◌+◌, ◌<◌, ◌≡◌, ◌≢◌, ◌∙◌, ◌⊎◌, ap, arith, true, false, ◌&&◌, ◌||◌, List, [], ◌==◌,
  leb, get_or, byte_at, All-get_or_in,
}
use atmega_a.Packet.{
  IsPacket, at_type, at_node_id, pkt_join, pkt_get_register, pkt_set_register, get_packet_hop,
  set_packet_hop, get_pkt_unique_id, is_same_packet_sans_hop,
}
use atmega_a.Packet.Same.{same_iff_equal_without_hop}
use atmega_a.Register.{Register}
use atmega_a.Codec.{no_register, does_packet_have_register, cmp_packet_register}
use atmega_a.Codec.Names.{HasName, cmp_packet_register_iff, does_packet_have_register_lem}
use atmega_a.Mesh.{Mesh, is_off_mesh, max_repeat_cache_size, max_hop_count}
use atmega_a.Mesh.Valid.{IsValid}
use atmega_a.Repeater.{serves_from, was_repeated_from, is_repeatable}

serves_from-false :
    (packet : List ℕ) (registers : List Register) (n x i : ℕ)
    → serves_from packet registers n x ≡ false
    → i < n
    → does_packet_have_register packet (get_or registers (x + i) no_register) ≡ false
unfolding serves_from
serves_from-false packet registers zero x i h l = absurd (omega arith)
serves_from-false packet registers (suc n) x zero h l =
    let here : does_packet_have_register packet (get_or registers x no_register) ≡ false =
      ground arith in
    ap (λ k. does_packet_have_register packet (get_or registers k no_register)) (omega arith) ∙ here
serves_from-false packet registers (suc n) x (suc i) h l =
    ap (λ k. does_packet_have_register packet (get_or registers k no_register)) (omega arith)
    ∙ serves_from-false packet registers n (suc x) i (ground arith) (omega arith)

was_repeated_from-false :
    (packet : List ℕ) (cache : List (List ℕ)) (n x i : ℕ)
    → was_repeated_from packet cache n x ≡ false
    → i < n
    → byte_at packet at_type ≢ pkt_join
    → is_same_packet_sans_hop packet (get_or cache (x + i) []) ≡ false
unfolding was_repeated_from
was_repeated_from-false packet cache zero x i h l t = absurd (omega arith)
was_repeated_from-false packet cache (suc n) x zero h l t =
    let here : is_same_packet_sans_hop packet (get_or cache x []) ≡ false = ground arith in
    ap (λ k. is_same_packet_sans_hop packet (get_or cache k [])) (omega arith) ∙ here
was_repeated_from-false packet cache (suc n) x (suc i) h l t =
    ap (λ k. is_same_packet_sans_hop packet (get_or cache k [])) (omega arith)
    ∙ was_repeated_from-false packet cache n (suc x) i (ground arith) (omega arith) t

-- The tests that a packet passed.
repeatable_parts :
    (m : Mesh)
    → is_repeatable m ≡ true
    → let p = m.packet_cache in
      (is_off_mesh m.state ≡ false)
      × ((byte_at p at_node_id == m.node_id && get_pkt_unique_id p == m.unique_id) ≡ false)
      × (((byte_at p at_type == pkt_get_register || byte_at p at_type == pkt_set_register)
            && serves_from p m.registers m.num_registers 0)
          ≡ false)
      × (was_repeated_from p m.repeat_cache max_repeat_cache_size 0 ≡ false)
      × (leb max_hop_count (get_packet_hop p) ≡ false)
unfolding is_repeatable
repeatable_parts m h = ground arith

-- A valid node puts a packet in line for a repeat only if the node is on the mesh and the packet is
-- not its own, has fewer than 6 hops, does not ask for a register that the node has, and, if it is
-- not a JOIN, differs in more than the hop count from both entries of the repeat cache.
pub is_repeatable_sound :
    (m : Mesh)
    → IsValid m
    → is_repeatable m ≡ true
    → let p = m.packet_cache in
      (is_off_mesh m.state ≡ false)
      × (byte_at p at_node_id ≡ m.node_id → get_pkt_unique_id p ≢ m.unique_id)
      × (get_packet_hop p < max_hop_count)
      × ((byte_at p at_type ≡ pkt_get_register) ⊎ (byte_at p at_type ≡ pkt_set_register)
          → (i : ℕ) → i < m.num_registers
          → ¬ HasName p (get_or m.registers i no_register))
      × (byte_at p at_type ≢ pkt_join
          → (i : ℕ) → i < max_repeat_cache_size
          → set_packet_hop p 0 ≢ set_packet_hop (get_or m.repeat_cache i []) 0)
is_repeatable_sound m v h =
    let parts = repeatable_parts m h in
    (
      parts.0,
      (λ n u. ground (arith, parts.1)),
      ground (arith, parts.4),
      (λ t i l name.
          let reg : Register = get_or m.registers i no_register in
          let found : cmp_packet_register m.packet_cache reg false ≡ true =
            (cmp_packet_register_iff m.packet_cache reg).1 name in
          let free : serves_from m.packet_cache m.registers m.num_registers 0 ≡ false =
            ground (arith, parts.2, t) in
          let missed : does_packet_have_register m.packet_cache
                (get_or m.registers (0 + i) no_register)
              ≡ false =
            serves_from-false m.packet_cache m.registers m.num_registers 0 i free l in
          let at_i : does_packet_have_register m.packet_cache reg ≡ false =
            ap (λ k. does_packet_have_register m.packet_cache (get_or m.registers k no_register))
              (omega arith)
            ∙ missed in
          ground (arith, does_packet_have_register_lem m.packet_cache reg, t)),
      (λ t i l same.
          let entry : List ℕ = get_or m.repeat_cache i [] in
          let packet : IsPacket entry =
            All-get_or_in IsPacket m.repeat_cache i [] v.repeat_packets (omega (arith, v)) in
          let missed : is_same_packet_sans_hop m.packet_cache (get_or m.repeat_cache (0 + i) [])
              ≡ false =
            was_repeated_from-false m.packet_cache m.repeat_cache 2 0 i parts.3 l t in
          let at_i : is_same_packet_sans_hop m.packet_cache entry ≡ false =
            ap (λ k. is_same_packet_sans_hop m.packet_cache (get_or m.repeat_cache k []))
              (omega arith)
            ∙ missed in
          let found : is_same_packet_sans_hop m.packet_cache entry ≡ true =
            (same_iff_equal_without_hop m.packet_cache entry v.packet packet).1 same in
          cc),
    )
