-- ===== src/Repeater/Echo.antt =====
-- A packet in line for a repeat is not put in line again: `_A7105_Mesh_Cache_Packet_For_Repeat` of
-- libraries/a7105_mesh/a7105_mesh.cpp.
use atmega_a.Prelude.{
  ℕ, zero, suc, ◌+◌, ◌<◌, ◌≡◌, ◌≢◌, ◌∙◌, sym, ap, arith, true, false, List, [], ◌==◌, length,
  get_or, byte_at, memcpy, All-get_or_in, get_or-set_self,
}
use atmega_a.Packet.{
  IsPacket, packet_size, at_type, pkt_join, set_packet_hop, is_same_packet_sans_hop,
}
use atmega_a.Packet.Nibbles.{set_packet_hop_fields}
use atmega_a.Packet.Same.{same-set_packet_hop}
use atmega_a.Mesh.{Mesh, max_repeat_cache_size}
use atmega_a.Mesh.Valid.{IsValid}
use atmega_a.Repeater.{was_repeated_from, is_repeatable, append_repeat, cache_packet_for_repeat}
use atmega_a.Repeater.Ring.{memcpy_packet}

was_repeated_from-found :
    (packet : List ℕ) (cache : List (List ℕ)) (n x i : ℕ)
    → i < n
    → byte_at packet at_type ≢ pkt_join
    → is_same_packet_sans_hop packet (get_or cache (x + i) []) ≡ true
    → was_repeated_from packet cache n x ≡ true
unfolding was_repeated_from
was_repeated_from-found packet cache zero x i l t h = absurd (omega arith)
was_repeated_from-found packet cache (suc n) x zero l t h =
    let here : is_same_packet_sans_hop packet (get_or cache x []) ≡ true =
      ap (λ k. is_same_packet_sans_hop packet (get_or cache k [])) (omega arith) ∙ h in
    ground arith
was_repeated_from-found packet cache (suc n) x (suc i) l t h =
    let later : is_same_packet_sans_hop packet (get_or cache (suc x + i) []) ≡ true =
      ap (λ k. is_same_packet_sans_hop packet (get_or cache k [])) (omega arith) ∙ h in
    let rest : was_repeated_from packet cache n (suc x) ≡ true =
      was_repeated_from-found packet cache n (suc x) i (omega arith) t later in
    ground arith

refused_if_repeated :
    (m : Mesh)
    → was_repeated_from m.packet_cache m.repeat_cache max_repeat_cache_size 0 ≡ true
    → is_repeatable m ≡ false
unfolding is_repeatable
refused_if_repeated m h = ground arith

-- The entry that an append writes, where there is room.
appended :
    (m : Mesh)
    → IsValid m
    → m.repeat_cache_size < max_repeat_cache_size
    → get_or (append_repeat m).repeat_cache m.repeat_cache_end [] ≡ m.packet_cache
unfolding append_repeat
appended m v room =
    let e : (m.repeat_cache_size == max_repeat_cache_size) ≡ false = ground arith in
    let inside : m.repeat_cache_end < length m.repeat_cache =
      omega (arith, v.repeat_size, v.repeat_ring.end_in) in
    let old = All-get_or_in IsPacket m.repeat_cache m.repeat_cache_end [] v.repeat_packets inside in
    rw e (
      get_or-set_self m.repeat_cache m.repeat_cache_end
        (memcpy (get_or m.repeat_cache m.repeat_cache_end []) 0 m.packet_cache 0 packet_size) []
        inside
      ∙ memcpy_packet (get_or m.repeat_cache m.repeat_cache_end []) m.packet_cache old v.packet)

-- Right after a valid node with room in its repeat cache has put a packet other than a JOIN in line, it does not
-- put that packet in line when it comes again, whatever its hop count then.
pub cached_packet_not_repeatable :
    (m : Mesh) (hop : ℕ)
    → IsValid m
    → m.repeat_cache_size < max_repeat_cache_size
    → is_repeatable m ≡ true
    → byte_at m.packet_cache at_type ≢ pkt_join
    → hop < 256
    → is_repeatable
        (record (cache_packet_for_repeat m) { packet_cache = set_packet_hop m.packet_cache hop })
      ≡ false
unfolding cache_packet_for_repeat
cached_packet_not_repeatable m hop v room passed t small =
    let f = set_packet_hop_fields m.packet_cache hop v.packet small in
    let other : byte_at (set_packet_hop m.packet_cache hop) at_type ≢ pkt_join =
      (λ e. t (sym (f.2 at_type (λ q. omega arith)) ∙ e)) in
    let there : get_or (append_repeat m).repeat_cache (0 + m.repeat_cache_end) [] ≡ m.packet_cache =
      ap (λ k. get_or (append_repeat m).repeat_cache k []) (omega arith) ∙ appended m v room in
    rw passed (
      refused_if_repeated
        (record (append_repeat m) { packet_cache = set_packet_hop m.packet_cache hop })
        (was_repeated_from-found (set_packet_hop m.packet_cache hop) (append_repeat m).repeat_cache
          2 0 m.repeat_cache_end v.repeat_ring.end_in other
          (rw there (same-set_packet_hop m.packet_cache hop v.packet small))))
