-- ===== src/Handled/Safe.antt =====
-- The cache of handled requests keeps the invariant of the node: libraries/a7105_mesh/a7105_mesh.cpp.
use atmega_a.Prelude.{
  ℕ, zero, suc, ◌+◌, ◌≤◌, ◌≡◌, ◌∙◌, refl, arith, Bool, true, false, List, [], length, get_or, set,
  replicate, if◌then◌else◌, length-set, All, All-set, All-get_or_in,
}
use atmega_a.Packet.{at_type, at_unique_id, at_hop_seq, IsPacket, get_packet_seq}
use atmega_a.Packet.Nibbles.{byte_at-IsByte, get_packet_seq_lem}
use atmega_a.Mesh.{Mesh, handled_packet_cache_length}
use atmega_a.Mesh.Valid.{IsEntry}
use atmega_a.Mesh.Safe.{IsSafe}
use atmega_a.Mesh.Changed.{IsSafe-handled}
use atmega_a.Send.Safe.{set-IsEntry}
use atmega_a.Setup.Fresh.{zero-IsEntry}
use atmega_a.Handled.{
  handled_op, handled_seq, handled_unique_id, handled_entry, handling_request, expire_entry,
  expire_from, update_handled_packet_cache,
}

handled_entry-IsEntry :
    {packet : List ℕ} (old : List ℕ)
    → IsPacket packet
    → IsEntry old
    → IsEntry (handled_entry packet old)
unfolding handled_entry
handled_entry-IsEntry {packet} old p v =
    set-IsEntry _ (handled_unique_id + 1) _
      (set-IsEntry _ handled_unique_id _
        (set-IsEntry _ handled_seq (get_packet_seq packet)
          (set-IsEntry _ handled_op _ v (byte_at-IsByte at_type p))
          (omega (arith, get_packet_seq_lem p, byte_at-IsByte at_hop_seq p)))
        (byte_at-IsByte at_unique_id p))
      (byte_at-IsByte (at_unique_id + 1) p)

pub handling_request-IsSafe : {m : Mesh} → IsSafe m → IsSafe (handling_request m)
unfolding handling_request
handling_request-IsSafe {m} s =
    let old = get_or m.handled_packet_cache m.last_handled_packet_index [] in
    let there =
      All-get_or_in IsEntry m.handled_packet_cache m.last_handled_packet_index []
        s.valid.handled_entries (omega (arith, s.valid.handled_size, s.valid.handled_index)) in
    IsSafe-handled s
      (length-set m.handled_packet_cache m.last_handled_packet_index _ ∙ s.valid.handled_size)
      (All-set IsEntry m.handled_packet_cache m.last_handled_packet_index
        (handled_entry m.packet_cache old) s.valid.handled_entries
        (handled_entry-IsEntry old s.valid.packet there))
      (omega arith)

kept_or_zero :
    (expired : Bool) (entry : List ℕ)
    → IsEntry entry
    → IsEntry (if expired then replicate 4 0 else entry)
kept_or_zero true entry v = zero-IsEntry
kept_or_zero false entry v = v

expire_entry-IsEntry : (packet entry : List ℕ) → IsEntry entry → IsEntry (expire_entry packet entry)
unfolding expire_entry
expire_entry-IsEntry packet entry v = kept_or_zero _ entry v

expire_from-All :
    (packet : List ℕ) (cache : List (List ℕ)) (n x : ℕ)
    → x + n ≤ length cache
    → All IsEntry cache
    → (length (expire_from packet cache n x) ≡ length cache)
      × All IsEntry (expire_from packet cache n x)
unfolding expire_from
expire_from-All packet cache zero x l v = (refl, v)
expire_from-All packet cache (suc n) x l v =
    let entry = get_or cache x [] in
    let expired = expire_entry packet entry in
    let valid =
      expire_entry-IsEntry packet entry (All-get_or_in IsEntry cache x [] v (omega arith)) in
    let (size, all) =
      expire_from-All packet (set cache x expired) n (suc x)
        (omega (arith, length-set cache x expired)) (All-set IsEntry cache x expired v valid) in
    (size ∙ length-set cache x expired, all)

pub update_handled_packet_cache-IsSafe :
    {m : Mesh} → IsSafe m → IsSafe (update_handled_packet_cache m)
unfolding update_handled_packet_cache
update_handled_packet_cache-IsSafe {m} s =
    let (size, all) =
      expire_from-All m.packet_cache m.handled_packet_cache handled_packet_cache_length 0
        (omega (arith, s.valid.handled_size)) s.valid.handled_entries in
    IsSafe-handled s (size ∙ s.valid.handled_size) all s.valid.handled_index
