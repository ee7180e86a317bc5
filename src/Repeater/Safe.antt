-- ===== src/Repeater/Safe.antt =====
-- The three repeaters keep the invariant of the node: `_A7105_Mesh_Update_Repeats`,
-- `_A7105_Mesh_Update_Response_Repeats` and `_A7105_Mesh_Update_Request_Repeats` of
-- libraries/a7105_mesh/a7105_mesh.cpp.
use atmega_a.Prelude.{
  ℕ, zero, suc, ◌+◌, ◌-◌, ◌%◌, ◌≤◌, ◌<◌, ◌≡◌, ◌∙◌, refl, arith, Bool, true, false, not, ◌&&◌,
  Bool-cases, inl, inr, Option, none, some, List, [], ltb, leb, ◌==◌, if◌then◌else◌, get_or, set,
  byte_at, length-set, All-set, All-get_or_in,
}
use atmega_a.World.{Io}
use atmega_a.Packet.{IsByte, IsPacket, get_packet_hop, set_packet_hop, at_hop_seq}
use atmega_a.Packet.Nibbles.{byte_at-IsByte, get_packet_hop_lem, set_packet_hop_fields}
use atmega_a.Mesh.{
  Mesh, not_joined, idle, is_off_mesh, same_state, now, is_past, renew_random_delay,
  max_repeat_cache_size, response_cache_size, response_max_repeat, request_max_repeat,
}
use atmega_a.Mesh.Valid.{IsEntry}
use atmega_a.Mesh.Safe.{IsSafe, IsSafe-same}
use atmega_a.Mesh.Changed.{IsSafe-repeats, IsSafe-responses}
use atmega_a.Send.{transmit, await_transmission, listen, pop_response_repeat, entry_rep_count}
use atmega_a.Repeater.Prepared.{response_repeat_cache_packet_prep-IsSafe}
use atmega_a.Repeater.{
  pop_repeat, repeat_at, repeat_popped, update_repeats, update_request_repeats,
  update_response_repeats, repeat_response, fewest_from, response_repeat_cache_packet_prep,
}

-- The packet repeated is one when its hop count has gone up.
hopped-IsPacket : {p : List ℕ} → IsPacket p → IsPacket (set_packet_hop p (get_packet_hop p + 1))
hopped-IsPacket {p} v =
    (set_packet_hop_fields p (get_packet_hop p + 1) v
      (omega (arith, get_packet_hop_lem v, byte_at-IsByte at_hop_seq v))).3

pop_repeat-IsSafe :
    {m : Mesh}
    → IsSafe m
    → IsSafe (pop_repeat m).1 × ((i : ℕ) → (pop_repeat m).0 ≡ some i → i < max_repeat_cache_size)
unfolding pop_repeat
pop_repeat-IsSafe {m} v = elim (Bool-cases (m.repeat_cache_size == 0)) [
  | inl e ↦ rw e (v, λ i found. cc)
  | inr e ↦
      let more : 1 ≤ m.repeat_cache_size = ground arith in
      rw e (
        IsSafe-repeats v v.valid.repeat_size v.valid.repeat_packets (record {
          start_in = omega arith;
          end_in = v.valid.repeat_ring.end_in;
          size_in = omega (arith, v.valid.repeat_ring.size_in);
          end_is = omega (arith, v.valid.repeat_ring.end_is);
        }),
        λ i found.
            let same : m.repeat_cache_start ≡ i = cc in omega (arith, v.valid.repeat_ring.start_in),
      )
]

module _ ⦃io : Io⦄ where
  is_past-IsSafe : {m : Mesh} (since delay : ℕ) → IsSafe m → IsSafe (is_past since delay m).1
  unfolding is_past
  is_past-IsSafe since delay v = IsSafe-same _ v refl

  renewed-IsSafe : {m : Mesh} → IsSafe m → IsSafe (renew_random_delay m)
  unfolding renew_random_delay
  renewed-IsSafe v = IsSafe-same _ v refl

  repeat_at-IsSafe :
      {m : Mesh} (i : ℕ) → IsSafe m → i < max_repeat_cache_size → IsSafe (repeat_at i m)
  unfolding repeat_at transmit await_transmission listen
  repeat_at-IsSafe {m} i v l =
      let hopped = hopped-IsPacket (
        All-get_or_in IsPacket m.repeat_cache i [] v.valid.repeat_packets
          (omega (arith, v.valid.repeat_size))) in
      IsSafe-same _
        (IsSafe-repeats v (length-set m.repeat_cache i _ ∙ v.valid.repeat_size)
          (All-set IsPacket m.repeat_cache i _ v.valid.repeat_packets hopped) v.valid.repeat_ring)
        refl

  repeat_popped-IsSafe :
      (found : Option ℕ) {m : Mesh}
      → IsSafe m
      → ((i : ℕ) → found ≡ some i → i < max_repeat_cache_size)
      → IsSafe (repeat_popped (found, m))
  unfolding repeat_popped
  repeat_popped-IsSafe none v l = v
  repeat_popped-IsSafe (some i) v l = repeat_at-IsSafe i v (l i refl)

  update_repeats-IsSafe : {m : Mesh} → IsSafe m → IsSafe (update_repeats m)
  unfolding update_repeats
  update_repeats-IsSafe {m} v =
      let looked = is_past-IsSafe m.last_repeat_sent_time m.random_delay v in
      elim (Bool-cases (not (is_off_mesh m.state) && ltb 0 m.repeat_cache_size)) [
        | inl e ↦ elim (Bool-cases (is_past m.last_repeat_sent_time m.random_delay m).0) [
          | inl due ↦
              let (popped, inside) = pop_repeat-IsSafe (renewed-IsSafe looked) in
              rw (e, due) (repeat_popped-IsSafe _ popped inside)
          | inr early ↦ rw (e, early) looked
        ]
        | inr e ↦ rw e v
      ]

  update_request_repeats-IsSafe : {m : Mesh} → IsSafe m → IsSafe (update_request_repeats m)
  unfolding update_request_repeats transmit await_transmission listen
  update_request_repeats-IsSafe {m} v =
      let looked = is_past-IsSafe m.last_request_repeat_sent_time m.random_delay v in
      elim (Bool-cases (
        not (is_off_mesh m.state)
        && not (same_state m.state idle)
        && ltb m.request_repeat_count request_max_repeat)) [
          | inl e ↦ elim (Bool-cases (is_past m.last_request_repeat_sent_time m.random_delay m).0) [
            | inl due ↦ rw (e, due) (IsSafe-same _ (renewed-IsSafe looked) refl)
            | inr early ↦ rw (e, early) looked
          ]
          | inr e ↦ rw e v
        ]

-- The entry with the fewest repeats is one of the cache.
fewest_from_bound :
    (cache : List (List ℕ)) (start n x best : ℕ)
    → best < response_cache_size
    → fewest_from cache start n x best < response_cache_size
unfolding fewest_from
fewest_from_bound cache start zero x best l = l
fewest_from_bound cache start (suc n) x best l =
    fewest_from_bound cache start n (suc x) _ (ground arith)

pop_response_repeat-IsSafe : {m : Mesh} → IsSafe m → IsSafe (pop_response_repeat m)
unfolding pop_response_repeat
pop_response_repeat-IsSafe {m} v = elim (Bool-cases (m.response_repeat_cache_size == 0)) [
  | inl e ↦ rw e v
  | inr e ↦
      let more : 1 ≤ m.response_repeat_cache_size = ground arith in
      rw e (
        IsSafe-responses v v.valid.response_size v.valid.response_entries
          (record {
            start_in = omega arith;
            end_in = v.valid.response_ring.end_in;
            size_in = omega (arith, v.valid.response_ring.size_in);
            end_is = omega (arith, v.valid.response_ring.end_is);
          })
          (omega (arith, v.few)))
]

-- An entry whose count of repeats goes up.
counted-IsEntry :
    (entry : List ℕ)
    → IsEntry entry
    → IsEntry (set entry entry_rep_count ((byte_at entry entry_rep_count + 1) % 256))
counted-IsEntry entry (size, bytes) = (
  length-set entry entry_rep_count _ ∙ size,
  All-set IsByte entry entry_rep_count _ bytes (omega arith),
)

module _ ⦃io : Io⦄ where
  -- The node after it has sent the packet of an entry and counted that.
  counted_sent : ℕ → Mesh → Mesh
  counted_sent i m =
      let (t, timed) = now (response_repeat_cache_packet_prep i m) in
      let entry = get_or timed.response_repeat_cache i [] in
      let counted = record timed {
        last_response_repeat_sent_time = t;
        response_repeat_cache =
            set timed.response_repeat_cache i
              (set entry entry_rep_count ((byte_at entry entry_rep_count + 1) % 256));
      } in
      await_transmission (transmit counted.packet_cache counted)

  counted_sent-IsSafe :
      {m : Mesh} (i : ℕ) → IsSafe m → i < response_cache_size → IsSafe (counted_sent i m)
  unfolding counted_sent transmit await_transmission
  counted_sent-IsSafe {m} i v l =
      let p = response_repeat_cache_packet_prep-IsSafe v i l in
      let cache = (response_repeat_cache_packet_prep i m).response_repeat_cache in
      let entry =
        All-get_or_in IsEntry cache i [] p.valid.response_entries
          (omega (arith, p.valid.response_size)) in
      IsSafe-same _
        (IsSafe-responses p (length-set cache i _ ∙ p.valid.response_size)
          (All-set IsEntry cache i _ p.valid.response_entries
            (counted-IsEntry (get_or cache i []) entry))
          p.valid.response_ring p.few)
        refl

  popped-IsSafe :
      (full : Bool) {m : Mesh}
      → IsSafe m
      → IsSafe (listen (if full then pop_response_repeat m else m))
  unfolding listen
  popped-IsSafe true v = IsSafe-same _ (pop_response_repeat-IsSafe v) refl
  popped-IsSafe false v = IsSafe-same _ v refl

  repeat_response-IsSafe :
      {m : Mesh} (i : ℕ) → IsSafe m → i < response_cache_size → IsSafe (repeat_response i m)
  unfolding repeat_response counted_sent
  repeat_response-IsSafe {m} i v l =
      let sent = counted_sent i m in
      popped-IsSafe
        (leb response_max_repeat (
          byte_at (get_or sent.response_repeat_cache sent.response_repeat_cache_start [])
            entry_rep_count))
        (counted_sent-IsSafe i v l)

  update_response_repeats-IsSafe : {m : Mesh} → IsSafe m → IsSafe (update_response_repeats m)
  unfolding update_response_repeats
  update_response_repeats-IsSafe {m} v =
      let looked = is_past-IsSafe m.last_response_repeat_sent_time m.random_delay v in
      let renewed = renewed-IsSafe looked in
      elim (Bool-cases
        (not (same_state m.state not_joined) && ltb 0 m.response_repeat_cache_size)) [
          | inl e ↦
              elim (Bool-cases (is_past m.last_response_repeat_sent_time m.random_delay m).0) [
                | inl due ↦
                    let r =
                      renew_random_delay
                        (is_past m.last_response_repeat_sent_time m.random_delay m).1 in
                    rw (e, due)
                      (repeat_response-IsSafe
                        (fewest_from r.response_repeat_cache r.response_repeat_cache_start
                          (r.response_repeat_cache_size - 1) 1 r.response_repeat_cache_start)
                        renewed
                        (fewest_from_bound r.response_repeat_cache r.response_repeat_cache_start
                          (r.response_repeat_cache_size - 1) 1 r.response_repeat_cache_start
                          renewed.valid.response_ring.start_in))
                | inr early ↦ rw (e, early) looked
              ]
          | inr e ↦ rw e v
        ]

  -- The three repeaters, with which `A7105_Mesh_Update` ends, keep a valid node valid.
  pub repeaters-IsSafe :
      (m : Mesh)
      → IsSafe m
      → IsSafe (update_request_repeats (update_response_repeats (update_repeats m)))
  repeaters-IsSafe m v =
      update_request_repeats-IsSafe (update_response_repeats-IsSafe (update_repeats-IsSafe v))
