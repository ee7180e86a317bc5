-- ===== src/Repeater/Ring.antt =====
-- The repeat cache is a queue of at most two packets: `_A7105_Mesh_Append_Repeat` and
-- `_A7105_Mesh_Pop_Repeat` of libraries/a7105_mesh/a7105_mesh.cpp.
use atmega_a.Prelude.{
  ℕ, zero, suc, ◌+◌, ◌-◌, ◌%◌, ◌≤◌, ◌<◌, ◌≡◌, ◌≢◌, ◌∙◌, refl, sym, ap, arith, false, Bool-cases,
  inl, inr, none, some, List, [], ◌∷◌, ◌++◌, ◌==◌, if◌then◌else◌, length, get_or, set, byte_at,
  memcpy, All, All-get_or_in, All-set, array_ext, byte_at-memcpy_start, length-memcpy, length-set,
  get_or-set_self, get_or-set_ne,
}
use atmega_a.Packet.{IsPacket, packet_size}
use atmega_a.Mesh.{Mesh, max_repeat_cache_size}
use atmega_a.Mesh.Valid.{IsRing}
use atmega_a.Repeater.{append_repeat, pop_repeat}

-- The `n` packets of a ring of `cap` entries from index `i` on.
unfoldable pub ring_from : List (List ℕ) → ℕ → ℕ → ℕ → List (List ℕ)
ring_from cache cap i zero = []
ring_from cache cap i (suc n) = get_or cache (i % cap) [] ∷ ring_from cache cap (suc i) n

pub ring_from_same :
    (cache : List (List ℕ)) (cap i j n : ℕ)
    → ((k : ℕ) → (i + k) % cap ≡ (j + k) % cap)
    → ring_from cache cap i n ≡ ring_from cache cap j n
unfolding ring_from
ring_from_same cache cap i j zero h = refl
ring_from_same cache cap i j (suc n) h =
    let here : i % cap ≡ j % cap =
      ap (λ t. t % cap) (omega arith) ∙ h 0 ∙ ap (λ t. t % cap) (omega arith) in
    rw here (
      ap (λ rest. get_or cache (j % cap) [] ∷ rest)
        (ring_from_same cache cap (suc i) (suc j) n
          (λ k. ap (λ t. t % cap) (omega arith) ∙ h (suc k) ∙ ap (λ t. t % cap) (omega arith))))

pub ring_from-set :
    (cache : List (List ℕ)) (cap i n e : ℕ) (p : List ℕ)
    → ((k : ℕ) → k < n → (i + k) % cap ≢ e)
    → (i + n) % cap ≡ e
    → e < length cache
    → ring_from (set cache e p) cap i (suc n) ≡ ring_from cache cap i n ++ p ∷ []
unfolding ring_from
ring_from-set cache cap i zero e p other here inside =
    let at_end : i % cap ≡ e = ap (λ t. t % cap) (omega arith) ∙ here in
    rw (at_end, get_or-set_self cache e p [] inside) refl
ring_from-set cache cap i (suc n) e p other here inside =
    let first : e ≢ i % cap =
      (λ q. other 0 (omega arith) (ap (λ t. t % cap) (omega arith) ∙ sym q)) in
    rw (get_or-set_ne cache e (i % cap) p [] first) (
      ap (λ rest. get_or cache (i % cap) [] ∷ rest)
        (ring_from-set cache cap (suc i) n e p
          (λ k l q. other (suc k) (omega arith) (ap (λ t. t % cap) (omega arith) ∙ q))
          (ap (λ t. t % cap) (omega arith) ∙ here) inside))

pub memcpy_packet : (old p : List ℕ) → IsPacket old → IsPacket p → memcpy old 0 p 0 packet_size ≡ p
memcpy_packet old p o v =
    array_ext (memcpy old 0 p 0 packet_size) p 0
      (length-memcpy old 0 p 0 packet_size ∙ o.size ∙ sym v.size)
      (λ i l.
        byte_at-memcpy_start old p 0 packet_size i (omega (arith, o.size))
          (omega (arith, length-memcpy old 0 p 0 packet_size, o.size))
        ∙ ap (byte_at p) (omega arith))

-- The packets that wait to be repeated, the oldest first.
abbrev pub queued : Mesh → List (List ℕ)
queued m = ring_from m.repeat_cache max_repeat_cache_size m.repeat_cache_start m.repeat_cache_size

-- The part of a node's invariant that is about the repeat cache.
pub record IsQueue (m : Mesh) : Type 0 where
  pub size : length m.repeat_cache ≡ max_repeat_cache_size
  pub packets : All IsPacket m.repeat_cache
  pub ring :
      IsRing max_repeat_cache_size m.repeat_cache_start m.repeat_cache_end m.repeat_cache_size

-- Where the repeat cache is in order and the packet cache holds a packet, an append puts that packet
-- behind those that wait, or drops it if two wait already; the cache stays in order.
pub append_repeat_lem :
    (m : Mesh)
    → IsQueue m
    → IsPacket m.packet_cache
    → (queued (append_repeat m) ≡ (
        if m.repeat_cache_size == max_repeat_cache_size
        then queued m
        else queued m ++ m.packet_cache ∷ []))
      × IsQueue (append_repeat m)
unfolding append_repeat
append_repeat_lem m q v = elim (Bool-cases (m.repeat_cache_size == max_repeat_cache_size)) [
  | inl e ↦ rw e (refl, q)
  | inr e ↦
      let room : m.repeat_cache_size < 2 = ground (arith, q.ring.size_in) in
      let grown : (m.repeat_cache_size + 1) % 256 ≡ suc m.repeat_cache_size = omega arith in
      let inside : m.repeat_cache_end < length m.repeat_cache =
        omega (arith, q.size, q.ring.end_in) in
      let old = All-get_or_in IsPacket m.repeat_cache m.repeat_cache_end [] q.packets inside in
      rw
        (e, memcpy_packet (get_or m.repeat_cache m.repeat_cache_end []) m.packet_cache old v, grown)
        (
          ring_from-set m.repeat_cache 2 m.repeat_cache_start m.repeat_cache_size m.repeat_cache_end
              m.packet_cache (λ k l r. omega (arith, q.ring.end_is)) (omega (arith, q.ring.end_is))
              inside,
          record {
            size = length-set m.repeat_cache m.repeat_cache_end m.packet_cache ∙ q.size;
            packets = All-set IsPacket m.repeat_cache m.repeat_cache_end m.packet_cache q.packets v;
            ring = record {
              start_in = q.ring.start_in;
              end_in = omega arith;
              size_in = omega arith;
              end_is = omega (arith, q.ring.end_is);
            };
          },
        )
]

-- A ring of at least one entry, taken apart.
queued_first :
    (m : Mesh)
    → IsQueue m
    → (m.repeat_cache_size == 0) ≡ false
    → queued m
      ≡ get_or m.repeat_cache m.repeat_cache_start []
        ∷ ring_from m.repeat_cache 2 ((m.repeat_cache_start + 1) % 2) (m.repeat_cache_size - 1)
unfolding ring_from
queued_first m q e =
    let more : m.repeat_cache_size ≡ suc (m.repeat_cache_size - 1) = ground arith in
    let first : m.repeat_cache_start % 2 ≡ m.repeat_cache_start = omega (arith, q.ring.start_in) in
    ap (ring_from m.repeat_cache 2 m.repeat_cache_start) more
    ∙ ap
        (λ i.
          get_or m.repeat_cache i []
          ∷ ring_from m.repeat_cache 2 (suc m.repeat_cache_start) (m.repeat_cache_size - 1))
        first
    ∙ ap (λ rest. get_or m.repeat_cache m.repeat_cache_start [] ∷ rest)
        (ring_from_same m.repeat_cache 2 (suc m.repeat_cache_start) ((m.repeat_cache_start + 1) % 2)
          (m.repeat_cache_size - 1) (λ k. omega arith))

-- A pop takes the packet that waits longest and gives where it stands, which stays as it was; it
-- gives NULL, and leaves the node, only if none waits. The cache stays in order.
pub pop_repeat_lem :
    (m : Mesh)
    → IsQueue m
    → let (found, r) = pop_repeat m in
      (found ≡ none → (queued m ≡ []) × (r ≡ m))
      × ((i : ℕ) → found ≡ some i → queued m ≡ get_or r.repeat_cache i [] ∷ queued r)
      × IsQueue r
unfolding pop_repeat ring_from
pop_repeat_lem m q = elim (Bool-cases (m.repeat_cache_size == 0)) [
  | inl e ↦
      let none_left : m.repeat_cache_size ≡ 0 = ground arith in
      rw e (
        (λ _. (ap (ring_from m.repeat_cache 2 m.repeat_cache_start) none_left, refl)),
        (λ i f. cc),
        q,
      )
  | inr e ↦
      let some_left : 1 ≤ m.repeat_cache_size = ground arith in
      rw e (
        (λ f. cc),
        (λ i f.
            let same : m.repeat_cache_start ≡ i = ground arith in rw (← same) (queued_first m q e)),
        record {
          size = q.size;
          packets = q.packets;
          ring = record {
            start_in = omega arith;
            end_in = q.ring.end_in;
            size_in = omega (arith, q.ring.size_in);
            end_is = omega (arith, q.ring.end_is);
          };
        },
      )
]
