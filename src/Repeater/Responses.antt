-- ===== src/Repeater/Responses.antt =====
-- The cache of responses to repeat, and which of them is repeated next:
-- `_A7105_Mesh_Append_Response_Repeat`, `_A7105_Mesh_Pop_Response_Repeat` and the loop of
-- `_A7105_Mesh_Update_Response_Repeats` of libraries/a7105_mesh/a7105_mesh.cpp.
use atmega_a.Prelude.{
  ℕ, zero, suc, ◌+◌, ◌-◌, ◌%◌, ◌≤◌, ◌<◌, ◌≡◌, ◌∙◌, refl, ap, arith, Bool-cases, inl, inr, List, [],
  ◌∷◌, ◌++◌, ◌==◌, ltb, if◌then◌else◌, length, get_or, byte_at, length-set,
}
use atmega_a.Mesh.{Mesh, max_repeat_cache_size, response_cache_size}
use atmega_a.Mesh.Valid.{IsRing}
use atmega_a.Send.{entry_rep_count, response_entry, append_response_repeat, pop_response_repeat}
use atmega_a.Repeater.{fewest_from}
use atmega_a.Repeater.Ring.{ring_from, ring_from_same, ring_from-set}

-- The entries of the cache, the oldest first.
abbrev pub responses : Mesh → List (List ℕ)
responses m =
    ring_from m.response_repeat_cache response_cache_size m.response_repeat_cache_start
      m.response_repeat_cache_size

-- The part of a node's invariant that is about the cache of responses.
pub record IsResponseQueue (m : Mesh) : Type 0 where
  pub size : length m.response_repeat_cache ≡ response_cache_size
  pub ring :
      IsRing response_cache_size m.response_repeat_cache_start m.response_repeat_cache_end
        m.response_repeat_cache_size

-- With the cache of responses in order and at most two in it, an append puts the entry of the packet at
-- hand behind those that are there, or drops it if two are there already, although the cache has
-- room for four; so there are never more than two, and the cache stays in order.
pub append_response_repeat_lem :
    (m : Mesh)
    → IsResponseQueue m
    → m.response_repeat_cache_size ≤ max_repeat_cache_size
    → let r = append_response_repeat m in
      (responses r ≡ (
        if m.response_repeat_cache_size == max_repeat_cache_size
        then responses m
        else responses m
          ++ response_entry m (get_or m.response_repeat_cache m.response_repeat_cache_end []) ∷ []))
      × (r.response_repeat_cache_size ≤ max_repeat_cache_size)
      × IsResponseQueue r
unfolding append_response_repeat
append_response_repeat_lem m q few =
    elim (Bool-cases (m.response_repeat_cache_size == max_repeat_cache_size)) [
      | inl e ↦ rw e (refl, few, q)
      | inr e ↦
          let entry : List ℕ =
            response_entry m (get_or m.response_repeat_cache m.response_repeat_cache_end []) in
          let room : m.response_repeat_cache_size < 2 = ground arith in
          let grown : (m.response_repeat_cache_size + 1) % 256 ≡ suc m.response_repeat_cache_size =
            omega arith in
          let inside : m.response_repeat_cache_end < length m.response_repeat_cache =
            omega (arith, q.size, q.ring.end_in) in
          rw (e, grown)
            (
              ring_from-set m.response_repeat_cache 4 m.response_repeat_cache_start
                  m.response_repeat_cache_size m.response_repeat_cache_end entry
                  (λ k l r. omega (arith, q.ring.end_is)) (omega (arith, q.ring.end_is)) inside,
              omega arith,
              record {
                size =
                    length-set m.response_repeat_cache m.response_repeat_cache_end entry ∙ q.size;
                ring = record {
                  start_in = q.ring.start_in;
                  end_in = omega arith;
                  size_in = omega arith;
                  end_is = omega (arith, q.ring.end_is);
                };
              },
            )
    ]

-- With the cache of responses in order, a pop takes the oldest entry out of it, or leaves the node if there
-- is none, and the cache stays in order.
pub pop_response_repeat_lem :
    (m : Mesh)
    → IsResponseQueue m
    → let r = pop_response_repeat m in
      (m.response_repeat_cache_size ≡ 0 → (responses m ≡ []) × (r ≡ m))
      × (1 ≤ m.response_repeat_cache_size
          → responses m
            ≡ get_or m.response_repeat_cache m.response_repeat_cache_start [] ∷ responses r)
      × IsResponseQueue r
unfolding pop_response_repeat ring_from
pop_response_repeat_lem m q = elim (Bool-cases (m.response_repeat_cache_size == 0)) [
  | inl e ↦
      let empty : m.response_repeat_cache_size ≡ 0 = ground arith in
      rw e (
        (λ _. (ap (ring_from m.response_repeat_cache 4 m.response_repeat_cache_start) empty, refl)),
        (λ l. absurd (omega arith)),
        q,
      )
  | inr e ↦
      let more : m.response_repeat_cache_size ≡ suc (m.response_repeat_cache_size - 1) =
        ground arith in
      let first : m.response_repeat_cache_start % 4 ≡ m.response_repeat_cache_start =
        omega (arith, q.ring.start_in) in
      rw e (
        (λ z. absurd (omega arith)),
        (λ _.
            ap (ring_from m.response_repeat_cache 4 m.response_repeat_cache_start) more
            ∙ ap
                (λ i.
                  get_or m.response_repeat_cache i []
                  ∷ ring_from m.response_repeat_cache 4 (suc m.response_repeat_cache_start)
                      (m.response_repeat_cache_size - 1))
                first
            ∙ ap (λ rest. get_or m.response_repeat_cache m.response_repeat_cache_start [] ∷ rest)
                (ring_from_same m.response_repeat_cache 4 (suc m.response_repeat_cache_start)
                  ((m.response_repeat_cache_start + 1) % 4) (m.response_repeat_cache_size - 1)
                  (λ k. omega arith))),
        record {
          size = q.size;
          ring = record {
            start_in = omega arith;
            end_in = q.ring.end_in;
            size_in = omega (arith, q.ring.size_in);
            end_is = omega (arith, q.ring.end_is);
          };
        },
      )
]

-- How often an entry was repeated.
abbrev pub repeats_of : List (List ℕ) → ℕ → ℕ
repeats_of cache i = byte_at (get_or cache i []) entry_rep_count

-- The entry kept by one round is repeated no more often than the two it is picked of.
picked :
    (cache : List (List ℕ)) (index best : ℕ)
    → let next = if ltb (repeats_of cache index) (repeats_of cache best) then index else best in
      (repeats_of cache next ≤ repeats_of cache best)
      × (repeats_of cache next ≤ repeats_of cache index)
picked cache index best = elim (Bool-cases (ltb (repeats_of cache index) (repeats_of cache best))) [
  | inl e ↦ rw e (ground arith, omega arith)
  | inr e ↦ rw e (omega arith, ground arith)
]

fewest_from_best :
    (cache : List (List ℕ)) (start n x best : ℕ)
    → repeats_of cache (fewest_from cache start n x best) ≤ repeats_of cache best
unfolding fewest_from
fewest_from_best cache start zero x best = omega arith
fewest_from_best cache start (suc n) x best = omega (
  arith,
  picked cache ((start + x) % response_cache_size) best,
  fewest_from_best cache start n (suc x) (
      if ltb (repeats_of cache ((start + x) % response_cache_size)) (repeats_of cache best)
      then (start + x) % response_cache_size
      else best),
)

fewest_from_each :
    (cache : List (List ℕ)) (start n x best k : ℕ)
    → x ≤ k
    → k < x + n
    → repeats_of cache (fewest_from cache start n x best)
      ≤ repeats_of cache ((start + k) % response_cache_size)
unfolding fewest_from
fewest_from_each cache start zero x best k h l = absurd (omega arith)
fewest_from_each cache start (suc n) x best k h l =
    let next : ℕ =
      if ltb (repeats_of cache ((start + x) % response_cache_size)) (repeats_of cache best)
      then (start + x) % response_cache_size
      else best in
    elim (Bool-cases (x == k)) [
      | inl e ↦
          let same : x ≡ k = ground arith in
          rw (← same) (
            omega (
              arith,
              picked cache ((start + x) % response_cache_size) best,
              fewest_from_best cache start n (suc x) next,
            ))
      | inr e ↦ fewest_from_each cache start n (suc x) next k (ground arith) (omega arith)
    ]

-- The loop that picks the response to repeat next, run as `_A7105_Mesh_Update_Response_Repeats` runs it on a
-- cache of `size` entries from `start` on, gives an entry of those that has been repeated no more often
-- than any of them.
pub fewest_from_least :
    (cache : List (List ℕ)) (start size k : ℕ)
    → start < response_cache_size
    → k < size
    → repeats_of cache (fewest_from cache start (size - 1) 1 start)
      ≤ repeats_of cache ((start + k) % response_cache_size)
fewest_from_least cache start size k h l = elim (Bool-cases (k == 0)) [
  | inl e ↦
      let first : (start + k) % response_cache_size ≡ start = ground arith in
      rw first (fewest_from_best cache start (size - 1) 1 start)
  | inr e ↦ fewest_from_each cache start (size - 1) 1 start k (ground arith) (omega arith)
]
