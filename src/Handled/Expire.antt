-- ===== src/Handled/Expire.antt =====
-- The expiry of entries of the cache: it keeps that of the packet at hand, and makes way for the
-- sequence numbers that come next.
use atmega_a.Prelude.{
  ℕ, zero, suc, ◌+◌, ◌%◌, ◌≤◌, ◌<◌, ◌≡◌, ◌≢◌, ◌∙◌, refl, ap, arith, ltb, leb, true, false, ◌&&◌,
  List, [], ◌==◌, if◌then◌else◌, length, get_or, set, byte_at, length-set, get_or-set_self,
  get_or-set_ne, Bool-cases, inl, inr,
}
use atmega_a.Packet.{at_type, at_unique_id, get_packet_seq}
use atmega_a.Packet.Nibbles.{get_packet_seq_lem, byte_at-IsByte}
use atmega_a.Mesh.{Mesh, handled_packet_cache_seq_expire}
use atmega_a.Mesh.Valid.{IsValid}
use atmega_a.Handled.{
  approaches_from, expire_entry, expire_from, update_handled_packet_cache, is_entry_of, is_new_from,
  filter_packet,
}

-- What the loop of the expiry does at each index.
expire_from_lem :
    (packet : List ℕ) (cache : List (List ℕ)) (n x k : ℕ)
    → x + n ≤ length cache
    → get_or (expire_from packet cache n x) k [] ≡ (
        if leb x k && ltb k (x + n)
        then expire_entry packet (get_or cache k [])
        else get_or cache k [])
unfolding expire_from
expire_from_lem packet cache zero x k h = ground arith
expire_from_lem packet cache (suc n) x k h =
    let e : List ℕ = expire_entry packet (get_or cache x []) in
    elim (Bool-cases (x == k)) [
      | inl q ↦
          let same : x ≡ k = ground arith in
          ground (
            arith,
            expire_from_lem packet (set cache x e) n (suc x) k
                (omega (arith, length-set cache x e)),
            get_or-set_self cache x e [] (omega arith),
          )
      | inr q ↦ ground (
        arith,
        expire_from_lem packet (set cache x e) n (suc x) k (omega (arith, length-set cache x e)),
        get_or-set_ne cache x k e [] (λ r. ground arith),
      )
    ]

pub length-expire_from :
    (packet : List ℕ) (cache : List (List ℕ)) (n x : ℕ)
    → length (expire_from packet cache n x) ≡ length cache
unfolding expire_from
length-expire_from packet cache zero x = refl
length-expire_from packet cache (suc n) x =
    length-expire_from packet (set cache x (expire_entry packet (get_or cache x []))) n (suc x)
    ∙ length-set cache x (expire_entry packet (get_or cache x []))

pub expire_from_at :
    (packet : List ℕ) (cache : List (List ℕ)) (k : ℕ)
    → length cache ≡ 8
    → k < 8
    → get_or (expire_from packet cache 8 0) k [] ≡ expire_entry packet (get_or cache k [])
expire_from_at packet cache k h l = ground (arith, expire_from_lem packet cache 8 0 k (omega arith))

expired_at :
    (m : Mesh) (k : ℕ)
    → IsValid m
    → k < 8
    → get_or (update_handled_packet_cache m).handled_packet_cache k []
      ≡ expire_entry m.packet_cache (get_or m.handled_packet_cache k [])
unfolding update_handled_packet_cache
expired_at m k v h = expire_from_at m.packet_cache m.handled_packet_cache k v.handled_size h

-- The sequence number of the packet itself is not one of the next three.
approaches_ne : (seq e : ℕ) → seq < 16 → approaches_from seq e 3 1 ≡ true → e ≢ seq
unfolding approaches_from
approaches_ne seq e h a q = ground arith

approaches_next :
    (seq e y : ℕ) → 1 ≤ y → y ≤ 3 → (seq + y) % 16 ≡ e → approaches_from seq e 3 1 ≡ true
unfolding approaches_from
approaches_next seq e y l h q = ground arith

entry_kept :
    (packet entry : List ℕ)
    → get_packet_seq packet < 16
    → byte_at packet at_type ≢ 0
    → is_entry_of packet (expire_entry packet entry) ≡ is_entry_of packet entry
unfolding expire_entry
entry_kept packet entry h t =
    ground (arith, approaches_ne (get_packet_seq packet) (byte_at entry 1) h)

entry_gone :
    (packet next entry : List ℕ) (y : ℕ)
    → byte_at next at_type ≢ 0
    → byte_at next 3 ≡ byte_at packet 3
    → byte_at next 4 ≡ byte_at packet 4
    → 1 ≤ y
    → y ≤ 3
    → get_packet_seq next ≡ (get_packet_seq packet + y) % 16
    → is_entry_of next (expire_entry packet entry) ≡ false
unfolding expire_entry
entry_gone packet next entry y t a b l h q =
    ground (arith, approaches_next (get_packet_seq packet) (byte_at entry 1) y l h)

-- The loop of the filter depends on what it tests alone.
is_new_from_same :
    (packet : List ℕ) (a b : List (List ℕ)) (n x : ℕ)
    → ((k : ℕ)
        → k < x + n
        → is_entry_of packet (get_or a k []) ≡ is_entry_of packet (get_or b k []))
    → is_new_from packet a n x ≡ is_new_from packet b n x
unfolding is_new_from
is_new_from_same packet a b zero x h = refl
is_new_from_same packet a b (suc n) x h =
    ground (arith, h x, is_new_from_same packet a b n (suc x) (λ k l. h k (omega arith)))

is_new_from_none :
    (packet : List ℕ) (a : List (List ℕ)) (n x : ℕ)
    → ((k : ℕ) → k < x + n → is_entry_of packet (get_or a k []) ≡ false)
    → is_new_from packet a n x ≡ true
unfolding is_new_from
is_new_from_none packet a zero x h = refl
is_new_from_none packet a (suc n) x h =
    ground (arith, h x, is_new_from_none packet a n (suc x) (λ k l. h k (omega arith)))

-- The expiry never lets a repeat through: in a valid node, whose packet has a type other than 0,
-- the filter of requests gives the same before and after it for that packet.
pub filter-update_handled_packet_cache :
    (m : Mesh) (packet_type : ℕ)
    → IsValid m
    → byte_at m.packet_cache at_type ≢ 0
    → filter_packet (update_handled_packet_cache m) packet_type true
      ≡ filter_packet m packet_type true
unfolding filter_packet update_handled_packet_cache
filter-update_handled_packet_cache m packet_type v t = ground (arith, same)
  where
    same :
        is_new_from m.packet_cache (expire_from m.packet_cache m.handled_packet_cache 8 0) 8 0
        ≡ is_new_from m.packet_cache m.handled_packet_cache 8 0
    same =
        is_new_from_same m.packet_cache (expire_from m.packet_cache m.handled_packet_cache 8 0)
          m.handled_packet_cache 8 0
          (λ k l.
            ap (is_entry_of m.packet_cache) (expired_at m k v (omega arith))
            ∙ entry_kept m.packet_cache (get_or m.handled_packet_cache k [])
                (omega (arith, get_packet_seq_lem v.packet, byte_at-IsByte 1 v.packet)) t)

-- The expiry makes way for what comes next: once a valid node has seen a packet, a request of the
-- same sender with one of the next three sequence numbers, counted round at 16, passes the filter,
-- whatever the cache held.
pub next_request_passes :
    (m : Mesh) (next : List ℕ) (y : ℕ)
    → IsValid m
    → byte_at next at_type ≢ 0
    → byte_at next at_unique_id ≡ byte_at m.packet_cache at_unique_id
    → byte_at next (at_unique_id + 1) ≡ byte_at m.packet_cache (at_unique_id + 1)
    → 1 ≤ y
    → y ≤ handled_packet_cache_seq_expire
    → get_packet_seq next ≡ (get_packet_seq m.packet_cache + y) % 16
    → filter_packet
        (record (update_handled_packet_cache m) { packet_cache = next })
        (byte_at next at_type)
        true
      ≡ true
unfolding filter_packet update_handled_packet_cache
next_request_passes m next y v t a b l h q = ground (arith, new)
  where
    new : is_new_from next (expire_from m.packet_cache m.handled_packet_cache 8 0) 8 0 ≡ true
    new = is_new_from_none next (expire_from m.packet_cache m.handled_packet_cache 8 0) 8 0 (λ k n.
        ap (is_entry_of next) (expired_at m k v (omega arith))
        ∙ entry_gone m.packet_cache next (get_or m.handled_packet_cache k []) y t a b l h q)
