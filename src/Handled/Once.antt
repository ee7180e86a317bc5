-- ===== src/Handled/Once.antt =====
-- A handled request is not handled again while its entry stands in the cache.
use atmega_a.Prelude.{
  ℕ, zero, suc, ◌+◌, ◌%◌, ◌≤◌, ◌<◌, ◌≡◌, ◌≢◌, ◌∙◌, refl, ap, arith, true, false, List, [], ◌∷◌,
  length, byte_at, get_or, get_or-set_self, get_or-set_ne, length-set, All-get_or_in, Bool-cases,
  inl, inr,
}
use atmega_a.Packet.{at_unique_id, get_packet_seq, set_packet_hop}
use atmega_a.Packet.Nibbles.{set_packet_hop_fields, get_packet_seq_lem, byte_at-IsByte}
use atmega_a.Mesh.{Mesh, handled_packet_cache_seq_expire}
use atmega_a.Mesh.Valid.{IsValid, IsEntry}
use atmega_a.Handled.{
  handled_entry, handling_request, is_entry_of, is_new_from, filter_packet, same_sender,
  approaches_from, expire_entry, update_handled_packet_cache,
}
use atmega_a.Handled.Expire.{expire_from_at, length-expire_from}

-- Where the packet's entry stands, the loop of the filter finds it.
is_new_from_found :
    (packet : List ℕ) (cache : List (List ℕ)) (n x i : ℕ)
    → i < n
    → is_entry_of packet (get_or cache (x + i) []) ≡ true
    → is_new_from packet cache n x ≡ false
unfolding is_new_from
is_new_from_found packet cache zero x i l e = absurd (omega arith)
is_new_from_found packet cache (suc n) x zero l e =
    let here : is_entry_of packet (get_or cache x []) ≡ true =
      ap (λ k. is_entry_of packet (get_or cache k [])) (omega arith) ∙ e in
    rw here
is_new_from_found packet cache (suc n) x (suc i) l e =
    let later : is_entry_of packet (get_or cache (suc x + i) []) ≡ true =
      ap (λ k. is_entry_of packet (get_or cache k [])) (omega arith) ∙ e in
    let rest : is_new_from packet cache n (suc x) ≡ false =
      is_new_from_found packet cache n (suc x) i (omega arith) later in
    ground arith

-- The entry written for a packet is the packet's, if there were four bytes to write over.
is_entry_of-handled_entry :
    (packet old : List ℕ) → length old ≡ 4 → is_entry_of packet (handled_entry packet old) ≡ true
unfolding handled_entry
is_entry_of-handled_entry packet (a ∷ b ∷ c ∷ d ∷ []) h = ground arith
is_entry_of-handled_entry packet [] h = absurd (omega arith)
is_entry_of-handled_entry packet (a ∷ []) h = absurd (omega arith)
is_entry_of-handled_entry packet (a ∷ b ∷ []) h = absurd (omega arith)
is_entry_of-handled_entry packet (a ∷ b ∷ c ∷ []) h = absurd (omega arith)
is_entry_of-handled_entry packet (a ∷ b ∷ c ∷ d ∷ e ∷ r) h = absurd (omega arith)

-- What comes to a node on the mesh: a packet that is no request to it, or that it has handled before,
-- and a request that it handles.
pub data Arrival : Type 0 where
  passing handled : List ℕ → Arrival

abbrev pub packet_of : Arrival → List ℕ
packet_of (passing p) = p
packet_of (handled p) = p

-- What either does to the cache: the expiry comes first, and a request is entered then.
pub arrive : Arrival → Mesh → Mesh
arrive (passing p) m = update_handled_packet_cache (record m { packet_cache = p })
arrive (handled p) m =
    handling_request (update_handled_packet_cache (record m { packet_cache = p }))

-- The packets of the list, one after another.
pub handle_each : List Arrival → Mesh → Mesh
handle_each [] m = m
handle_each (a ∷ arrivals) m = handle_each arrivals (arrive a m)

abbrev pub num_handled : List Arrival → ℕ
num_handled [] = 0
num_handled (passing p ∷ arrivals) = num_handled arrivals
num_handled (handled p ∷ arrivals) = suc (num_handled arrivals)

-- The packet that comes does not make way for the other one: it is of another sender, or its sequence
-- number is not one, two or three before that of the other, counted round at 16.
abbrev pub Spares : List ℕ → List ℕ → Type 0
Spares packet p =
    byte_at p at_unique_id ≡ byte_at packet at_unique_id
    → byte_at p (at_unique_id + 1) ≡ byte_at packet (at_unique_id + 1)
    → (y : ℕ) → 1 ≤ y
    → y ≤ handled_packet_cache_seq_expire
    → (get_packet_seq p + y) % 16 ≢ get_packet_seq packet

abbrev pub AllSpare : List ℕ → List Arrival → Type 0
AllSpare packet [] = Unit {0}
AllSpare packet (a ∷ arrivals) = Spares packet (packet_of a) × AllSpare packet arrivals

approaches_spared :
    (seq entry_seq : ℕ)
    → ((y : ℕ) → 1 ≤ y → y ≤ 3 → (seq + y) % 16 ≢ entry_seq)
    → approaches_from seq entry_seq 3 1 ≡ false
unfolding approaches_from
approaches_spared seq entry_seq h = ground (
  arith,
  h 1 (omega arith) (omega arith),
  h 2 (omega arith) (omega arith),
  h 3 (omega arith) (omega arith),
)

entry_spared :
    (packet p entry : List ℕ)
    → is_entry_of packet entry ≡ true
    → Spares packet p
    → expire_entry p entry ≡ entry
unfolding expire_entry
entry_spared packet p entry e h = elim (Bool-cases (same_sender p entry)) [
  | inl s ↦
      let far : approaches_from (get_packet_seq p) (byte_at entry 1) 3 1 ≡ false =
        approaches_spared (get_packet_seq p) (byte_at entry 1)
          (λ y l k q. h (ground arith) (ground arith) y l k (ground arith)) in
      rw (s, far) refl
  | inr s ↦ rw s refl
]

-- An entry stays through the expiry that a packet brings, if that spares it.
expiry_keeps :
    (m : Mesh) (packet p : List ℕ) (j : ℕ)
    → length m.handled_packet_cache ≡ 8
    → j < 8
    → is_entry_of packet (get_or m.handled_packet_cache j []) ≡ true
    → Spares packet p
    → is_entry_of packet (get_or (arrive (passing p) m).handled_packet_cache j []) ≡ true
unfolding arrive update_handled_packet_cache
expiry_keeps m packet p j size l e h =
    ap (is_entry_of packet) (
      expire_from_at p m.handled_packet_cache j size l
      ∙ entry_spared packet p (get_or m.handled_packet_cache j []) e h)
    ∙ e

-- The writes for the requests handled later miss an entry that they do not come round to.
handle_each_keeps :
    (arrivals : List Arrival) (m : Mesh) (packet : List ℕ) (j : ℕ)
    → length m.handled_packet_cache ≡ 8
    → m.last_handled_packet_index < 8
    → j < 8
    → ((i : ℕ) → i < num_handled arrivals → (m.last_handled_packet_index + i) % 8 ≢ j)
    → AllSpare packet arrivals
    → is_entry_of packet (get_or m.handled_packet_cache j []) ≡ true
    → (length (handle_each arrivals m).handled_packet_cache ≡ 8)
      × (is_entry_of packet (get_or (handle_each arrivals m).handled_packet_cache j []) ≡ true)
unfolding handle_each arrive handling_request update_handled_packet_cache
handle_each_keeps [] m packet j size l k h spare e = (size, e)
handle_each_keeps (passing p ∷ arrivals) m packet j size l k h spare e =
    handle_each_keeps arrivals (arrive (passing p) m) packet j
      (length-expire_from p m.handled_packet_cache 8 0 ∙ size) l k h spare.1
      (expiry_keeps m packet p j size k e spare.0)
handle_each_keeps (handled p ∷ arrivals) m packet j size l k h spare e =
    let expired : Mesh = arrive (passing p) m in
    let at_last = m.last_handled_packet_index in
    let entry = handled_entry p (get_or expired.handled_packet_cache at_last []) in
    handle_each_keeps arrivals (arrive (handled p) m) packet j
      (length-set expired.handled_packet_cache at_last entry
        ∙ length-expire_from p m.handled_packet_cache 8 0
        ∙ size)
      (omega arith) k (λ i n q. h (suc i) (omega arith) (omega arith)) spare.1
      (ap (is_entry_of packet) (
          get_or-set_ne expired.handled_packet_cache at_last j entry []
            (λ q. h 0 (omega arith) (omega arith)))
        ∙ expiry_keeps m packet p j size k e spare.0)

-- Once a valid node has handled the request in its packet cache, it refuses each repeat of that packet as
-- a request, whatever the hop count of the repeat, also after other packets have come in of which it
-- has handled seven at most. Each packet, the repeat included, first expires entries of its sender.
-- The other packets must not make way for the request: each is of another sender, or its sequence
-- number is not one, two or three before that of the request.
pub handled_once :
    (m : Mesh) (later : List Arrival) (hops packet_type : ℕ)
    → IsValid m
    → num_handled later ≤ 7
    → AllSpare m.packet_cache later
    → hops < 256
    → filter_packet
        (update_handled_packet_cache (record (handle_each later (handling_request m)) {
          packet_cache = set_packet_hop m.packet_cache hops;
        }))
        packet_type
        true
      ≡ false
unfolding filter_packet handling_request arrive update_handled_packet_cache
handled_once m later hops packet_type v h spare l = ground (arith, found)
  where
    j : ℕ
    j = m.last_handled_packet_index

    again : List ℕ
    again = set_packet_hop m.packet_cache hops

    there : length (get_or m.handled_packet_cache j []) ≡ 4
    there =
        (All-get_or_in IsEntry m.handled_packet_cache j [] v.handled_entries (omega (arith, v))).0

    entered :
        is_entry_of m.packet_cache (get_or (handling_request m).handled_packet_cache j []) ≡ true
    entered =
        ap (is_entry_of m.packet_cache) (
          get_or-set_self m.handled_packet_cache j
            (handled_entry m.packet_cache (get_or m.handled_packet_cache j [])) []
            (omega (arith, v)))
        ∙ is_entry_of-handled_entry m.packet_cache (get_or m.handled_packet_cache j []) there

    found :
        is_new_from again
          (arrive (passing again) (handle_each later (handling_request m))).handled_packet_cache
          8
          0
        ≡ false
    found =
        let stays =
          handle_each_keeps later (handling_request m) m.packet_cache j
            (length-set m.handled_packet_cache j _ ∙ v.handled_size) (omega arith) v.handled_index
            (λ i n e. omega (arith, v.handled_index)) spare entered in
        let fields = set_packet_hop_fields m.packet_cache hops v.packet l in
        let kept =
          expiry_keeps (handle_each later (handling_request m)) m.packet_cache again j stays.0
            v.handled_index stays.1
            (λ a b y k n e.
              omega (arith, fields.1, get_packet_seq_lem v.packet, byte_at-IsByte 1 v.packet)) in
        is_new_from_found again _ 8 0 j v.handled_index (
          ground (
            arith,
            kept,
            fields.1,
            fields.2 0 (omega arith),
            fields.2 3 (omega arith),
            fields.2 4 (omega arith),
          ))
