-- ===== src/Packet/Same.antt =====
-- What `_A7105_Mesh_Util_Is_Same_Packet_Sans_Hop` decides.
use atmega_a.Prelude.{
  ℕ, zero, suc, ◌+◌, ◌<◌, ◌≡◌, ◌≢◌, ◌↔◌, ◌∙◌, ap, refl, sym, arith, true, List, byte_at, ◌==◌,
  ==_iff, array_ext, Bool-cases, inl, inr,
}
use atmega_a.Packet.{
  IsPacket, packet_size, at_hop_seq, get_packet_seq, set_packet_hop, same_from,
  is_same_packet_sans_hop,
}
use atmega_a.Packet.Nibbles.{set_packet_hop_fields, get_packet_seq_lem, get_packet_hop_lem}

same_from_sound :
    (a b : List ℕ) (n x i : ℕ)
    → same_from a b n x ≡ true
    → i < n
    → x + i ≢ at_hop_seq
    → byte_at a (x + i) ≡ byte_at b (x + i)
unfolding same_from
same_from_sound a b zero x i h l ne = absurd (omega arith)
same_from_sound a b (suc n) x zero h l ne =
    let here : byte_at a x ≡ byte_at b x = ground arith in
    ap (byte_at a) (omega arith) ∙ here ∙ ap (byte_at b) (omega arith)
same_from_sound a b (suc n) x (suc i) h l ne =
    ap (byte_at a) (omega arith)
    ∙ same_from_sound a b n (suc x) i (ground arith) (omega arith) (λ e. ne (omega arith))
    ∙ ap (byte_at b) (omega arith)

same_from_start :
    (a b : List ℕ) (n i : ℕ)
    → same_from a b n 0 ≡ true
    → i < n
    → i ≢ at_hop_seq
    → byte_at a i ≡ byte_at b i
same_from_start a b n i h l ne =
    ap (byte_at a) (omega arith)
    ∙ same_from_sound a b n 0 i h l (λ e. ne (omega arith))
    ∙ ap (byte_at b) (omega arith)

same_from_complete :
    (a b : List ℕ) (n x : ℕ)
    → ((i : ℕ) → i ≢ at_hop_seq → byte_at a i ≡ byte_at b i)
    → same_from a b n x ≡ true
unfolding same_from
same_from_complete a b zero x h = refl
same_from_complete a b (suc n) x h = elim (Bool-cases (x == at_hop_seq)) [
  | inl e ↦ ground (arith, same_from_complete a b n (suc x) h)
  | inr ne ↦ ground (arith, h x (λ e. ground arith), same_from_complete a b n (suc x) h)
]

same_parts :
    (a b : List ℕ)
    → is_same_packet_sans_hop a b ≡ true
    → (get_packet_seq a ≡ get_packet_seq b) × (same_from a b packet_size 0 ≡ true)
unfolding is_same_packet_sans_hop
same_parts a b h = ground arith

same_joined :
    (a b : List ℕ)
    → get_packet_seq a ≡ get_packet_seq b
    → same_from a b packet_size 0 ≡ true
    → is_same_packet_sans_hop a b ≡ true
unfolding is_same_packet_sans_hop
same_joined a b e h = ground arith

-- Two packets are the same apart from the hop count, as the code tests it, exactly when they
-- become equal once the hop count of both is set to 0.
pub same_iff_equal_without_hop :
    (a b : List ℕ)
    → IsPacket a
    → IsPacket b
    → (is_same_packet_sans_hop a b ≡ true) ↔ (set_packet_hop a 0 ≡ set_packet_hop b 0)
same_iff_equal_without_hop a b va vb = (forward, backward)
  where
    packet_a : IsPacket (set_packet_hop a 0)
    packet_a = (set_packet_hop_fields a 0 va (omega arith)).3

    packet_b : IsPacket (set_packet_hop b 0)
    packet_b = (set_packet_hop_fields b 0 vb (omega arith)).3

    -- The byte that holds the hop count, after it is cleared.
    cleared :
        get_packet_seq a ≡ get_packet_seq b
        → byte_at (set_packet_hop a 0) at_hop_seq ≡ byte_at (set_packet_hop b 0) at_hop_seq
    cleared e = omega (
      arith,
      get_packet_seq_lem packet_a,
      get_packet_hop_lem packet_a,
      get_packet_seq_lem packet_b,
      get_packet_hop_lem packet_b,
      (set_packet_hop_fields a 0 va (omega arith)).0,
      (set_packet_hop_fields a 0 va (omega arith)).1,
      (set_packet_hop_fields b 0 vb (omega arith)).0,
      (set_packet_hop_fields b 0 vb (omega arith)).1,
    )

    at_index :
        (i : ℕ)
        → (get_packet_seq a ≡ get_packet_seq b) × (same_from a b packet_size 0 ≡ true)
        → i < packet_size
        → byte_at (set_packet_hop a 0) i ≡ byte_at (set_packet_hop b 0) i
    at_index i h l = elim (Bool-cases (i == at_hop_seq)) [
      | inl e ↦ rw ((==_iff i at_hop_seq).0 e) (cleared h.0)
      | inr e ↦
          let ne : i ≢ at_hop_seq = (λ q. ground arith) in
          (set_packet_hop_fields a 0 va (omega arith)).2 i ne
          ∙ same_from_start a b packet_size i h.1 l ne
          ∙ sym ((set_packet_hop_fields b 0 vb (omega arith)).2 i ne)
    ]

    forward : is_same_packet_sans_hop a b ≡ true → set_packet_hop a 0 ≡ set_packet_hop b 0
    forward h =
        array_ext (set_packet_hop a 0) (set_packet_hop b 0) 0 (omega (arith, packet_a, packet_b))
          (λ i l. at_index i (same_parts a b h) (omega (arith, packet_a)))

    backward : set_packet_hop a 0 ≡ set_packet_hop b 0 → is_same_packet_sans_hop a b ≡ true
    backward e =
        same_joined a b
          (sym ((set_packet_hop_fields a 0 va (omega arith)).1)
            ∙ ap get_packet_seq e
            ∙ (set_packet_hop_fields b 0 vb (omega arith)).1)
          (same_from_complete a b packet_size 0 (λ i ne.
            sym ((set_packet_hop_fields a 0 va (omega arith)).2 i ne)
            ∙ ap (λ p. byte_at p i) e
            ∙ (set_packet_hop_fields b 0 vb (omega arith)).2 i ne))

-- A packet is the same as itself with another hop count.
pub same-set_packet_hop :
    (p : List ℕ) (h : ℕ)
    → IsPacket p
    → h < 256
    → is_same_packet_sans_hop (set_packet_hop p h) p ≡ true
same-set_packet_hop p h v l =
    let f = set_packet_hop_fields p h v l in
    same_joined (set_packet_hop p h) p f.1
      (same_from_complete (set_packet_hop p h) p packet_size 0 f.2)
