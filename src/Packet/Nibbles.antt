-- ===== src/Packet/Nibbles.antt =====
-- The two nibbles of the HOP/SEQ byte: each setter writes its own and keeps the other.
use atmega_a.Prelude.{
  ℕ, ◌+◌, ◌*◌, ◌/◌, ◌%◌, ◌<◌, ◌≡◌, ◌∙◌, ap, arith, List, set, byte_at, length-set, get_or-set_self,
  get_or-set_ne, All-set, All-get_or, low_nibble, high_nibble, shifted_nibble, or_nibbles,
  or_nibbles_rev, ◌≢◌, sym,
}
use atmega_a.Packet.{
  IsByte, IsPacket, at_hop_seq, get_packet_seq, set_packet_seq, get_packet_hop, set_packet_hop,
}

pub byte_at-IsByte : {p : List ℕ} (i : ℕ) → IsPacket p → byte_at p i < 256
byte_at-IsByte {p} i v = All-get_or IsByte p i 0 v.bytes (omega arith)

pub set-IsPacket : {p : List ℕ} (i b : ℕ) → IsPacket p → b < 256 → IsPacket (set p i b)
set-IsPacket {p} i b v h = record {
  size = length-set p i b ∙ v.size;
  bytes = All-set IsByte p i b v.bytes h;
}

module _ {p : List ℕ} (v : IsPacket p) where
  -- The fields as arithmetic.
  pub get_packet_seq_lem : get_packet_seq p ≡ byte_at p at_hop_seq / 16
  unfolding get_packet_seq
  get_packet_seq_lem =
      omega (arith, high_nibble (byte_at p at_hop_seq) (byte_at-IsByte at_hop_seq v))

  pub get_packet_hop_lem : get_packet_hop p ≡ byte_at p at_hop_seq % 16
  unfolding get_packet_hop
  get_packet_hop_lem = low_nibble (byte_at p at_hop_seq) (byte_at-IsByte at_hop_seq v)

  pub set_packet_seq_lem :
      (s : ℕ)
      → s < 256
      → set_packet_seq p s ≡ set p at_hop_seq (s % 16 * 16 + byte_at p at_hop_seq % 16)
  unfolding set_packet_seq
  set_packet_seq_lem s h = ap (set p at_hop_seq) (
      rw (
        low_nibble (byte_at p at_hop_seq) (byte_at-IsByte at_hop_seq v),
        shifted_nibble s h,
        or_nibbles (byte_at p at_hop_seq % 16) (s % 16) (omega arith) (omega arith),
      ))

  pub set_packet_hop_lem :
      (h : ℕ)
      → h < 256
      → set_packet_hop p h ≡ set p at_hop_seq (byte_at p at_hop_seq / 16 * 16 + h % 16)
  unfolding set_packet_hop
  set_packet_hop_lem h l = ap (set p at_hop_seq) (
      rw (
        high_nibble (byte_at p at_hop_seq) (byte_at-IsByte at_hop_seq v),
        low_nibble h l,
        or_nibbles_rev (h % 16) (byte_at p at_hop_seq / 16) (omega arith)
            (omega (arith, byte_at-IsByte at_hop_seq v)),
      ))

-- On a packet and for a byte `s`, setting the sequence number stores its low four bits, keeps
-- the hop count and every other byte, and gives a packet.
pub set_packet_seq_fields :
    (p : List ℕ) (s : ℕ)
    → IsPacket p
    → s < 256
    → (get_packet_seq (set_packet_seq p s) ≡ s % 16)
      × (get_packet_hop (set_packet_seq p s) ≡ get_packet_hop p)
      × ((i : ℕ) → i ≢ at_hop_seq → byte_at (set_packet_seq p s) i ≡ byte_at p i)
      × IsPacket (set_packet_seq p s)
set_packet_seq_fields p s v h = rw (set_packet_seq_lem v s h) (
  omega (arith, get_packet_seq_lem after, stored),
  omega (arith, get_packet_hop_lem after, get_packet_hop_lem v, stored),
  (λ i ne. get_or-set_ne p at_hop_seq i b 0 (λ e. ne (sym e))),
  after,
)
  where
    b : ℕ
    b = s % 16 * 16 + byte_at p at_hop_seq % 16

    after : IsPacket (set p at_hop_seq b)
    after = set-IsPacket at_hop_seq b v (omega arith)

    stored : byte_at (set p at_hop_seq b) at_hop_seq ≡ b
    stored = get_or-set_self p at_hop_seq b 0 (omega (arith, v.size))

-- On a packet and for a byte `h`, setting the hop count stores its low four bits, keeps the
-- sequence number and every other byte, and gives a packet.
pub set_packet_hop_fields :
    (p : List ℕ) (h : ℕ)
    → IsPacket p
    → h < 256
    → (get_packet_hop (set_packet_hop p h) ≡ h % 16)
      × (get_packet_seq (set_packet_hop p h) ≡ get_packet_seq p)
      × ((i : ℕ) → i ≢ at_hop_seq → byte_at (set_packet_hop p h) i ≡ byte_at p i)
      × IsPacket (set_packet_hop p h)
set_packet_hop_fields p h v l = rw (set_packet_hop_lem v h l) (
  omega (arith, get_packet_hop_lem after, stored),
  omega
      (arith, get_packet_seq_lem after, get_packet_seq_lem v, stored, byte_at-IsByte at_hop_seq v),
  (λ i ne. get_or-set_ne p at_hop_seq i b 0 (λ e. ne (sym e))),
  after,
)
  where
    b : ℕ
    b = byte_at p at_hop_seq / 16 * 16 + h % 16

    after : IsPacket (set p at_hop_seq b)
    after = set-IsPacket at_hop_seq b v (omega (arith, byte_at-IsByte at_hop_seq v))

    stored : byte_at (set p at_hop_seq b) at_hop_seq ≡ b
    stored = get_or-set_self p at_hop_seq b 0 (omega (arith, v.size))
