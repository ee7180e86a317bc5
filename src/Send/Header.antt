-- ===== src/Send/Header.antt =====
-- What `_A7105_Mesh_Prep_Packet_Header` writes, read back by the packet functions.
use atmega_a.Prelude.{
  ℕ, suc, ◌-◌, ◌*◌, ◌/◌, ◌%◌, ◌^◌, ◌<◌, ◌≡◌, ◌∙◌, refl, ap, arith, ◌||◌, List, ◌==◌, if◌then◌else◌,
  set, replicate, byte_at, length-replicate, get_or-replicate, All-replicate, Bool-cases, inl, inr,
  bit_and, bit_or, shifted_nibble, or_nibbles,
}
use atmega_a.Packet.{
  IsByte, IsPacket, packet_size, at_type, at_node_id, at_target_id, pkt_get_num_registers,
  pkt_get_register_name, get_packet_seq, set_packet_seq, get_packet_hop, set_packet_hop,
  get_pkt_unique_id,
}
use atmega_a.Packet.Nibbles.{set-IsPacket, get_packet_seq_lem, get_packet_hop_lem}
use atmega_a.Send.{packet_header}

pub zero-IsPacket : IsPacket (replicate packet_size 0)
zero-IsPacket = record {
  size = length-replicate {A = ℕ} packet_size 0;
  bytes = All-replicate IsByte packet_size 0 (omega arith);
}

-- The HOP/SEQ byte of a new packet.
seq_byte : (s : ℕ) → s < 16 → bit_or 0 (bit_and (s * 2 ^ 4) 0xF0) ≡ s * 16
seq_byte s h =
    ap (bit_or 0) (shifted_nibble s (omega arith) ∙ omega arith)
    ∙ or_nibbles 0 s (omega arith) h
    ∙ omega arith

-- A packet with six bytes set and zeros behind them.
abbrev header : ℕ → ℕ → ℕ → ℕ → ℕ → ℕ → List ℕ
header t hop_seq n hi lo target =
    set (set (set (set (set (set (replicate packet_size 0) 0 t) 1 hop_seq) 2 n) 3 hi) 4 lo) 5 target

header-IsPacket :
    (t s n hi lo target : ℕ)
    → t < 256
    → s < 256
    → n < 256
    → hi < 256
    → lo < 256
    → target < 256
    → IsPacket (header t s n hi lo target)
header-IsPacket t s n hi lo target ht hs hn hh hl hg =
    set-IsPacket 5 target
      (set-IsPacket 4 lo
        (set-IsPacket 3 hi
          (set-IsPacket 2 n (set-IsPacket 1 s (set-IsPacket 0 t zero-IsPacket ht) hs) hn) hh)
        hl)
      hg

zeros_from_six :
    (t s n hi lo target j : ℕ)
    → byte_at (header t s n hi lo target) (suc (suc (suc (suc (suc (suc j)))))) ≡ 0
zeros_from_six t s n hi lo target j = get_or-replicate 58 j 0

zeros_behind : (t s n hi lo target i : ℕ) → 5 < i → byte_at (header t s n hi lo target) i ≡ 0
zeros_behind t s n hi lo target i h =
    let e : i ≡ suc (suc (suc (suc (suc (suc (i - 6)))))) = omega arith in
    ap (byte_at (header t s n hi lo target)) e ∙ zeros_from_six t s n hi lo target (i - 6)

-- The byte at TARGET_ID.
abbrev target_byte : ℕ → ℕ → ℕ
target_byte t target =
    if t == pkt_get_num_registers || t == pkt_get_register_name then target else 0

pub packet_header_lem :
    (t s n u target : ℕ)
    → s < 16
    → packet_header t s n u target
      ≡ header t (s * 16) n (u / 2 ^ 8 % 256) (u % 256) (target_byte t target)
unfolding packet_header set_packet_seq set_packet_hop
packet_header_lem t s n u target h =
    elim (Bool-cases (t == pkt_get_num_registers || t == pkt_get_register_name)) [
      | inl e ↦ rw (e, seq_byte s h)
      | inr e ↦ rw (e, seq_byte s h)
    ]

-- The header of a new packet, for a type, a node id and a target id of a byte each, a sequence
-- number below 16 and a unique id of 16 bits: each field is read back as it was given, the hop count
-- is 0, the target stands only in the two directed requests, and all other bytes are 0.
pub packet_header_fields :
    (t s n u target : ℕ)
    → t < 256
    → s < 16
    → n < 256
    → u < 2 ^ 16
    → target < 256
    → let p = packet_header t s n u target in
      IsPacket p
      × (byte_at p at_type ≡ t)
      × (get_packet_seq p ≡ s)
      × (get_packet_hop p ≡ 0)
      × (byte_at p at_node_id ≡ n)
      × (get_pkt_unique_id p ≡ u)
      × (byte_at p at_target_id
          ≡ (if t == pkt_get_num_registers || t == pkt_get_register_name then target else 0))
      × ((i : ℕ) → at_target_id < i → byte_at p i ≡ 0)
unfolding get_pkt_unique_id
packet_header_fields t s n u target ht hs hn hu hg = rw (packet_header_lem t s n u target hs) (
  v,
  refl,
  omega (arith, get_packet_seq_lem v),
  omega (arith, get_packet_hop_lem v),
  refl,
  omega arith,
  refl,
  λ i l. zeros_behind t (s * 16) n (u / 2 ^ 8 % 256) (u % 256) (target_byte t target) i l,
)
  where
    small : target_byte t target < 256
    small = ground arith

    v : IsPacket (header t (s * 16) n (u / 2 ^ 8 % 256) (u % 256) (target_byte t target))
    v =
        header-IsPacket t (s * 16) n (u / 2 ^ 8 % 256) (u % 256) (target_byte t target) ht
          (omega arith) hn (omega arith) (omega arith) small
