-- ===== src/Repeater/Prepared.antt =====
-- The packet that is made of an entry of the cache of responses is one:
-- `_A7105_Mesh_Response_Repeat_Cache_Packet_Prep` of libraries/a7105_mesh/a7105_mesh.cpp.
use atmega_a.Prelude.{
  ℕ, zero, suc, ◌<◌, refl, arith, Bool, true, false, Bool-cases, inl, inr, List, [], ◌∷◌, ◌==◌,
  get_or, byte_at, All, All-get_or_in, All-get_or,
}
use atmega_a.Packet.{
  IsByte, IsPacket, set_packet_seq, at_type, at_data_start, at_target_id, pkt_num_registers,
  pkt_register_name, pkt_register_value, pkt_set_register_ack,
}
use atmega_a.Packet.Nibbles.{set-IsPacket, set_packet_seq_fields}
use atmega_a.Register.{IsRegister, Register}
use atmega_a.Codec.{no_register, register_to_packet, set_register_index}
use atmega_a.Codec.Send.{register_to_packet_bounds}
use atmega_a.Mesh.{Mesh, response_cache_size}
use atmega_a.Mesh.Valid.{IsEntry}
use atmega_a.Mesh.Safe.{IsSafe, IsSafe-packet, IsSafe-same}
use atmega_a.Send.{prep_packet_header, entry_op, entry_seq, entry_data}
use atmega_a.Send.Header.{packet_header_fields}
use atmega_a.Repeater.{fill_response, response_repeat_cache_packet_prep}

-- A register put in a packet, or none where the index lies outside of the registers.
pub register_to_packet-IsPacket :
    {packet : List ℕ} (registers : List Register) (i : ℕ) (include_value : Bool)
    → IsPacket packet
    → All IsRegister registers
    → IsPacket (register_to_packet packet (get_or registers i no_register) include_value).1
unfolding register_to_packet
register_to_packet-IsPacket [] i true p h = p
register_to_packet-IsPacket [] i false p h = p
register_to_packet-IsPacket {packet} (reg ∷ registers) zero include_value p h =
    (register_to_packet_bounds packet reg include_value p h.0).4
register_to_packet-IsPacket (reg ∷ registers) (suc i) include_value p h =
    register_to_packet-IsPacket registers i include_value p h.1

pub set_register_index-IsPacket :
    {packet : List ℕ} (i : ℕ) → IsPacket packet → i < 256 → IsPacket (set_register_index packet i).1
unfolding set_register_index
set_register_index-IsPacket {packet} i p l =
    elim (Bool-cases (byte_at packet at_type == pkt_register_name)) [
      | inl e ↦ rw e (set-IsPacket _ i p l)
      | inr e ↦ rw e p
    ]

module _ {m : Mesh} (v : IsSafe m) where
  fill_response-IsPacket :
      {packet : List ℕ} (op item : ℕ)
      → item < 256
      → IsPacket packet
      → IsPacket (fill_response m op item packet)
  unfolding fill_response
  fill_response-IsPacket op item l p = elim (Bool-cases (op == pkt_num_registers)) [
    | inl a ↦ rw a (set-IsPacket at_data_start m.num_registers p v.valid.num_registers_byte)
    | inr a ↦ elim (Bool-cases (op == pkt_register_name)) [
      | inl b ↦
          rw (a, b)
            (set_register_index-IsPacket item
              (register_to_packet-IsPacket m.registers item false p v.valid.registers_valid) l)
      | inr b ↦ elim (Bool-cases (op == pkt_register_value)) [
        | inl c ↦
            rw (a, b, c)
              (register_to_packet-IsPacket m.registers item true p v.valid.registers_valid)
        | inr c ↦ elim (Bool-cases (op == pkt_set_register_ack)) [
          | inl d ↦ rw (a, b, c, d) (set-IsPacket at_target_id item p l)
          | inr d ↦ rw (a, b, c, d) p
        ]
      ]
    ]
  ]

  pub response_repeat_cache_packet_prep-IsSafe :
      (i : ℕ) → i < response_cache_size → IsSafe (response_repeat_cache_packet_prep i m)
  unfolding response_repeat_cache_packet_prep prep_packet_header
  response_repeat_cache_packet_prep-IsSafe i l =
      let entry = get_or m.response_repeat_cache i [] in
      let entry_valid =
        All-get_or_in IsEntry m.response_repeat_cache i [] v.valid.response_entries
          (omega (arith, v.valid.response_size)) in
      let of_entry : (k : ℕ) → IsByte (byte_at entry k) =
        λ k. All-get_or IsByte entry k 0 entry_valid.1 (omega arith) in
      let headed =
        packet_header_fields (byte_at entry entry_op) m.sequence_num m.node_id m.unique_id
          m.target_node_id (of_entry entry_op) v.valid.seq_nibble v.valid.node_byte
          v.valid.unique_word v.valid.target_byte in
      IsSafe-same _
        (IsSafe-packet v
          {p = fill_response m (byte_at entry entry_op) (byte_at entry entry_data) (
            set_packet_seq (prep_packet_header m (byte_at entry entry_op)).packet_cache
              (byte_at entry entry_seq))}
          (fill_response-IsPacket (byte_at entry entry_op) (byte_at entry entry_data)
            (of_entry entry_data)
            (set_packet_seq_fields _ (byte_at entry entry_seq) headed.0 (of_entry entry_seq)).3))
        refl
