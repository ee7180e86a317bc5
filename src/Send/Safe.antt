-- ===== src/Send/Safe.antt =====
-- Sending keeps the invariant of the node: `_A7105_Mesh_Send_Response` and
-- `_A7105_Mesh_Send_Request` of libraries/a7105_mesh/a7105_mesh.cpp.
use atmega_a.Prelude.{
  ℕ, ◌<◌, ◌∙◌, refl, arith, ◌||◌, Bool-cases, inl, inr, Option, none, some, List, [], ◌==◌, get_or,
  set, byte_at, length-set, length-memcpy, All-set, All-memcpy, All-get_or_in,
}
use atmega_a.World.{Io}
use atmega_a.Packet.{
  IsByte, packet_size, at_type, at_hop_seq, at_target_id, pkt_join, pkt_register_name,
  pkt_register_value, pkt_set_register_ack, get_packet_seq,
}
use atmega_a.Packet.Nibbles.{byte_at-IsByte, get_packet_seq_lem}
use atmega_a.Codec.{filter_register_name}
use atmega_a.Mesh.{Mesh, max_repeat_cache_size}
use atmega_a.Mesh.Valid.{IsEntry}
use atmega_a.Mesh.Safe.{IsSafe, IsSafe-same, IsSafe-packet}
use atmega_a.Mesh.Changed.{IsSafe-responses}
use atmega_a.Mesh.Started.{IsSafe-request}
use atmega_a.Send.{
  entry_op, entry_rep_count, entry_seq, entry_data, prep_packet_header, index_byte, response_entry,
  append_response_repeat, is_response_type, transmit, await_transmission, listen, send_response,
  send_request,
}
use atmega_a.Send.Header.{packet_header_fields}

pub prep_packet_header-IsSafe :
    {m : Mesh} (packet_type : ℕ)
    → IsSafe m
    → packet_type < 256
    → IsSafe (prep_packet_header m packet_type)
unfolding prep_packet_header
prep_packet_header-IsSafe {m} packet_type s l =
    IsSafe-packet s
      (packet_header_fields packet_type m.sequence_num m.node_id m.unique_id m.target_node_id l
        s.valid.seq_nibble s.valid.node_byte s.valid.unique_word s.valid.target_byte).0

-- An entry with one byte changed.
pub set-IsEntry : (e : List ℕ) (i b : ℕ) → IsEntry e → b < 256 → IsEntry (set e i b)
set-IsEntry e i b (size, bytes) l = (length-set e i b ∙ size, All-set IsByte e i b bytes l)

index_byte-IsByte : (i : Option ℕ) → index_byte i < 256
index_byte-IsByte none = omega arith
index_byte-IsByte (some i) = omega arith

response_entry-IsEntry :
    {m : Mesh} (old : List ℕ) → IsSafe m → IsEntry old → IsEntry (response_entry m old)
unfolding response_entry
response_entry-IsEntry {m} old s v =
    let seq : get_packet_seq m.packet_cache < 256 =
      omega (arith, get_packet_seq_lem s.valid.packet, byte_at-IsByte at_hop_seq s.valid.packet) in
    let op = byte_at m.packet_cache at_type in
    let e =
      set-IsEntry _ entry_seq _
        (set-IsEntry _ entry_rep_count 0
          (set-IsEntry _ entry_op op v (byte_at-IsByte at_type s.valid.packet)) (omega arith))
        seq in
    elim (Bool-cases (op == pkt_register_name || op == pkt_register_value)) [
      | inl a ↦ rw a (
          set-IsEntry _ entry_seq _
            (set-IsEntry _ entry_data _ e
              (index_byte-IsByte (filter_register_name m.packet_cache m.registers m.num_registers)))
            seq)
      | inr a ↦ elim (Bool-cases (op == pkt_set_register_ack)) [
        | inl b ↦
            rw (a, b)
              (set-IsEntry _ entry_seq _
                (set-IsEntry _ entry_data _ e (byte_at-IsByte at_target_id s.valid.packet)) seq)
        | inr b ↦ rw (a, b) (set-IsEntry _ entry_seq _ e seq)
      ]
    ]

pub append_response_repeat-IsSafe : {m : Mesh} → IsSafe m → IsSafe (append_response_repeat m)
unfolding append_response_repeat
append_response_repeat-IsSafe {m} s =
    elim (Bool-cases (m.response_repeat_cache_size == max_repeat_cache_size)) [
      | inl e ↦ rw e s
      | inr e ↦
          let room : m.response_repeat_cache_size < 2 = ground (arith, s.few) in
          let old = get_or m.response_repeat_cache m.response_repeat_cache_end [] in
          let at_end =
            All-get_or_in IsEntry m.response_repeat_cache m.response_repeat_cache_end []
              s.valid.response_entries
              (omega (arith, s.valid.response_size, s.valid.response_ring.end_in)) in
          rw e (
            IsSafe-responses s
              (length-set m.response_repeat_cache m.response_repeat_cache_end _
                ∙ s.valid.response_size)
              (All-set IsEntry m.response_repeat_cache m.response_repeat_cache_end
                (response_entry m old) s.valid.response_entries
                (response_entry-IsEntry old s at_end))
              (record {
                start_in = s.valid.response_ring.start_in;
                end_in = omega arith;
                size_in = omega arith;
                end_is = omega (arith, s.valid.response_ring.end_is);
              })
              (omega arith))
    ]

module _ ⦃io : Io⦄ where
  pub send_response-IsSafe : {m : Mesh} → IsSafe m → IsSafe (send_response m)
  unfolding send_response transmit await_transmission listen
  send_response-IsSafe {m} s =
      elim (Bool-cases (is_response_type (byte_at m.packet_cache at_type))) [
        | inl e ↦ rw e (IsSafe-same _ (append_response_repeat-IsSafe s) refl)
        | inr e ↦ rw e (IsSafe-same _ s refl)
      ]

  pub send_request-IsSafe : {m : Mesh} → IsSafe m → IsSafe (send_request m)
  unfolding send_request
  send_request-IsSafe {m} s = elim (Bool-cases (byte_at m.packet_cache at_type == pkt_join)) [
    | inl e ↦
        rw e (
          send_response-IsSafe
            (IsSafe-same _ (IsSafe-request s s.valid.pending (omega arith)) refl))
    | inr e ↦ rw e (
        send_response-IsSafe (
          IsSafe-same _
            (IsSafe-request s
              (record {
                size =
                    length-memcpy m.pending_request_cache 0 m.packet_cache 0 packet_size
                    ∙ s.valid.pending.size;
                bytes =
                    All-memcpy IsByte m.pending_request_cache 0 m.packet_cache 0 packet_size
                      s.valid.pending.bytes s.valid.packet.bytes (omega arith);
              })
              (omega arith))
            refl))
  ]
