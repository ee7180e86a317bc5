-- ===== src/Serve/Store.antt =====
-- The setting of a register keeps the invariant of the node, for a client that does:
-- `_A7105_Mesh_Handle_SetRegister` of libraries/a7105_mesh/a7105_mesh.cpp.
use atmega_a.Prelude.{
  ℕ, zero, suc, ◌-◌, ◌<◌, ◌≡◌, ◌∙◌, refl, arith, Bool, true, false, ◌&&◌, ◌||◌, Bool-cases, inl,
  inr, Option, none, some, List, [], ◌∷◌, ltb, ◌==◌, if◌then◌else◌, length, set, byte_at, strncpy,
  length-strncpy, All-strncpy, length-set, All, All-get_or_in, All-replicate, length-replicate,
}
use atmega_a.World.{Io}
use atmega_a.Packet.{
  IsByte, IsPacket, at_node_id, at_target_id, at_err_msg_start, pkt_set_register_ack,
}
use atmega_a.Packet.Nibbles.{byte_at-IsByte}
use atmega_a.Register.{
  Register, IsRegister, max_part_size, register_initialize, register_clear_error,
}
use atmega_a.Codec.{packet_to_register, no_register}
use atmega_a.Codec.Receive.{packet_to_register_bounds}
use atmega_a.Mesh.{
  Mesh, Client, Status, no_status, ok, timeout, invalid_register_index, invalid_register_length,
  invalid_register_returned, invalid_register_value, not_on_mesh, mesh_busy, mesh_full,
  mesh_already_joining, radio_init_error, radio_calibration_error, radio_invalid_channel,
  auto_set_register,
}
use atmega_a.Mesh.Safe.{IsSafe, IsSafe-packet}
use atmega_a.Mesh.Started.{IsSafe-register_cache, IsSafe-registers}
use atmega_a.Mesh.Lawful.{IsLawful}
use atmega_a.Send.{prep_packet_header}
use atmega_a.Send.Safe.{prep_packet_header-IsSafe, send_response-IsSafe}
use atmega_a.Handled.{handling_request}
use atmega_a.Handled.Safe.{handling_request-IsSafe}
use atmega_a.Query.{with_byte}
use atmega_a.Query.Safe.{with_byte-IsSafe}
use atmega_a.Values.{err_not_set, err_bogus_return, err_value_size, put_message, with_message}
use atmega_a.Serve.{
  register_at, with_register, Setting, judge, store_value, is_none, acknowledge, call_set,
  set_value,
}

-- The characters of a text are bytes.
abbrev pub all_bytes : List ℕ → Bool
all_bytes [] = true
all_bytes (c ∷ s) = ltb c 256 && all_bytes s

pub All-bytes : (s : List ℕ) → all_bytes s ≡ true → All IsByte s
All-bytes [] e = tt
All-bytes (c ∷ s) e = (ground arith, All-bytes s (ground arith))

pub put_message-IsRegister :
    {reg : Register} (source : List ℕ) (p : ℕ)
    → All IsByte source
    → IsRegister reg
    → IsRegister (put_message source p reg)
unfolding put_message
put_message-IsRegister {reg} source p bytes r = record {
  size = length-strncpy reg.contents 0 source p (max_part_size - 1) ∙ r.size;
  bytes =
      All-strncpy IsByte reg.contents 0 source p (max_part_size - 1) r.bytes bytes (omega arith);
  name_fits = r.name_fits;
  data_fits = r.data_fits;
}

with_message-IsSafe :
    {m : Mesh} (message : List ℕ)
    → all_bytes message ≡ true
    → IsSafe m
    → IsSafe (with_message message m)
with_message-IsSafe message e s =
    IsSafe-register_cache s
      (put_message-IsRegister message 0 (All-bytes message e) s.valid.register_valid)

-- A register at an index that may lie outside of the registers.
All-set_in :
    (regs : List Register) (i : ℕ) (reg : Register)
    → All IsRegister regs
    → (i < length regs → IsRegister reg)
    → All IsRegister (set regs i reg)
All-set_in [] i reg h r = h
All-set_in (x ∷ regs) zero reg h r = (r (omega arith), h.1)
All-set_in (x ∷ regs) (suc i) reg h r = (h.0, All-set_in regs i reg h.1 (λ l. r (omega arith)))

with_register-IsSafe :
    {m : Mesh} (i : ℕ) (reg : Register)
    → IsSafe m
    → (i < length m.registers → IsRegister reg)
    → IsSafe (with_register i reg m)
with_register-IsSafe {m} i reg s r =
    IsSafe-registers s (omega (arith, length-set m.registers i reg, s.valid.registers_there))
      (All-set_in m.registers i reg s.valid.registers_valid r)

register_at-IsRegister :
    {m : Mesh} (i : ℕ) → IsSafe m → i < length m.registers → IsRegister (register_at i m)
register_at-IsRegister {m} i s l =
    All-get_or_in IsRegister m.registers i no_register s.valid.registers_valid l

judge-IsSafe : {m : Mesh} (status : Status) → IsSafe m → IsSafe (judge status m).node
unfolding judge
judge-IsSafe auto_set_register s = s
judge-IsSafe {m} invalid_register_value s = elim (Bool-cases (m.register_cache.error_set == 0)) [
  | inl e ↦ rw e (with_message-IsSafe err_not_set refl s)
  | inr e ↦ rw e s
]
judge-IsSafe ok s = s
judge-IsSafe no_status s = with_message-IsSafe err_bogus_return refl s
judge-IsSafe timeout s = with_message-IsSafe err_bogus_return refl s
judge-IsSafe invalid_register_index s = with_message-IsSafe err_bogus_return refl s
judge-IsSafe invalid_register_length s = with_message-IsSafe err_bogus_return refl s
judge-IsSafe invalid_register_returned s = with_message-IsSafe err_bogus_return refl s
judge-IsSafe not_on_mesh s = with_message-IsSafe err_bogus_return refl s
judge-IsSafe mesh_busy s = with_message-IsSafe err_bogus_return refl s
judge-IsSafe mesh_full s = with_message-IsSafe err_bogus_return refl s
judge-IsSafe mesh_already_joining s = with_message-IsSafe err_bogus_return refl s
judge-IsSafe radio_init_error s = with_message-IsSafe err_bogus_return refl s
judge-IsSafe radio_calibration_error s = with_message-IsSafe err_bogus_return refl s
judge-IsSafe radio_invalid_channel s = with_message-IsSafe err_bogus_return refl s

store_value-IsSafe : (i : ℕ) (t : Setting) → IsSafe t.node → IsSafe (store_value i t).node
unfolding store_value
store_value-IsSafe i t s =
    let m = t.node in
    elim (Bool-cases (packet_to_register m.packet_cache (register_at i m) true).0) [
      | inl e ↦ rw e (
          with_register-IsSafe i (packet_to_register m.packet_cache (register_at i m) true).1 s
            (λ l.
              (packet_to_register_bounds m.packet_cache (register_at i m) true s.valid.packet
                (register_at-IsRegister i s l)).7))
      | inr e ↦ rw e (with_message-IsSafe err_value_size refl s)
    ]

stored-IsSafe :
    (stores : Bool) (i : ℕ) (t : Setting)
    → IsSafe t.node
    → IsSafe (if stores then store_value i t else t).node
stored-IsSafe true i t s = store_value-IsSafe i t s
stored-IsSafe false i t s = s

cleared-IsRegister : {reg : Register} → IsRegister reg → IsRegister (register_clear_error reg)
unfolding register_clear_error
cleared-IsRegister r = record {
  size = r.size;
  bytes = r.bytes;
  name_fits = r.name_fits;
  data_fits = r.data_fits;
}

new-IsRegister : IsRegister (register_initialize none none)
unfolding register_initialize
new-IsRegister = record {
  size = length-replicate {A = ℕ} 57 0;
  bytes = All-replicate IsByte 57 0 (omega arith);
  name_fits = omega arith;
  data_fits = omega arith;
}

acknowledge-IsSafe : (t : Setting) → IsSafe t.node → IsSafe (acknowledge t)
unfolding acknowledge
acknowledge-IsSafe t s =
    let h =
      with_byte-IsSafe at_target_id _
        (prep_packet_header-IsSafe pkt_set_register_ack (handling_request-IsSafe s) (omega arith))
        (byte_at-IsByte at_node_id s.valid.packet) in
    let headed =
      with_byte at_target_id (byte_at t.node.packet_cache at_node_id)
        (prep_packet_header (handling_request (t.node)) pkt_set_register_ack) in
    let contents = headed.register_cache.contents in
    elim (Bool-cases t.error_set) [
      | inl e ↦
          let packet : IsPacket
              (strncpy headed.packet_cache at_err_msg_start contents 0 (max_part_size - 1)) =
            record {
              size =
                  length-strncpy headed.packet_cache at_err_msg_start contents 0 (max_part_size - 1)
                  ∙ h.valid.packet.size;
              bytes =
                  All-strncpy IsByte headed.packet_cache at_err_msg_start contents 0
                    (max_part_size - 1) h.valid.packet.bytes h.valid.register_valid.bytes
                    (omega arith);
            } in
          rw e (IsSafe-register_cache (IsSafe-packet h packet) new-IsRegister)
      | inr e ↦ rw e h
    ]

module _ ⦃io : Io⦄ ⦃client : Client⦄ (lawful : IsLawful client) where
  call_set-IsSafe :
      {m : Mesh} (callback : Option ℕ) (i : ℕ) → IsSafe m → IsSafe (call_set callback i m).node
  unfolding call_set
  call_set-IsSafe none i s = s
  call_set-IsSafe {m} (some k) i s = judge-IsSafe _ (lawful.on_set k i m s)

  pub set_value-IsSafe : {m : Mesh} (i : ℕ) → IsSafe m → IsSafe (set_value i m)
  unfolding set_value
  set_value-IsSafe {m} i s =
      let judged = call_set (register_at i m).set_callback i m in
      let stores = is_none (register_at i judged.node).set_callback || judged.auto_set in
      let stored =
        stored-IsSafe stores i judged (call_set-IsSafe (register_at i m).set_callback i s) in
      let sent =
        send_response-IsSafe
          (acknowledge-IsSafe (if stores then store_value i judged else judged) stored) in
      with_register-IsSafe i _ sent (λ l. cleared-IsRegister (register_at-IsRegister i sent l))
