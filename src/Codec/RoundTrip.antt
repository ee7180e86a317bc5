-- ===== src/Codec/RoundTrip.antt =====
-- A register written to a packet is the register read from it.
use atmega_a.Prelude.{
  ℕ, ◌+◌, ◌-◌, ◌≤◌, ◌<◌, ◌≡◌, ◌∙◌, refl, sym, ap, arith, true, List, byte_at, get_or-set_self,
  get_or-set_ne, ltb, Bool-cases, inl, inr,
}
use atmega_a.Packet.{IsPacket, at_type, at_data_start, pkt_register_name}
use atmega_a.Packet.Nibbles.{set-IsPacket}
use atmega_a.Register.{Register, IsRegister, max_array_size}
use atmega_a.Codec.{
  is_sendable, is_readable, register_to_packet, packet_to_register, get_register_index,
  set_register_index,
}
use atmega_a.Codec.Send.{FitsPacket, is_sendable_iff, register_to_packet_done}
use atmega_a.Codec.Receive.{is_readable_iff, value_size, taken, packet_to_register_done}
use atmega_a.Codec.Layout.{
  full, read_full, full_name_size, full_name_bytes, full_value_size, full_value_bytes,
  read_name_bytes, read_value_bytes,
}

-- A register of the library with a name, whose name and value fill at least two bytes and fit the
-- array together, is written to a packet; any register of the library that reads it with its
-- value gets the same lengths and the same bytes of name and value.
pub packet_to_register-register_to_packet :
    (packet : List ℕ) (reg dest : Register)
    → IsPacket packet
    → IsRegister reg
    → IsRegister dest
    → 1 ≤ reg.name_len
    → FitsPacket reg.name_len reg.data_len true
    → let (sent, p) = register_to_packet packet reg true in
      let (received, out) = packet_to_register p dest true in
      (sent ≡ true)
      × (received ≡ true)
      × (out.name_len ≡ reg.name_len)
      × (out.data_len ≡ reg.data_len)
      × ((i : ℕ)
          → i < reg.name_len + reg.data_len
          → byte_at out.contents i ≡ byte_at reg.contents i)
packet_to_register-register_to_packet packet reg dest v r d named fits =
    rw
      (
        register_to_packet_done packet reg true sendable,
        packet_to_register_done (full packet reg) dest true readable,
      )
      (
        refl,
        refl,
        (taken (full packet reg) dest true).named ∙ size,
        (taken (full packet reg) dest true).valued refl ∙ value_behind,
        bytes,
      )
  where
    sendable : is_sendable reg true ≡ true
    sendable = (is_sendable_iff reg true).1 fits

    size : byte_at (full packet reg) at_data_start ≡ reg.name_len
    size = full_name_size packet reg v.size (omega arith)

    value : byte_at (full packet reg) (6 + reg.name_len) ≡ reg.data_len
    value = full_value_size packet reg v.size (omega arith)

    value_behind : value_size (full packet reg) ≡ reg.data_len
    value_behind = ap (byte_at (full packet reg)) (omega (arith, size)) ∙ value

    readable : is_readable (full packet reg) true ≡ true
    readable = (is_readable_iff (full packet reg) true).1 (omega (arith, size, value_behind))

    bytes :
        (i : ℕ)
        → i < reg.name_len + reg.data_len
        → byte_at (read_full (full packet reg) dest).contents i ≡ byte_at reg.contents i
    bytes i l = elim (Bool-cases (ltb i reg.name_len)) [
      | inl e ↦
          read_name_bytes (full packet reg) dest d.size reg.name_len reg.data_len size value
            (omega arith) i (ground arith)
          ∙ full_name_bytes packet reg v.size (omega arith) i (ground arith)
      | inr e ↦
          let k : reg.name_len + (i - reg.name_len) ≡ i = ground arith in
          ap (byte_at (read_full (full packet reg) dest).contents) (sym k)
          ∙ read_value_bytes (full packet reg) dest d.size reg.name_len reg.data_len size value
              (omega arith) (i - reg.name_len) (ground arith)
          ∙ full_value_bytes packet reg v.size (omega arith) (i - reg.name_len) (ground arith)
          ∙ ap (byte_at reg.contents) k
    ]

-- In a REGISTER_NAME packet that names at most 57 bytes, the register index set is the one read,
-- and the type, the name and its length stay.
pub get_register_index-set_register_index :
    (packet : List ℕ) (index : ℕ)
    → IsPacket packet
    → byte_at packet at_type ≡ pkt_register_name
    → byte_at packet at_data_start ≤ max_array_size
    → index < 256
    → let (done, out) = set_register_index packet index in
      (done ≡ 1)
      × (get_register_index out ≡ index)
      × ((i : ℕ)
          → i < at_data_start + byte_at packet at_data_start + 1
          → byte_at out i ≡ byte_at packet i)
      × IsPacket out
unfolding set_register_index get_register_index
get_register_index-set_register_index packet index v typed fits small = rw typed (
  refl,
  rw (
    get_or-set_ne packet here at_type index 0 (λ e. omega arith),
    typed,
    get_or-set_ne packet here at_data_start index 0 (λ e. omega arith),
    get_or-set_self packet here index 0 (omega (arith, v.size)),
  ),
  (λ i l. get_or-set_ne packet here i index 0 (λ e. omega arith)),
  set-IsPacket here index v small,
)
  where
    here : ℕ
    here = at_data_start + byte_at packet at_data_start + 1
