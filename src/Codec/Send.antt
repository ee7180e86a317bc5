-- ===== src/Codec/Send.antt =====
-- `_A7105_Mesh_Util_Register_To_Packet` stays within both arrays.
use atmega_a.Prelude.{
  ℕ, ◌+◌, ◌≤◌, ◌<◌, ◌≡◌, ◌∙◌, ◌↔◌, refl, sym, arith, Bool, true, false, List, set, byte_at, memcpy,
  All, length-memcpy, All-memcpy, byte_at-memcpy_outside, get_or-set_ne, Bool-cases, inl, inr,
  if◌then◌else◌,
}
use atmega_a.Packet.{IsByte, IsPacket, packet_size, at_data_start}
use atmega_a.Packet.Nibbles.{set-IsPacket}
use atmega_a.Register.{Register, IsRegister, max_array_size}
use atmega_a.Codec.{is_sendable, put_name, put_value, register_to_packet}

memcpy-IsPacket :
    {dst : List ℕ} (o : ℕ) (src : List ℕ) (p n : ℕ)
    → IsPacket dst
    → All IsByte src
    → IsPacket (memcpy dst o src p n)
memcpy-IsPacket {dst} o src p n v s = record {
  size = length-memcpy dst o src p n ∙ v.size;
  bytes = All-memcpy IsByte dst o src p n v.bytes s (omega arith);
}

put_name-IsPacket :
    {packet : List ℕ} {reg : Register}
    → IsPacket packet
    → IsRegister reg
    → IsPacket (put_name packet reg)
unfolding put_name
put_name-IsPacket {packet} {reg} v r =
    memcpy-IsPacket 6 reg.contents 0 reg.name_len (set-IsPacket 5 reg.name_len v (omega (arith, r)))
      r.bytes

put_value-IsPacket :
    {packet : List ℕ} {reg : Register}
    → IsPacket packet
    → IsRegister reg
    → IsPacket (put_value packet reg)
unfolding put_value
put_value-IsPacket {packet} {reg} v r =
    memcpy-IsPacket (5 + 1 + reg.name_len + 1) reg.contents reg.name_len reg.data_len
      (set-IsPacket (5 + 1 + reg.name_len) reg.data_len v (omega (arith, r))) r.bytes

put_name_keeps :
    (packet : List ℕ) (reg : Register) (i : ℕ)
    → i < 5
    → byte_at (put_name packet reg) i ≡ byte_at packet i
unfolding put_name
put_name_keeps packet reg i h =
    byte_at-memcpy_outside (set packet 5 reg.name_len) 6 reg.contents 0 reg.name_len i
      (ground arith)
    ∙ get_or-set_ne packet 5 i reg.name_len 0 (λ e. omega arith)

put_value_keeps :
    (packet : List ℕ) (reg : Register) (i : ℕ)
    → i < 5
    → byte_at (put_value packet reg) i ≡ byte_at packet i
unfolding put_value
put_value_keeps packet reg i h =
    byte_at-memcpy_outside (set packet (5 + 1 + reg.name_len) reg.data_len)
      (5 + 1 + reg.name_len + 1) reg.contents reg.name_len reg.data_len i (ground arith)
    ∙ get_or-set_ne packet (5 + 1 + reg.name_len) i reg.data_len 0 (λ e. omega arith)

pub register_to_packet_refused :
    (packet : List ℕ) (reg : Register) (include_value : Bool)
    → is_sendable reg include_value ≡ false
    → register_to_packet packet reg include_value ≡ (false, packet)
unfolding register_to_packet
register_to_packet_refused packet reg include_value h = rw h

pub register_to_packet_done :
    (packet : List ℕ) (reg : Register) (include_value : Bool)
    → is_sendable reg include_value ≡ true
    → register_to_packet packet reg include_value
      ≡ (true, if include_value then put_value (put_name packet reg) reg else put_name packet reg)
unfolding register_to_packet
register_to_packet_done packet reg include_value h = rw h

-- The sizes that fit a packet, and that the code asks for.
abbrev pub FitsPacket : ℕ → ℕ → Bool → Type 0
FitsPacket name_len data_len include_value =
    (1 ≤ name_len + data_len)
    × (name_len + data_len ≤ max_array_size)
    × (include_value ≡ true → 2 ≤ name_len + data_len)

pub is_sendable_iff :
    (reg : Register) (i : Bool)
    → (is_sendable reg i ≡ true) ↔ FitsPacket reg.name_len reg.data_len i
is_sendable_iff reg true = ground arith
is_sendable_iff reg false = ground arith

module _ {packet : List ℕ} {reg : Register} (v : IsPacket packet) (r : IsRegister reg) where
  put_both_keeps :
      (include_value : Bool) (i : ℕ)
      → i < at_data_start
      → byte_at
          (if include_value then put_value (put_name packet reg) reg else put_name packet reg)
          i
        ≡ byte_at packet i
  put_both_keeps true i h =
      put_value_keeps (put_name packet reg) reg i h ∙ put_name_keeps packet reg i h
  put_both_keeps false i h = put_name_keeps packet reg i h

  put_both-IsPacket :
      (include_value : Bool)
      → IsPacket
          (if include_value then put_value (put_name packet reg) reg else put_name packet reg)
  put_both-IsPacket true = put_value-IsPacket (put_name-IsPacket v r) r
  put_both-IsPacket false = put_name-IsPacket v r

-- What `_A7105_Mesh_Util_Register_To_Packet` does on every branch, for a packet and a register
-- of the library: it succeeds exactly when name and value are not both empty and fit the array,
-- with two bytes at least if the value is included. It leaves the packet if it refuses. If it
-- succeeds, name and value end inside of the 64 bytes. The first five bytes stay either way, and a
-- packet comes out.
pub register_to_packet_bounds :
    (packet : List ℕ) (reg : Register) (include_value : Bool)
    → IsPacket packet
    → IsRegister reg
    → let (done, out) = register_to_packet packet reg include_value in
      ((done ≡ true) ↔ FitsPacket reg.name_len reg.data_len include_value)
      × (done ≡ false → out ≡ packet)
      × (done ≡ true → at_data_start + 2 + reg.name_len + reg.data_len ≤ packet_size)
      × ((i : ℕ) → i < at_data_start → byte_at out i ≡ byte_at packet i)
      × IsPacket out
register_to_packet_bounds packet reg include_value v r =
    elim (Bool-cases (is_sendable reg include_value)) [
      | inl e ↦ rw (register_to_packet_done packet reg include_value e) (
        ((λ _. (is_sendable_iff reg include_value).0 e), (λ _. refl)),
        (λ q. cc),
        (λ _. omega (arith, (is_sendable_iff reg include_value).0 e)),
        put_both_keeps v r include_value,
        put_both-IsPacket v r include_value,
      )
      | inr e ↦ rw (register_to_packet_refused packet reg include_value e) (
        ((λ q. cc), (λ f. sym e ∙ (is_sendable_iff reg include_value).1 f)),
        (λ _. refl),
        (λ q. cc),
        (λ i h. refl),
        v,
      )
    ]
