-- ===== src/Tests/Registers.antt =====
-- The theorems on registers, and on registers in packets, at concrete ones.
use atmega_a.Prelude.{
  ℕ, ◌+◌, ◌≤◌, ◌<◌, ◌≡◌, ◌↔◌, refl, arith, true, false, none, some, [], ◌∷◌, get_or, byte_at,
}
use atmega_a.Packet.{IsPacket, packet_size, at_data_start}
use atmega_a.Register.{IsRegister, set_register_value_u32, get_register_value_u32}
use atmega_a.Register.Numbers.{get_u32-set_u32}
use atmega_a.Codec.{
  register_to_packet, packet_to_register, cmp_packet_register, filter_register_name, no_register,
}
use atmega_a.Codec.Send.{FitsPacket, register_to_packet_bounds}
use atmega_a.Codec.Receive.{FitsRegister, name_size, value_size, packet_to_register_bounds}
use atmega_a.Codec.RoundTrip.{packet_to_register-register_to_packet}
use atmega_a.Codec.Names.{HasName, filter_register_name_first, cmp_packet_register_own_value}
use atmega_a.Tests.{name_packet, name_packet-IsPacket, letter, letter-IsRegister}

get_u32-set_u32_example :
    let (done, after) = set_register_value_u32 letter 0x12345678 in
    (done ≡ true)
    × (get_register_value_u32 after ≡ (true, some 0x12345678))
    × (after.name_len ≡ letter.name_len)
    × ((i : ℕ) → i < letter.name_len → byte_at after.contents i ≡ byte_at letter.contents i)
get_u32-set_u32_example = get_u32-set_u32 letter 0x12345678 refl (omega arith) (omega arith)

register_to_packet_bounds_example :
    let (done, out) = register_to_packet name_packet letter true in
    ((done ≡ true) ↔ FitsPacket letter.name_len letter.data_len true)
    × (done ≡ false → out ≡ name_packet)
    × (done ≡ true → at_data_start + 2 + letter.name_len + letter.data_len ≤ packet_size)
    × ((i : ℕ) → i < at_data_start → byte_at out i ≡ byte_at name_packet i)
    × IsPacket out
register_to_packet_bounds_example =
    register_to_packet_bounds name_packet letter true name_packet-IsPacket letter-IsRegister

packet_to_register_bounds_example :
    let (done, out) = packet_to_register name_packet letter false in
    ((done ≡ true) ↔ FitsRegister name_packet false)
    × (done ≡ false → out ≡ letter)
    × (done ≡ true → out.name_len ≡ name_size name_packet)
    × (done ≡ true → false ≡ true → out.data_len ≡ value_size name_packet)
    × (done ≡ true → false ≡ false → out.data_len ≡ letter.data_len)
    × (out.set_callback ≡ letter.set_callback)
    × (out.get_callback ≡ letter.get_callback)
    × IsRegister out
packet_to_register_bounds_example =
    packet_to_register_bounds name_packet letter false name_packet-IsPacket letter-IsRegister

packet_to_register-register_to_packet_example :
    let (sent, p) = register_to_packet name_packet letter true in
    let (received, out) = packet_to_register p letter true in
    (sent ≡ true)
    × (received ≡ true)
    × (out.name_len ≡ letter.name_len)
    × (out.data_len ≡ letter.data_len)
    × ((i : ℕ)
        → i < letter.name_len + letter.data_len
        → byte_at out.contents i ≡ byte_at letter.contents i)
packet_to_register-register_to_packet_example =
    packet_to_register-register_to_packet name_packet letter letter name_packet-IsPacket
      letter-IsRegister letter-IsRegister (omega arith) (omega arith, omega arith, λ _. omega arith)

filter_register_name_first_example :
    let found = filter_register_name name_packet (letter ∷ []) 1 in
    ((i : ℕ)
      → found ≡ some i
      → (i < 1)
        × HasName name_packet (get_or (letter ∷ []) i no_register)
        × ((k : ℕ) → k < i → ¬ HasName name_packet (get_or (letter ∷ []) k no_register)))
    × (found ≡ none → (k : ℕ) → k < 1 → ¬ HasName name_packet (get_or (letter ∷ []) k no_register))
filter_register_name_first_example = filter_register_name_first name_packet (letter ∷ []) 1

cmp_packet_register_own_value_example :
    cmp_packet_register (register_to_packet name_packet letter true).1 letter true ≡ false
cmp_packet_register_own_value_example =
    cmp_packet_register_own_value name_packet letter name_packet-IsPacket
      (omega arith, omega arith, λ _. omega arith) (omega arith) (λ e. omega arith)
