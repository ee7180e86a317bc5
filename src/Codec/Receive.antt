-- ===== src/Codec/Receive.antt =====
-- `_A7105_Mesh_Util_Packet_To_Register` stays within both arrays.
use atmega_a.Prelude.{
  ℕ, ◌+◌, ◌≤◌, ◌≡◌, ◌∙◌, ◌↔◌, refl, sym, ap, arith, Bool, true, false, List, byte_at, length-memcpy,
  All-memcpy, Bool-cases, inl, inr, if◌then◌else◌,
}
use atmega_a.Packet.{IsByte, IsPacket, at_data_start}
use atmega_a.Register.{Register, IsRegister, max_array_size}
use atmega_a.Codec.{is_readable, take_name, take_value, packet_to_register}

packet_to_register_refused :
    (packet : List ℕ) (reg : Register) (include_value : Bool)
    → is_readable packet include_value ≡ false
    → packet_to_register packet reg include_value ≡ (false, reg)
unfolding packet_to_register
packet_to_register_refused packet reg include_value h = rw h

pub packet_to_register_done :
    (packet : List ℕ) (reg : Register) (include_value : Bool)
    → is_readable packet include_value ≡ true
    → packet_to_register packet reg include_value ≡ (
      true,
      if include_value then take_value packet (take_name packet reg) else take_name packet reg,
    )
unfolding packet_to_register
packet_to_register_done packet reg include_value h = rw h

-- The lengths that a packet names: of the register's name, and of the value behind it.
abbrev pub name_size : List ℕ → ℕ
name_size packet = byte_at packet at_data_start

abbrev pub value_size : List ℕ → ℕ
value_size packet = byte_at packet (at_data_start + (name_size packet + 1))

-- The sizes that a received packet may name.
abbrev pub FitsRegister : List ℕ → Bool → Type 0
FitsRegister packet include_value =
    (1 ≤ name_size packet)
    × (name_size packet ≤ max_array_size)
    × (include_value ≡ true
        → (2 ≤ name_size packet + value_size packet)
          × (name_size packet + value_size packet ≤ max_array_size))

pub is_readable_iff :
    (packet : List ℕ) (i : Bool) → (is_readable packet i ≡ true) ↔ FitsRegister packet i
is_readable_iff packet true = ground arith
is_readable_iff packet false = ground arith

module _ {packet : List ℕ} {reg : Register} (v : IsPacket packet) (r : IsRegister reg) where
  take_name-IsRegister : name_size packet ≤ max_array_size → IsRegister (take_name packet reg)
  unfolding take_name
  take_name-IsRegister h = record {
    size = length-memcpy reg.contents 0 packet 6 (name_size packet) ∙ r.size;
    bytes =
        All-memcpy IsByte reg.contents 0 packet 6 (name_size packet) r.bytes v.bytes (omega arith);
    name_fits = h;
    data_fits = r.data_fits;
  }

  take_value-IsRegister :
      byte_at packet (6 + reg.name_len) ≤ max_array_size → IsRegister (take_value packet reg)
  unfolding take_value
  take_value-IsRegister h = record {
    size = length-memcpy reg.contents reg.name_len packet _ _ ∙ r.size;
    bytes = All-memcpy IsByte reg.contents reg.name_len packet _ _ r.bytes v.bytes (omega arith);
    name_fits = r.name_fits;
    data_fits = h;
  }

pub name_len-take_name :
    (packet : List ℕ) (reg : Register) → (take_name packet reg).name_len ≡ name_size packet
unfolding take_name
name_len-take_name packet reg = refl

-- What a successful read leaves.
pub record Taken (packet : List ℕ) (reg : Register) (include_value : Bool) (out : Register)
    : Type 0 where
  pub named : out.name_len ≡ name_size packet
  pub valued : include_value ≡ true → out.data_len ≡ value_size packet
  pub valued_not : include_value ≡ false → out.data_len ≡ reg.data_len
  pub set_kept : out.set_callback ≡ reg.set_callback
  pub get_kept : out.get_callback ≡ reg.get_callback

pub taken :
    (packet : List ℕ) (reg : Register) (include_value : Bool)
    → Taken packet reg include_value
        (if include_value then take_value packet (take_name packet reg) else take_name packet reg)
unfolding take_name take_value
taken packet reg true = record {
  named = refl;
  valued = λ _. ap (byte_at packet) (omega arith);
  valued_not = λ q. cc;
  set_kept = refl;
  get_kept = refl;
}
taken packet reg false = record {
  named = refl;
  valued = λ q. cc;
  valued_not = λ _. refl;
  set_kept = refl;
  get_kept = refl;
}

take_both-IsRegister :
    {packet : List ℕ} {reg : Register} (include_value : Bool)
    → IsPacket packet
    → IsRegister reg
    → FitsRegister packet include_value
    → IsRegister
        (if include_value then take_value packet (take_name packet reg) else take_name packet reg)
take_both-IsRegister {packet} {reg} true v r f =
    take_value-IsRegister v (take_name-IsRegister v r f.1) (
      rw name_len-take_name (
        let e : byte_at packet (6 + name_size packet) ≡ value_size packet =
          ap (byte_at packet) (omega arith) in
        omega (arith, e, f.2 refl)))
take_both-IsRegister {packet} {reg} false v r f = take_name-IsRegister v r f.1

-- What `_A7105_Mesh_Util_Packet_To_Register` does on every branch, for a packet and a register
-- of the library: it succeeds exactly when the name in the packet has 1 to 57 bytes and, if the
-- value is asked for, name and value have 2 to 57 together. It leaves the register if it refuses.
-- If it succeeds, the register has the lengths of the packet (its old value length, if the value
-- was not asked for). The callbacks stay, and a register of the library comes out.
pub packet_to_register_bounds :
    (packet : List ℕ) (reg : Register) (include_value : Bool)
    → IsPacket packet
    → IsRegister reg
    → let (done, out) = packet_to_register packet reg include_value in
      ((done ≡ true) ↔ FitsRegister packet include_value)
      × (done ≡ false → out ≡ reg)
      × (done ≡ true → out.name_len ≡ name_size packet)
      × (done ≡ true → include_value ≡ true → out.data_len ≡ value_size packet)
      × (done ≡ true → include_value ≡ false → out.data_len ≡ reg.data_len)
      × (out.set_callback ≡ reg.set_callback)
      × (out.get_callback ≡ reg.get_callback)
      × IsRegister out
packet_to_register_bounds packet reg include_value v r =
    elim (Bool-cases (is_readable packet include_value)) [
      | inl e ↦
          let t = taken packet reg include_value in
          let f : FitsRegister packet include_value = (is_readable_iff packet include_value).0 e in
          rw (packet_to_register_done packet reg include_value e) (
            ((λ _. f), (λ _. refl)),
            (λ q. cc),
            (λ _. t.named),
            (λ _. t.valued),
            (λ _. t.valued_not),
            t.set_kept,
            t.get_kept,
            take_both-IsRegister include_value v r f,
          )
      | inr e ↦ rw (packet_to_register_refused packet reg include_value e) (
        ((λ q. cc), (λ f. sym e ∙ (is_readable_iff packet include_value).1 f)),
        (λ _. refl),
        (λ q. cc),
        (λ q. cc),
        (λ q. cc),
        refl,
        refl,
        r,
      )
    ]
