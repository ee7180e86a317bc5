-- ===== src/Codec/Names.antt =====
-- The comparisons of a packet's register name with the node's registers.
use atmega_a.Prelude.{
  ℕ, zero, suc, ◌+◌, ◌<◌, ◌≤◌, ◌≡◌, ◌≢◌, ◌↔◌, ◌∙◌, refl, ap, arith, true, false, ◌&&◌, ◌||◌, none,
  some, List, get_or, byte_at, mem_eq, mem_eq_sound, mem_eq_complete, ◌==◌, Bool-cases, inl, inr,
}
use atmega_a.Packet.{
  IsPacket, at_type, at_data_start, at_name_start, pkt_get_register, pkt_set_register,
}
use atmega_a.Register.{Register}
use atmega_a.Codec.{
  no_register, register_to_packet, cmp_packet_register, has_name_from, does_packet_have_register,
  filter_from, filter_register_name,
}
use atmega_a.Codec.Send.{FitsPacket, is_sendable_iff, register_to_packet_done}
use atmega_a.Codec.Layout.{full, full_value_size}

-- The register has the name that stands in the packet.
pub record HasName (packet : List ℕ) (reg : Register) : Type 0 where
  pub same_size : reg.name_len ≡ byte_at packet at_data_start
  pub same_bytes :
      (i : ℕ) → i < reg.name_len → byte_at reg.contents i ≡ byte_at packet (at_name_start + i)

cmp_parts :
    (packet : List ℕ) (reg : Register)
    → cmp_packet_register packet reg false ≡ true
    → (reg.name_len ≡ byte_at packet 5) × (mem_eq reg.contents 0 packet 6 (byte_at packet 5) ≡ true)
unfolding cmp_packet_register
cmp_parts packet reg h = ground arith

cmp_joined :
    (packet : List ℕ) (reg : Register)
    → reg.name_len ≡ byte_at packet 5
    → mem_eq reg.contents 0 packet 6 (byte_at packet 5) ≡ true
    → cmp_packet_register packet reg false ≡ true
unfolding cmp_packet_register
cmp_joined packet reg e m = ground arith

cmp-HasName :
    (packet : List ℕ) (reg : Register)
    → cmp_packet_register packet reg false ≡ true
    → HasName packet reg
cmp-HasName packet reg h = record {
  same_size = (cmp_parts packet reg h).0;
  same_bytes = λ i l.
      ap (byte_at reg.contents) (omega arith)
      ∙ mem_eq_sound reg.contents 0 packet 6 (byte_at packet 5) i (cmp_parts packet reg h).1
          (omega (arith, cmp_parts packet reg h));
}

HasName-cmp :
    (packet : List ℕ) (reg : Register)
    → HasName packet reg
    → cmp_packet_register packet reg false ≡ true
HasName-cmp packet reg h = cmp_joined packet reg h.same_size (
    mem_eq_complete reg.contents 0 packet 6 (byte_at packet 5) (λ k l.
      ap (byte_at reg.contents) (omega arith) ∙ h.same_bytes k (omega (arith, h.same_size))))

-- `_A7105_Mesh_Cmp_Packet_Register`, asked for the name only, decides whether the register has
-- the name in the packet: the same length, and the same bytes up to that length.
pub cmp_packet_register_iff :
    (packet : List ℕ) (reg : Register)
    → (cmp_packet_register packet reg false ≡ true) ↔ HasName packet reg
cmp_packet_register_iff packet reg = (cmp-HasName packet reg, HasName-cmp packet reg)

has_name_from-mem_eq :
    (packet contents : List ℕ) (n x y : ℕ)
    → y ≡ 6 + x
    → has_name_from packet contents n x ≡ mem_eq contents x packet y n
unfolding has_name_from mem_eq
has_name_from-mem_eq packet contents zero x y e = refl
has_name_from-mem_eq packet contents (suc n) x y e =
    ground (arith, has_name_from-mem_eq packet contents n (suc x) (suc y), ap (byte_at packet) e)

-- The repeater's test of a request's register name is the responder's: on GET_REGISTER and
-- SET_REGISTER packets `_A7105_Mesh_Util_Does_Packet_Have_Register` gives what
-- `_A7105_Mesh_Cmp_Packet_Register` gives for the name, and on all other packets it gives false.
pub does_packet_have_register_lem :
    (packet : List ℕ) (reg : Register)
    → does_packet_have_register packet reg ≡ (
        (byte_at packet at_type == pkt_get_register || byte_at packet at_type == pkt_set_register)
        && cmp_packet_register packet reg false)
unfolding does_packet_have_register cmp_packet_register
does_packet_have_register_lem packet reg = ground (
  arith,
  has_name_from-mem_eq packet reg.contents reg.name_len 0 6,
  ap (mem_eq reg.contents 0 packet 6) {x = reg.name_len} {y = byte_at packet 5},
)

module _ (packet : List ℕ) (registers : List Register) where
  abbrev Named : ℕ → Type 0
  Named k = HasName packet (get_or registers k no_register)

  cmp_false :
      (k : ℕ)
      → cmp_packet_register packet (get_or registers k no_register) false ≡ false
      → ¬ Named k
  cmp_false k e h = cc (HasName-cmp packet (get_or registers k no_register) h)

  filter_from-some :
      (n x i : ℕ)
      → filter_from packet registers n x ≡ some i
      → (x ≤ i) × (i < x + n) × Named i × ((k : ℕ) → x ≤ k → k < i → ¬ Named k)
  unfolding filter_from
  filter_from-some zero x i h = cc
  filter_from-some (suc n) x i h =
      elim (Bool-cases (cmp_packet_register packet (get_or registers x no_register) false)) [
        | inl e ↦
            let here : x ≡ i = ground arith in
            (
              omega arith,
              omega arith,
              rw (← here) (cmp-HasName packet (get_or registers x no_register) e),
              λ k l m. absurd (omega arith),
            )
        | inr e ↦
            let rest = filter_from-some n (suc x) i (ground arith) in
            (
              omega arith,
              omega arith,
              rest.2,
              λ k l m. elim (Bool-cases (x == k)) [
                | inl q ↦ let same : x ≡ k = ground arith in rw (← same) (cmp_false x e)
                | inr q ↦ rest.3 k (ground arith) m
              ],
            )
      ]

  filter_from-none :
      (n x : ℕ) → filter_from packet registers n x ≡ none → (k : ℕ) → x ≤ k → k < x + n → ¬ Named k
  unfolding filter_from
  filter_from-none zero x h k l m = absurd (omega arith)
  filter_from-none (suc n) x h k l m =
      elim (Bool-cases (cmp_packet_register packet (get_or registers x no_register) false)) [
        | inl e ↦ ground arith
        | inr e ↦ elim (Bool-cases (x == k)) [
          | inl q ↦ let same : x ≡ k = ground arith in rw (← same) (cmp_false x e)
          | inr q ↦ filter_from-none n (suc x) (ground arith) k (ground arith) (omega arith)
        ]
      ]

-- `_A7105_Mesh_Filter_RegisterName` gives the first register that has the name in the packet: its
-- index is below the number of registers, and no register before it has that name. It gives -1
-- only if none of the registers has it.
pub filter_register_name_first :
    (packet : List ℕ) (registers : List Register) (num_registers : ℕ)
    → let found = filter_register_name packet registers num_registers in
      ((i : ℕ)
        → found ≡ some i
        → (i < num_registers)
          × HasName packet (get_or registers i no_register)
          × ((k : ℕ) → k < i → ¬ HasName packet (get_or registers k no_register)))
      × (found ≡ none
          → (k : ℕ) → k < num_registers
          → ¬ HasName packet (get_or registers k no_register))
unfolding filter_register_name
filter_register_name_first packet registers num_registers = (
  λ i h.
      let f = filter_from-some packet registers num_registers 0 i h in
      (omega (arith, f.1), f.2, λ k l. f.3 k (omega arith) l),
  λ h k l. filter_from-none packet registers num_registers 0 h k (omega arith) (omega arith),
)

cmp_value_parts :
    (packet : List ℕ) (reg : Register)
    → cmp_packet_register packet reg true ≡ true
    → mem_eq reg.contents 0 packet (6 + reg.name_len) (byte_at packet (6 + reg.name_len)) ≡ true
unfolding cmp_packet_register
cmp_value_parts packet reg h = ground arith

-- The comparison of values does not recognise the value that it is meant to: a packet that was
-- made from a register with a non-empty value is taken for another value than the register's own
-- whenever the first byte of the register's name is not the value's length.
pub cmp_packet_register_own_value :
    (packet : List ℕ) (reg : Register)
    → IsPacket packet
    → FitsPacket reg.name_len reg.data_len true
    → 1 ≤ reg.data_len
    → byte_at reg.contents 0 ≢ reg.data_len
    → cmp_packet_register (register_to_packet packet reg true).1 reg true ≡ false
cmp_packet_register_own_value packet reg v fits some_data ne =
    rw (register_to_packet_done packet reg true ((is_sendable_iff reg true).1 fits))
      (elim (Bool-cases (cmp_packet_register (full packet reg) reg true)) [
        | inl e ↦ absurd (
            ne (
              ap (byte_at reg.contents) (omega arith)
              ∙ mem_eq_sound reg.contents 0 (full packet reg) (6 + reg.name_len)
                  (byte_at (full packet reg) (6 + reg.name_len)) 0
                  (cmp_value_parts (full packet reg) reg e) (omega (arith, size))
              ∙ ap (byte_at (full packet reg)) (omega arith)
              ∙ size))
        | inr e ↦ e
      ])
  where
    size : byte_at (full packet reg) (6 + reg.name_len) ≡ reg.data_len
    size = full_value_size packet reg v.size (omega arith)
