-- ===== src/RegisterHost/Served.antt =====
-- The names and values that the sample gives its registers,
-- examples/register_host_test/atmega_a7105.ino.
use atmega_a.Prelude.{
  ℕ, ◌^◌, ◌≤◌, ◌<◌, ◌≡◌, ◌∙◌, refl, arith, Option, some, none, List, [], ◌∷◌, ◌++◌, length, memcpy,
  replicate, All-replicate, byte_at-append_front, byte_at-append_behind,
}
use atmega_a.Packet.{IsByte}
use atmega_a.Register.{
  Register, IsRegister, register_initialize, set_register_name_str, set_register_value_str,
  set_register_value_u32,
}
use atmega_a.Text.{codes}
use atmega_a.Commands.Values.Stored.{Stores}
use atmega_a.World.{Io}
use atmega_a.Mesh.Valid.{IsValid, IsValid-world}
use atmega_a.Mesh.Delay.{IsRandom}
use atmega_a.Setup.{set_node_registers}
use atmega_a.Setup.Fresh.{IsMemory, mesh_initialize-IsValid}
use atmega_a.RegisterHost.{start_radio, init_radio, Sample, nibble_digit, initialize_registers}
use atmega_a.RegisterHost.Names.{id_text, digits, digits_lem, nibble_range, with_id_name_lem}

-- The register is one of the library, with the id and a suffix as its name, and with the value.
pub record IsServed (id : ℕ) (suffix value : List ℕ) (reg : Register) : Type 0 where
  pub register : IsRegister reg
  pub stores : Stores reg (id_text id ++ suffix) value (length value)

-- What the array of a register holds, told by the name, the value and what is behind them.
laid_out :
    (id : ℕ) (suffix value behind : List ℕ) (reg : Register)
    → id < 2 ^ 16
    → IsRegister reg
    → reg.name_len ≡ length (digits id ++ suffix)
    → reg.data_len ≡ length value
    → reg.contents ≡ (digits id ++ suffix) ++ (value ++ behind)
    → IsServed id suffix value reg
laid_out id suffix value behind reg h valid names values there = record {
  register = valid;
  stores = rw (digits_lem id h) (
    names,
    values,
    (λ k l. rw there (byte_at-append_front (digits id ++ suffix) (value ++ behind) k l)),
    λ k l. rw there (
        byte_at-append_behind (digits id ++ suffix) (value ++ behind) k
        ∙ byte_at-append_front value behind k l),
  );
}

-- The three registers that the sample serves.
pub record Serves (id : ℕ) (s : Sample) : Type 0 where
  pub a : IsServed id (codes "_A") (b'A' ∷ 0 ∷ []) s.reg_a
  pub b : IsServed id (codes "_B") (0 ∷ 0 ∷ 2 ∷ 154 ∷ []) s.reg_b
  pub c : IsServed id (codes "_C") (b'C' ∷ 0 ∷ []) s.reg_c

digit-IsByte : (id power : ℕ) → IsByte (nibble_digit id power)
digit-IsByte id power = omega (arith, nibble_range id power)

-- What the two setters leave in a register of the sample, with a letter as its value and with 666.
abbrev named : List ℕ → Option ℕ → Option ℕ → Register
named name s g = (set_register_name_str (register_initialize s g) name).1

letter-IsServed :
    (id y : ℕ) (s g : Option ℕ)
    → id < 2 ^ 16
    → IsByte y
    → IsServed id
        (b'_' ∷ y ∷ [])
        (y ∷ 0 ∷ [])
        (set_register_value_str (named (digits id ++ (b'_' ∷ y ∷ [])) s g) (y ∷ [])).1
unfolding register_initialize set_register_name_str set_register_value_str memcpy
letter-IsServed id y s g h y_byte =
    laid_out id (b'_' ∷ y ∷ []) (y ∷ 0 ∷ []) (replicate 49 0) _ h
      (record {
        size = refl;
        bytes = (
          digit-IsByte id (2 ^ 12),
          (
            digit-IsByte id (2 ^ 8),
            (
              digit-IsByte id (2 ^ 4),
              (
                digit-IsByte id (2 ^ 0),
                (omega arith, (y_byte, (y_byte, All-replicate IsByte 50 0 (omega arith)))),
              ),
            ),
          ),
        );
        name_fits = omega arith;
        data_fits = omega arith;
      })
      refl refl refl

number-IsServed :
    (id y : ℕ) (s g : Option ℕ)
    → id < 2 ^ 16
    → IsByte y
    → IsServed id
        (b'_' ∷ y ∷ [])
        (0 ∷ 0 ∷ 2 ∷ 154 ∷ [])
        (set_register_value_u32 (named (digits id ++ (b'_' ∷ y ∷ [])) s g) 666).1
unfolding register_initialize set_register_name_str set_register_value_u32 memcpy
number-IsServed id y s g h y_byte =
    laid_out id (b'_' ∷ y ∷ []) (0 ∷ 0 ∷ 2 ∷ 154 ∷ []) (replicate 47 0) _ h
      (record {
        size = refl;
        bytes = (
          digit-IsByte id (2 ^ 12),
          (
            digit-IsByte id (2 ^ 8),
            (
              digit-IsByte id (2 ^ 4),
              (
                digit-IsByte id (2 ^ 0),
                (
                  omega arith,
                  (
                    y_byte,
                    (
                      omega arith,
                      (
                        omega arith,
                        (omega arith, (omega arith, All-replicate IsByte 47 0 (omega arith))),
                      ),
                    ),
                  ),
                ),
              ),
            ),
          ),
        );
        name_fits = omega arith;
        data_fits = omega arith;
      })
      refl refl refl

served_in :
    (h : Sample) (b0 b1 b2 b3 b4 b5 b6 : ℕ) (rest : List ℕ)
    → h.node.unique_id < 2 ^ 16
    → Serves
        (h.node.unique_id)
        (initialize_registers (record h { ascii_buffer = b0 ∷ b1 ∷ b2 ∷ b3 ∷ b4 ∷ b5 ∷ b6 ∷ rest }))
unfolding initialize_registers
served_in h b0 b1 b2 b3 b4 b5 b6 rest word =
    let id = h.node.unique_id in
    let d = λ (power : ℕ). nibble_digit id power in
    let first =
      with_id_name_lem id b'_' b'A' b0 b1 b2 b3 b4 b5 b6 rest (register_initialize none none)
        (λ e. omega arith) (λ e. omega arith) in
    let second =
      with_id_name_lem id b'_' b'B' (d 4096) (d 256) (d 16) (d 1) b'_' b'A' 0 rest
        (register_initialize (some 0) (some 0)) (λ e. omega arith) (λ e. omega arith) in
    let third =
      with_id_name_lem id b'_' b'C' (d 4096) (d 256) (d 16) (d 1) b'_' b'B' 0 rest
        (register_initialize (some 1) none) (λ e. omega arith) (λ e. omega arith) in
    rw first (
      rw second (
        rw third (record {
          a = letter-IsServed id b'A' none none word (omega arith);
          b = number-IsServed id b'B' (some 0) (some 0) word (omega arith);
          c = letter-IsServed id b'C' (some 1) none word (omega arith);
        })))

-- The same of every buffer of seven bytes or more.
initialize_registers-Serves :
    (h : Sample) (buffer : List ℕ)
    → 7 ≤ length buffer
    → h.node.unique_id < 2 ^ 16
    → Serves (h.node.unique_id) (initialize_registers (record h { ascii_buffer = buffer }))
initialize_registers-Serves h (b0 ∷ b1 ∷ b2 ∷ b3 ∷ b4 ∷ b5 ∷ b6 ∷ rest) room word =
    served_in h b0 b1 b2 b3 b4 b5 b6 rest word
initialize_registers-Serves h (b0 ∷ b1 ∷ b2 ∷ b3 ∷ b4 ∷ b5 ∷ []) room word = absurd (omega arith)
initialize_registers-Serves h (b0 ∷ b1 ∷ b2 ∷ b3 ∷ b4 ∷ []) room word = absurd (omega arith)
initialize_registers-Serves h (b0 ∷ b1 ∷ b2 ∷ b3 ∷ []) room word = absurd (omega arith)
initialize_registers-Serves h (b0 ∷ b1 ∷ b2 ∷ []) room word = absurd (omega arith)
initialize_registers-Serves h (b0 ∷ b1 ∷ []) room word = absurd (omega arith)
initialize_registers-Serves h (b0 ∷ []) room word = absurd (omega arith)
initialize_registers-Serves h [] room word = absurd (omega arith)

module _ ⦃io : Io⦄ where
  -- With a lawful random number generator, memory in order and a buffer of 64 bytes, `init_radio` gives a
  -- valid node, whatever the radio answers, that serves three registers: they are named by the unique
  -- id of the node, which is not 0, in four hexadecimal digits and by _A, _B and _C, and they hold
  -- the text A, the number 666 and the text C.
  pub init_radio-Serves :
      (h : Sample)
      → IsRandom io
      → IsMemory h.node
      → length h.ascii_buffer ≡ 64
      → let s = init_radio h in
        IsValid s.node
        × (s.node.num_registers ≡ 3)
        × (s.node.registers ≡ s.reg_a ∷ s.reg_b ∷ s.reg_c ∷ [])
        × (1 ≤ s.node.unique_id)
        × Serves (s.node.unique_id) s
  unfolding init_radio set_node_registers
  init_radio-Serves h lawful memory size =
      let bare =
        mesh_initialize-IsValid 7 8 0xdb042679 0x03 0 7 0 h.node [] 0 lawful memory tt (omega arith)
          (omega arith) in
      let served =
        initialize_registers-Serves (start_radio h) h.ascii_buffer (omega (arith, size))
          (bare.0.unique_word) in
      let s = initialize_registers (start_radio h) in
      let (valid, low, _, _) =
        mesh_initialize-IsValid 7 8 0xdb042679 0x03 0 7 0 h.node (s.reg_a ∷ s.reg_b ∷ s.reg_c ∷ [])
          3 lawful memory (served.a.register, (served.b.register, (served.c.register, tt)))
          (omega arith) (omega arith) in
      (IsValid-world valid _, refl, refl, low, record { a = served.a; b = served.b; c = served.c })
