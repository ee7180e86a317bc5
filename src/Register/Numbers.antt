-- ===== src/Register/Numbers.antt =====
-- A 32-bit value of a register: the setter against the getter.
use atmega_a.Prelude.{
  ℕ, ◌+◌, ◌*◌, ◌/◌, ◌%◌, ◌^◌, ◌≤◌, ◌<◌, ◌≡◌, ◌∙◌, ap, refl, arith, true, false, some, List, length,
  set, byte_at, length-set, get_or-set, bit_or, or_byte, if◌then◌else◌, ltb, ◌==◌, ◌||◌,
}
use atmega_a.Register.{
  Register, max_array_size, value_room, set_register_value_u32, u32_from, get_register_value_u32,
}

-- Four bytes written one behind the other.
abbrev put_four : List ℕ → ℕ → ℕ → ℕ → ℕ → ℕ → List ℕ
put_four xs o a b c d = set (set (set (set xs o a) (o + 1) b) (o + 2) c) (o + 3) d

module _ (xs : List ℕ) (o a b c d : ℕ) where
  put_four_lem :
      o + 4 ≤ length xs
      → (byte_at (put_four xs o a b c d) (o + 0) ≡ a)
        × (byte_at (put_four xs o a b c d) (o + 1) ≡ b)
        × (byte_at (put_four xs o a b c d) (o + 2) ≡ c)
        × (byte_at (put_four xs o a b c d) (o + 3) ≡ d)
  put_four_lem h = (at 0 (omega arith), at 1 (omega arith), at 2 (omega arith), at 3 (omega arith))
    where
      at :
          (k : ℕ)
          → k < 4
          → byte_at (put_four xs o a b c d) (o + k)
            ≡ (if ltb k 1 then a else if ltb k 2 then b else if ltb k 3 then c else d)
      at k l = ground (
        arith,
        length-set xs o a,
        length-set (set xs o a) (o + 1) b,
        length-set (set (set xs o a) (o + 1) b) (o + 2) c,
        get_or-set (set (set (set xs o a) (o + 1) b) (o + 2) c) (o + 3) (o + k) d 0,
        get_or-set (set (set xs o a) (o + 1) b) (o + 2) (o + k) c 0,
        get_or-set (set xs o a) (o + 1) (o + k) b 0,
        get_or-set xs o (o + k) a 0,
      )

  put_four_before : (i : ℕ) → i < o → byte_at (put_four xs o a b c d) i ≡ byte_at xs i
  put_four_before i l = ground (
    arith,
    get_or-set (set (set (set xs o a) (o + 1) b) (o + 2) c) (o + 3) i d 0,
    get_or-set (set (set xs o a) (o + 1) b) (o + 2) i c 0,
    get_or-set (set xs o a) (o + 1) i b 0,
    get_or-set xs o i a 0,
  )

-- One round of the getter's loop, on a value of at most three bytes.
or_round : (d b : ℕ) → d < 2 ^ 24 → b < 256 → bit_or (d * 256 % 2 ^ 32) b ≡ d * 256 + b
or_round d b h l = ap (λ t. bit_or t b) (omega arith) ∙ or_byte d b l

-- The loop of the getter puts four bytes together, the highest first.
u32_from_four :
    (xs : List ℕ) (o a b c d : ℕ)
    → byte_at xs (o + 0) ≡ a
    → byte_at xs (o + 1) ≡ b
    → byte_at xs (o + 2) ≡ c
    → byte_at xs (o + 3) ≡ d
    → a < 256
    → b < 256
    → c < 256
    → d < 256
    → u32_from xs o 4 0 0 ≡ ((a * 256 + b) * 256 + c) * 256 + d
unfolding u32_from
u32_from_four xs o a b c d ea eb ec ed ha hb hc hd =
    rw
      (
        ea,
        eb,
        ec,
        ed,
        or_byte 0 a ha,
        or_round (0 * 256 + a) b (omega arith) hb,
        or_round ((0 * 256 + a) * 256 + b) c (omega arith) hc,
        or_round (((0 * 256 + a) * 256 + b) * 256 + c) d (omega arith) hd,
      )
      (omega arith)

u32_from-put_four :
    (xs : List ℕ) (o a b c d : ℕ)
    → o + 4 ≤ length xs
    → a < 256
    → b < 256
    → c < 256
    → d < 256
    → u32_from (put_four xs o a b c d) o 4 0 0 ≡ ((a * 256 + b) * 256 + c) * 256 + d
u32_from-put_four xs o a b c d h =
    let f = put_four_lem xs o a b c d h in
    u32_from_four (put_four xs o a b c d) o a b c d f.0 f.1 f.2 f.3

set_u32_fits :
    (reg : Register) (value : ℕ)
    → reg.name_len + 4 ≤ max_array_size
    → set_register_value_u32 reg value ≡ (
      true,
      record reg {
        contents =
            put_four reg.contents reg.name_len
              (value / 2 ^ 24 % 256)
              (value / 2 ^ 16 % 256)
              (value / 2 ^ 8 % 256)
              (value % 256);
        data_len = 4;
      },
    )
unfolding set_register_value_u32
set_u32_fits reg value h =
    let e : (value_room reg == 0 || ltb (value_room reg) 4) ≡ false = ground arith in rw e

-- If four bytes fit behind the name, a 32-bit value is stored, the getter gives it back, and the
-- name stays.
pub get_u32-set_u32 :
    (reg : Register) (value : ℕ)
    → length reg.contents ≡ max_array_size
    → reg.name_len + 4 ≤ max_array_size
    → value < 2 ^ 32
    → let (done, after) = set_register_value_u32 reg value in
      (done ≡ true)
      × (get_register_value_u32 after ≡ (true, some value))
      × (after.name_len ≡ reg.name_len)
      × ((i : ℕ) → i < reg.name_len → byte_at after.contents i ≡ byte_at reg.contents i)
unfolding get_register_value_u32
get_u32-set_u32 reg value size room small = rw (set_u32_fits reg value room) (
  refl,
  ap (λ (v : ℕ). (true, some v))
      (u32_from-put_four reg.contents reg.name_len (value / 2 ^ 24 % 256) (value / 2 ^ 16 % 256)
          (value / 2 ^ 8 % 256) (value % 256) (omega arith) (omega arith) (omega arith)
          (omega arith) (omega arith)
        ∙ omega arith),
  refl,
  put_four_before reg.contents reg.name_len (value / 2 ^ 24 % 256) (value / 2 ^ 16 % 256)
      (value / 2 ^ 8 % 256) (value % 256),
)
