-- ===== src/RegisterHost/Names.antt =====
-- The names that the sample gives its registers,
-- examples/register_host_test/atmega_a7105.ino.
use atmega_a.Prelude.{ℕ, ◌/◌, ◌%◌, ◌^◌, ◌≤◌, ◌<◌, ◌≡◌, ◌≢◌, refl, arith, List, [], ◌∷◌, ◌++◌}
use atmega_a.Register.{Register, set_register_name_str}
use atmega_a.Text.{hex_digit, hex_byte}
use atmega_a.Text.Hex.{hex_byte_lem}
use atmega_a.Text.Strings.{c_string-append}
use atmega_a.RegisterHost.{nibble_digit, uint16_to_str, strcat, with_id_name}

-- The unique id as it is printed, two digits for each of its bytes.
abbrev pub id_text : ℕ → List ℕ
id_text id = hex_byte (id / 2 ^ 8) ++ hex_byte (id % 2 ^ 8)

pub digit_lem : (id power n : ℕ) → id / power % 16 ≡ n → nibble_digit id power ≡ hex_digit n
digit_lem id power n e = rw e (ground arith)

-- The digits of the sample's own loop.
abbrev pub digits : ℕ → List ℕ
digits id =
    nibble_digit id (2 ^ 12)
    ∷ nibble_digit id (2 ^ 8)
    ∷ nibble_digit id (2 ^ 4)
    ∷ nibble_digit id (2 ^ 0)
    ∷ []

pub digits_lem : (id : ℕ) → id < 2 ^ 16 → id_text id ≡ digits id
digits_lem id h =
    rw
      (
        hex_byte_lem (id / 2 ^ 8) (omega arith),
        hex_byte_lem (id % 2 ^ 8) (omega arith),
        digit_lem id (2 ^ 12) (id / 2 ^ 8 / 16) (omega arith),
        digit_lem id (2 ^ 8) (id / 2 ^ 8 % 16) (omega arith),
        digit_lem id (2 ^ 4) (id % 2 ^ 8 / 16) (omega arith),
        digit_lem id (2 ^ 0) (id % 2 ^ 8 % 16) (omega arith),
      )
      refl

pub nibble_range : (id power : ℕ) → (48 ≤ nibble_digit id power) × (nibble_digit id power < 71)
nibble_range id power = ground arith

-- A register's name from the digits and a suffix of two characters, in a buffer of seven at least.
pub with_id_name_lem :
    (id x y : ℕ) (b0 b1 b2 b3 b4 b5 b6 : ℕ) (rest : List ℕ) (reg : Register)
    → x ≢ 0
    → y ≢ 0
    → with_id_name id (x ∷ y ∷ []) (b0 ∷ b1 ∷ b2 ∷ b3 ∷ b4 ∷ b5 ∷ b6 ∷ rest) reg
      ≡ ((set_register_name_str reg (digits id ++ (x ∷ y ∷ []))).1, digits id ++ (x ∷ y ∷ 0 ∷ rest))
unfolding with_id_name uint16_to_str strcat
with_id_name_lem id x y b0 b1 b2 b3 b4 b5 b6 rest reg hx hy =
    rw
      (
        c_string-append (digits id) (b5 ∷ b6 ∷ rest)
            (there 4096, (there 256, (there 16, (there 1, tt)))),
        c_string-append (digits id ++ (x ∷ y ∷ [])) rest
            (there 4096, (there 256, (there 16, (there 1, (hx, (hy, tt)))))),
      )
      refl
  where
    there : (power : ℕ) → nibble_digit id power ≢ 0
    there power e = omega (arith, nibble_range id power)
