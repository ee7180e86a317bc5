-- ===== src/Text.antt =====
-- The texts of the serial interface, atmega_a7105.ino: C strings in a buffer, numbers in decimal and
-- hexadecimal, and the functions of the C library that it reads them by.
pub mod Hex
pub mod Strings
use Prim.Native.Char.{code}
use Prim.Native.String.{String}
use atmega_a.Prelude.{
  ℕ, zero, suc, ◌+◌, ◌-◌, ◌*◌, ◌/◌, ◌%◌, ◌^◌, Bool, true, false, ◌&&◌, ◌||◌, List, [], ◌∷◌, ◌++◌,
  ltb, leb, ◌==◌, if◌then◌else◌, map, byte_at, set, bit_or,
}

-- The characters of a literal.
abbrev pub codes : String → List ℕ
codes String.[] = []
codes (String.◌∷◌ c s) = code c ∷ codes s

-- ASCII_BUFFER_SIZE, SERIAL_READ_TIMEOUT and HEX_CONV_ERR
abbrev pub ascii_buffer_size : ℕ
ascii_buffer_size = 64

abbrev pub serial_read_timeout : ℕ
serial_read_timeout = 1000

abbrev pub hex_conv_err : ℕ
hex_conv_err = 69

-- The string that starts at the start of an array: what stands before the first NUL.
abbrev pub c_string : List ℕ → List ℕ
c_string [] = []
c_string (c ∷ s) = elim c [ zero ↦ [] | suc k ↦ suc k ∷ c_string s ]

-- `strcmp_P(...) == 0`
abbrev pub same_text : List ℕ → List ℕ → Bool
same_text [] [] = true
same_text [] (d ∷ t) = false
same_text (c ∷ s) [] = false
same_text (c ∷ s) (d ∷ t) = c == d && same_text s t

-- `toupper`
abbrev pub to_upper : ℕ → ℕ
to_upper c = if leb b'a' c && leb c b'z' then c - 32 else c

-- The character of a hexadecimal digit, as `Serial.print` with HEX gives it.
abbrev pub hex_digit : ℕ → ℕ
hex_digit n = if ltb n 10 then b'0' + n else b'A' + (n - 10)

-- A byte in two hexadecimal digits: `if (curr < 0x10) putstring("0"); Serial.print(curr,HEX);`
unfoldable pub hex_byte : ℕ → List ℕ
hex_byte b =
    if ltb b 0x10 then b'0' ∷ hex_digit b ∷ [] else hex_digit (b / 16) ∷ hex_digit (b % 16) ∷ []

-- Bytes in hexadecimal: the loop of `get_register`, `n` rounds left at `x`.
unfoldable pub hex_from : List ℕ → ℕ → ℕ → List ℕ
unfolding hex_byte
hex_from bytes zero x = []
hex_from bytes (suc n) x = hex_byte (byte_at bytes x) ++ hex_from bytes n (suc x)

-- `ascii_hex_2_bin`
unfoldable pub ascii_hex_2_bin : ℕ → ℕ
ascii_hex_2_bin nibble =
    if leb nibble b'9' && leb b'0' nibble
    then nibble - b'0'
    else if leb b'A' nibble && leb nibble b'F'
    then nibble - b'A' + 10
    else hex_conv_err

-- The loop that stores a text in hexadecimal as bytes, `n` rounds left at the text's index `x`.
unfoldable pub store_hex_from : List ℕ → ℕ → ℕ → List ℕ → ℕ → List ℕ
unfolding ascii_hex_2_bin
store_hex_from text zero x bytes offset = bytes
store_hex_from text (suc n) x bytes offset =
    store_hex_from text n (x + 2)
      (set bytes offset (
        bit_or (ascii_hex_2_bin (byte_at text x) * 2 ^ 4) (ascii_hex_2_bin (byte_at text (x + 1)))
        % 256))
      (offset + 1)

-- A number in decimal, as `Serial.print` with DEC gives it; ten digits are enough for 32 bits.
decimal_from : ℕ → ℕ → List ℕ → List ℕ
decimal_from zero k digits = digits
decimal_from (suc n) k digits =
    let more = decimal_from n (k / 10) ((b'0' + k % 10) ∷ digits) in if k == 0 then digits else more

unfoldable pub decimal : ℕ → List ℕ
unfolding decimal_from
decimal k = if k == 0 then b'0' ∷ [] else decimal_from 10 k []

-- The same in hexadecimal, without leading zeros; eight digits are enough for 32 bits.
hexadecimal_from : ℕ → ℕ → List ℕ → List ℕ
hexadecimal_from zero k digits = digits
hexadecimal_from (suc n) k digits =
    let more = hexadecimal_from n (k / 16) (hex_digit (k % 16) ∷ digits) in
    if k == 0 then digits else more

unfoldable pub hexadecimal : ℕ → List ℕ
unfolding hexadecimal_from
hexadecimal k = if k == 0 then b'0' ∷ [] else hexadecimal_from 8 k []

-- `atol`, into 32 bits: blanks, a sign, and digits up to the first other character.
abbrev is_space : ℕ → Bool
is_space c = c == b' ' || leb 9 c && leb c 13

digits_from : List ℕ → ℕ → ℕ
digits_from [] v = v
digits_from (c ∷ s) v =
    let more = digits_from s ((v * 10 + (c - b'0')) % 2 ^ 32) in
    if leb b'0' c && leb c b'9' then more else v

signed_digits : List ℕ → ℕ
unfolding digits_from
signed_digits [] = 0
signed_digits (c ∷ s) =
    if c == b'-'
    then (2 ^ 32 - digits_from s 0) % 2 ^ 32
    else if c == b'+'
    then digits_from s 0
    else digits_from (c ∷ s) 0

-- `(uint32_t)atol(...)`
unfoldable pub atol : List ℕ → ℕ
unfolding signed_digits
atol [] = 0
atol (c ∷ s) = let rest = atol s in if is_space c then rest else signed_digits (c ∷ s)
