-- ===== src/Commands/Values/Stored.antt =====
-- What the register in REG_BUFFER is after a line of SET_REGISTER or VALUE_BROADCAST in the formats
-- STRING and BINARY.
use atmega_a.Prelude.{
  ℕ, ◌+◌, ◌*◌, ◌/◌, ◌%◌, ◌≤◌, ◌<◌, ◌≡◌, ◌≢◌, ◌∙◌, refl, ap, arith, Bool, true, List, ◌++◌, map,
  length, byte_at, ◌==◌, All, memcpy, length-memcpy, byte_at-memcpy, byte_at-memcpy_start,
  byte_at-memcpy_outside,
}
use atmega_a.World.{Io, Event}
use atmega_a.Packet.{IsByte}
use atmega_a.Register.{Register, max_array_size, max_part_size}
use atmega_a.Register.Strings.{set_name_fits, set_value_fits}
use atmega_a.Text.{codes, c_string, to_upper, hex_from, store_hex_from}
use atmega_a.Text.Strings.{byte_at-c_string}
use atmega_a.Text.Hex.{length-hex_from, store_hex_from-hex_from}
use atmega_a.Host.{Host, reg_buffer, set_reg_buffer}
use atmega_a.Console.{Format, fmt_error, fmt_string, fmt_binary, format_of}
use atmega_a.Console.Char.{at}
use atmega_a.Commands.Values.{taken, store_text, answer_taken, read_register}
use atmega_a.Commands.Values.Given.{Line, with_name, read_register_line}

-- The line was taken: REG_BUFFER holds `reg`, `rest` still waits with what came in late, and apart from
-- ASCII_BUFFER and events nothing else happened.
pub record Takes (h : Host) (rest : List ℕ) (reg : Register) (r : Bool × Host) : Type 0 where
  pub buffer : List ℕ
  pub events : List Event
  pub late : List ℕ
  pub result : r ≡ (true, at (set_reg_buffer reg h) buffer events (rest ++ late))

-- The register has the name, and the first `size` bytes of `value` as its value.
abbrev pub Stores : Register → List ℕ → List ℕ → ℕ → Type 0
Stores reg name value size =
    (reg.name_len ≡ length name)
    × (reg.data_len ≡ size)
    × ((k : ℕ) → k < length name → byte_at reg.contents k ≡ byte_at name k)
    × ((k : ℕ) → k < size → byte_at reg.contents (length name + k) ≡ byte_at value k)

module _ ⦃io : Io⦄ (h : Host) (name format value rest : List ℕ)
    (line : Line h name format value rest) where
  takes :
      (f : Format) (reg : (buffer : List ℕ) → Register)
      → format_of (map to_upper format) ≡ f
      → f ≢ fmt_error
      → ((buffer : List ℕ)
          → c_string buffer ≡ value
          → store_text f (length value) (with_name h name) buffer ≡ taken (reg buffer))
      → (buffer : List ℕ) × (c_string buffer ≡ value) × Takes h rest (reg buffer) (read_register h)
  unfolding answer_taken
  takes f reg e good kept =
      let (buffer, events, late, text, result) =
        read_register_line h name format value rest line f e good in
      (
        buffer,
        text,
        record {
          buffer = buffer;
          events = events;
          late = late;
          result =
              result
              ∙ ap
                  (λ t.
                    answer_taken t
                      (at (set_reg_buffer (with_name h name) h) buffer events (rest ++ late)))
                  (kept buffer text);
        },
      )

  -- REG_BUFFER with its name set.
  named_lem :
      length name ≤ max_part_size
      → with_name h name ≡ record (reg_buffer h) {
        name_len = length name;
        contents = memcpy (reg_buffer h).contents 0 name 0 (length name);
      }
  named_lem fits = ap (λ p. p.1) (set_name_fits (reg_buffer h) name fits)

  -- The bytes of REG_BUFFER with the name in front.
  abbrev front : List ℕ
  front = memcpy (reg_buffer h).contents 0 name 0 (length name)

  abbrev named : Register
  named = record (reg_buffer h) { name_len = length name; contents = front }

  front_size : length (reg_buffer h).contents ≡ max_array_size → length front ≡ max_array_size
  front_size size = length-memcpy (reg_buffer h).contents 0 name 0 (length name) ∙ size

  front_name :
      length (reg_buffer h).contents ≡ max_array_size
      → length name ≤ max_part_size
      → (k : ℕ) → k < length name
      → byte_at front k ≡ byte_at name k
  front_name size fits k l =
      byte_at-memcpy_start (reg_buffer h).contents name 0 (length name) k (omega arith) l
      ∙ ap (byte_at name) (omega arith)

  -- If a whole line of name, format and value already waits at the serial port, with ECHO off and a
  -- buffer of 64 bytes, then in the format STRING, with a name that has at most 55 characters and fits
  -- in 57 bytes with the value and its NUL, it puts a register of exactly that name and value in
  -- REG_BUFFER. Each part has less than 63 characters and no comma, line feed, carriage return or NUL,
  -- name and format have one at least, and the wait for the serial port has 63 rounds or more.
  pub string_given :
      map to_upper format ≡ codes "STRING"
      → length (reg_buffer h).contents ≡ max_array_size
      → length name ≤ max_part_size
      → length name + length value < max_array_size
      → (reg : Register) × Takes h rest reg (read_register h)
        × Stores reg name value (length value + 1)
  unfolding store_text format_of
  string_given e size fits room =
      let (_, _, outcome) =
        takes fmt_string (λ buffer. stored) (rw e refl) (λ q. cc)
          λ buffer text. rw (text, named_lem fits, set_value_fits named value room) refl in
      (
        stored,
        outcome,
        (
          refl,
          refl,
          λ k l.
              byte_at-memcpy_outside front (length name) value 0 (length value + 1) k (ground arith)
              ∙ front_name size fits k l,
          λ k l.
              byte_at-memcpy front (length name) value 0 (length value + 1) k
                (omega (arith, front_size size)) l
              ∙ ap (byte_at value) (omega arith),
        ),
      )
    where
      stored : Register
      stored = record named {
        contents = memcpy front (length name) value 0 (length value + 1);
        data_len = length value + 1;
      }

  -- If a whole line of name, format and value already waits at the serial port, with ECHO off and a
  -- buffer of 64 bytes, then in the format BINARY, with a value that is the hexadecimal text of some bytes,
  -- 31 at most, and a name that has at most 55 characters and fits in 57 bytes with those, it puts a
  -- register of exactly that name and those bytes in REG_BUFFER. Each part has less than 63 characters and
  -- no comma, line feed, carriage return or NUL, name and format have one at least, and the wait for the
  -- serial port has 63 rounds or more.
  pub binary_given :
      (bytes : List ℕ)
      → map to_upper format ≡ codes "BINARY"
      → All IsByte bytes
      → value ≡ hex_from bytes (length bytes) 0
      → length (reg_buffer h).contents ≡ max_array_size
      → length name ≤ max_part_size
      → length name + length bytes ≤ max_array_size
      → (reg : Register) × Takes h rest reg (read_register h) × Stores reg name bytes (length bytes)
  unfolding store_text format_of
  binary_given bytes e are_bytes digits size fits room =
      let (buffer, text, outcome) =
        takes fmt_binary stored (rw e refl) (λ q. cc)
          λ buffer text. rw (named_lem fits, even, half, small) refl in
      let (kept_size, later, before) =
        store_hex_from-hex_from bytes buffer front (length bytes) 0 0 (length name) are_bytes
          front_room (same buffer text) in
      (
        stored buffer,
        outcome,
        (
          refl,
          refl,
          λ k l. before k l ∙ front_name size fits k l,
          λ k l. later k l ∙ ap (byte_at bytes) (omega arith),
        ),
      )
    where
      stored : List ℕ → Register
      stored buffer = record named {
        contents = store_hex_from buffer (length bytes) 0 front (length name);
        data_len = length bytes;
      }

      value_size : length value ≡ length bytes * 2
      value_size = ap length digits ∙ length-hex_from bytes (length bytes) 0 are_bytes

      even : (length value % 2 == 0) ≡ true
      even = ground (arith, value_size)

      half : length value / 2 ≡ length bytes
      half = omega (arith, value_size)

      small : length bytes % 256 ≡ length bytes
      small = omega arith

      front_room : length name + length bytes ≤ length front
      front_room = omega (arith, front_size size)

      same :
          (buffer : List ℕ)
          → c_string buffer ≡ value
          → (k : ℕ) → k < length bytes * 2
          → byte_at buffer (0 + k) ≡ byte_at (hex_from bytes (length bytes) 0) k
      same buffer text k l =
          ap (byte_at buffer) (omega arith)
          ∙ byte_at-c_string buffer k (omega (arith, ap length text, value_size))
          ∙ ap (λ s. byte_at s k) (text ∙ digits)
