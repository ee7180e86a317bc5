-- ===== src/Console.antt =====
-- How the serial interface, atmega_a7105.ino, reads the fields of a command: `get_serial_cmd` and
-- `read_reg_format`.
pub mod Char
pub mod Written
pub mod Field
use atmega_a.Prelude.{
  ℕ, zero, suc, ◌+◌, ◌-◌, Bool, true, false, not, ◌&&◌, ◌||◌, List, [], ◌∷◌, ltb, leb, ◌==◌,
  if◌then◌else◌, length, set,
}
use atmega_a.World.{Io, available, read_byte, millis, give_up}
use atmega_a.Mesh.{elapsed}
use atmega_a.Text.{codes, c_string, same_text, to_upper, ascii_buffer_size, serial_read_timeout}
use atmega_a.Host.{Host, H, ◌>>=◌, ◌>>◌, pure, on_world, print, print_line, set_buffer, update_node}

-- `ASCII_BUFFER[index] = c`
abbrev pub put : ℕ → ℕ → H (Unit {0})
put index c h = (tt, set_buffer (set h.ascii_buffer index c) h)

-- The character that was read, or its capital.
abbrev pub cased : Bool → ℕ → ℕ
cased uppercase c = if uppercase then to_upper c else c

abbrev pub is_terminator : ℕ → Bool
is_terminator c = c == b'\n' || c == b','

abbrev pub is_return : ℕ → Bool
is_return c = c == 13

abbrev is_echoing : H Bool
is_echoing h = (h.echo, h)

abbrev pub nothing : H (Unit {0})
nothing = pure tt

-- The echo of a character.
abbrev pub echo_char : ℕ → H (Unit {0})
echo_char c = is_echoing >>= λ echoing. elim echoing [ true ↦ print (c ∷ []) | false ↦ nothing ]

abbrev pub echo_end : ℕ → H (Unit {0})
echo_end c = is_echoing >>= λ echoing. elim (echoing && not (c == b',')) [
  | true ↦ print_line
  | false ↦ nothing
]

module _ ⦃io : Io⦄ where
  -- `while (Serial.available() == 0 && millis()-now < SERIAL_READ_TIMEOUT)`, for at most `n` rounds.
  -- Without an end by then the world is stuck.
  unfoldable pub wait_serial : H (Unit {0}) → ℕ → ℕ → H (Unit {0})
  wait_serial body now zero = on_world give_up
  wait_serial body now (suc n) = on_world available >>= λ waiting. elim (waiting == 0) [
    | false ↦ nothing
    | true ↦ on_world millis >>= λ t. elim (ltb (elapsed t now) serial_read_timeout) [
      | false ↦ nothing
      | true ↦ body >> wait_serial body now n
    ]
  ]

  -- What the loop that reads characters does with one: whether it goes on, and the next index.
  unfoldable pub read_char : Bool → ℕ → H (Bool × ℕ)
  unfolding wait_serial
  read_char uppercase index = on_world read_byte >>= λ b.
      let c = cased uppercase b in
      put index c >> echo_char c >> elim (is_terminator c) [
        | true ↦ echo_end c >> put index 0 >> pure (false, index)
        | false ↦
            let next = if is_return c then index else index + 1 in
            put next 0
            >> (on_world millis >>= λ now.
                wait_serial update_node now io.patience
                >> (on_world available >>= λ waiting. pure (not (waiting == 0), next)))
      ]

  -- The loop that reads characters, with at most `n` characters left: a carriage return does not
  -- bring it nearer to its end.
  unfoldable pub read_chars : Bool → ℕ → ℕ → H ℕ
  unfolding read_char
  read_chars uppercase zero index = on_world give_up >>= λ _. pure index
  read_chars uppercase (suc n) index = elim (ltb index (ascii_buffer_size - 1)) [
    | false ↦ pure index
    | true ↦ read_char uppercase index >>= λ r. elim (r.0) [
      | true ↦ read_chars uppercase n (r.1)
      | false ↦ pure (r.1)
    ]
  ]

  -- The loop that skips to the next line, with at most `n` characters left.
  unfoldable pub skip_line : ℕ → H (Unit {0})
  skip_line zero = on_world give_up
  skip_line (suc n) = on_world available >>= λ waiting. elim (waiting == 0) [
    | true ↦ nothing
    | false ↦ on_world read_byte >>= λ c. elim (c == b'\n') [ true ↦ nothing | false ↦ skip_line n ]
  ]

  -- `get_serial_cmd`, whose argument is 1 where it is left out.
  unfoldable pub get_serial_cmd : Bool → H ℕ
  get_serial_cmd uppercase =
      put 0 0
      >> (on_world millis >>= λ now.
          wait_serial nothing now io.patience
          >> (on_world available >>= λ waiting.
              (elim (waiting == 0) [ true ↦ pure 0 | false ↦ read_chars uppercase io.patience 0 ])
              >>= λ index. elim (leb (ascii_buffer_size - 1) index) [
                | true ↦ skip_line io.patience >> pure index
                | false ↦ pure index
              ]))

-- `enum Reg_Data_Format`
pub data Format : Type 0 where
  fmt_error fmt_string fmt_binary fmt_uint32 : Format

-- The length of a field that is too long or empty.
abbrev pub is_bad_length : ℕ → Bool
is_bad_length name_len = ltb name_len 1 || leb (ascii_buffer_size - 1) name_len

-- The format that a text names.
unfoldable pub format_of : List ℕ → Format
format_of s =
    if same_text s (codes "UINT32")
    then fmt_uint32
    else if same_text s (codes "BINARY")
    then fmt_binary
    else if same_text s (codes "STRING")
    then fmt_string
    else fmt_error

-- `read_reg_format`
unfoldable pub read_reg_format : ⦃io : Io⦄ → H Format
unfolding format_of
read_reg_format = get_serial_cmd true >>= λ name_len h.
    (if is_bad_length name_len then fmt_error else format_of (c_string h.ascii_buffer), h)
