-- ===== src/Commands/Values.antt =====
-- The commands GET_REGISTER, SET_REGISTER and VALUE_BROADCAST of the serial interface,
-- atmega_a7105.ino.
pub mod Given
pub mod Stored
pub mod Unchecked
use atmega_a.Prelude.{
  ℕ, zero, suc, ◌+◌, ◌-◌, ◌/◌, ◌%◌, ◌^◌, Bool, true, false, not, Option, none, some, List, ltb, leb,
  ◌==◌, if◌then◌else◌,
}
use atmega_a.World.{Io}
use atmega_a.Register.{
  Register, set_register_name_str, set_register_value_str, set_register_value_u32,
  get_register_value_u32,
}
use atmega_a.Mesh.{Status, ok, invalid_register_returned, Mesh}
use atmega_a.Values.{broadcast}
use atmega_a.Blocking.{mesh_get_register, mesh_set_register}
use atmega_a.Text.{codes, c_string, store_hex_from, hex_from, atol}
use atmega_a.Host.{
  Host, H, ◌>>=◌, ◌>>◌, pure, on_node, reg_buffer, set_reg_buffer, print, putstring, print_buffer,
  print_number, print_line, output_error, output_quoted, name_to_buffer, value_to_buffer,
  serial_client, call,
}
use atmega_a.Console.{
  Format, fmt_error, fmt_string, fmt_binary, fmt_uint32, is_bad_length, get_serial_cmd,
  read_reg_format,
}

-- REG_BUFFER with the name from ASCII_BUFFER; what the setter returns is not looked at.
unfoldable pub store_name : Host → Host
store_name h = set_reg_buffer (set_register_name_str (reg_buffer h) (c_string h.ascii_buffer)).1 h

-- REG_BUFFER with the value from ASCII_BUFFER, whose length is `name_len`, in a format: what is
-- complained of where the value is refused.
pub data Outcome : Type 0 where
  taken : Register → Outcome
  refused : Outcome
  odd : Outcome

unfoldable pub taken_if : Bool × Register → Outcome
taken_if (true, reg) = taken reg
taken_if (false, reg) = refused

-- The loop over the digits makes a round for each two of `name_len` characters, an even number.
unfoldable pub store_hex : Register → List ℕ → ℕ → Outcome
store_hex reg buffer name_len =
    if not (name_len % 2 == 0)
    then odd
    else taken (record reg {
      contents = store_hex_from buffer (name_len / 2) 0 reg.contents reg.name_len;
      data_len = name_len / 2 % 256;
    })

unfoldable pub store_text : Format → ℕ → Register → List ℕ → Outcome
unfolding taken_if store_hex
store_text fmt_string name_len reg buffer = taken_if (set_register_value_str reg (c_string buffer))
store_text fmt_binary name_len reg buffer = store_hex reg buffer name_len
store_text fmt_uint32 name_len reg buffer =
    taken_if (set_register_value_u32 reg (atol (c_string buffer)))
store_text fmt_error name_len reg buffer = taken reg

unfoldable pub answer_taken : Outcome → H Bool
answer_taken (taken reg) = λ h. (true, set_reg_buffer reg h)
answer_taken refused = output_quoted ",Invalid Register Value Specified: \"" >> pure false
answer_taken odd =
    output_quoted ",Invalid register value. Binary data must have an even number of characters: \""
    >> pure false

unfoldable pub answer_format : Format → H Format
answer_format fmt_error = output_quoted ",Invalid Data Format Specified: \"" >> pure fmt_error
answer_format format = pure format

module _ ⦃io : Io⦄ where
  -- The start of the three commands: the name and the format; `fmt_error` if one of them was bad,
  -- which was answered then.
  unfoldable pub read_name_and_format : H Format
  unfolding store_name answer_format
  read_name_and_format = get_serial_cmd false >>= λ name_len. elim (is_bad_length name_len) [
    | true ↦ output_quoted ",Invalid Register Name: \"" >> pure fmt_error
    | false ↦ (λ h. (tt, store_name h)) >> (read_reg_format >>= answer_format)
  ]

  -- The value of a command, put in REG_BUFFER, and whether it was taken; if not, this was answered.
  unfoldable pub read_value : Format → H Bool
  unfolding store_text answer_taken
  read_value expected_format = get_serial_cmd false >>= λ name_len h.
      answer_taken (store_text expected_format name_len (reg_buffer h) h.ascii_buffer) h

  unfoldable pub read_given : Format → H Bool
  unfolding read_value
  read_given fmt_error = pure false
  read_given format = read_value format

  -- The register that a command gives by name, format and value, in REG_BUFFER: whether it is there.
  unfoldable pub read_register : H Bool
  unfolding read_name_and_format read_given
  read_register = read_name_and_format >>= read_given

  -- A line of `get_register`: its name, the name of the register and the value that a step prints.
  unfoldable pub print_got : H (Unit {0}) → H (Unit {0})
  print_got value =
      putstring "GET_REGISTER"
      >> (putstring "," >> (print_buffer >> (putstring "," >> (value >> print_line))))

  -- What `get_register` prints of the register that came back, in the three formats.
  unfoldable pub print_value : Format → Register → H (Unit {0})
  unfolding print_got
  print_value fmt_string reg = value_to_buffer reg >>= λ len. elim (len % 256 == 0) [
    | true ↦ output_error invalid_register_returned "Empty value returned"
    | false ↦ name_to_buffer reg >>= λ _. print_got (value_to_buffer reg >>= λ _. print_buffer)
  ]
  print_value fmt_binary reg = name_to_buffer reg >>= λ _.
      print_got (print (hex_from reg.contents reg.data_len reg.name_len))
  print_value fmt_uint32 reg = name_to_buffer reg >>= λ _. elim (get_register_value_u32 reg).1 [
    | none ↦ output_error invalid_register_returned "Invalid U32 value returned"
    | some value ↦ print_got (print_number value)
  ]
  print_value fmt_error reg = pure tt

  -- `get_register`
  unfoldable pub get_register : H (Unit {0})
  unfolding read_name_and_format print_value
  get_register = read_name_and_format >>= λ expected_format. elim expected_format [
    | fmt_error ↦ pure tt
    | format ↦ (λ h. call (mesh_get_register (reg_buffer h) none) h) >>= λ status. elim status [
      | ok ↦ λ h. print_value format h.node.register_cache h
      | failure ↦ output_error failure "Error getting register"
    ]
  ]

  -- `set_register`
  unfoldable pub set_register : H (Unit {0})
  unfolding read_register
  set_register = read_register >>= λ given. elim given [
    | false ↦ pure tt
    | true ↦ (λ h. call (mesh_set_register (reg_buffer h) none) h) >>= λ status. elim status [
      | ok ↦
          putstring "SET_REGISTER_ACK"
          >> (putstring ","
              >> ((λ h. name_to_buffer (reg_buffer h) h) >>= λ _. print_buffer >> print_line))
      | failure ↦ output_error failure "Error setting register"
    ]
  ]

  -- `value_broadcast`
  unfoldable pub value_broadcast : H (Unit {0})
  unfolding read_register
  value_broadcast = read_register >>= λ given. elim given [
    | false ↦ pure tt
    | true ↦ (λ h. on_node (broadcast (reg_buffer h)) h) >>= λ status. elim status [
      | ok ↦ putstring "READY" >> print_line
      | failure ↦ output_error failure "Error broadcasting value"
    ]
  ]
