-- ===== src/Host.antt =====
-- The serial interface, atmega_a7105.ino: its globals, what it prints, the callback of the broadcasts
-- and its calls of the library. The whole line of a command is read in Console.
pub mod Steps
pub mod Lawful
use Prim.Native.String.{String}
use atmega_a.Prelude.{
  ℕ, zero, suc, ◌+◌, ◌-◌, ◌*◌, ◌/◌, ◌%◌, ◌^◌, Bool, true, false, not, ◌&&◌, ◌||◌, Option, none,
  some, List, [], ◌∷◌, ◌++◌, ltb, ◌==◌, if◌then◌else◌, set,
}
use atmega_a.World.{Io, World, M, available, write_text, give_up}
use atmega_a.Register.{Register, get_register_name_str, get_register_value_str}
use atmega_a.Mesh.{
  Status, no_status, ok, timeout, invalid_register_index, invalid_register_length,
  invalid_register_returned, invalid_register_value, not_on_mesh, mesh_busy, mesh_full,
  mesh_already_joining, radio_init_error, radio_calibration_error, radio_invalid_channel,
  auto_set_register, Mesh, Client, on_radio,
}
use atmega_a.Update.{update}
use atmega_a.Broadcasts.{
  Cache, slot, zero_register, broadcast_cache_append, broadcast_cache_pop, broadcast_cache_init,
}
use atmega_a.Text.{codes, c_string, decimal, ascii_buffer_size}

-- The globals RADIO, HOST_LISTENING, ECHO, the cache of broadcasts and ASCII_BUFFER. REG_BUFFER is
-- what RADIO.broadcast_cache points to from A7105_Mesh_Broadcast_Listen on.
pub record Host : Type 0 where
  pub node : Mesh
  pub host_listening : Bool
  pub echo : Bool
  pub broadcasts : Cache
  pub ascii_buffer : List ℕ

abbrev pub H : Type 0 → Type 0
H A = Host → A × Host

infixl 5 ◌>>=◌ ◌>>◌
abbrev pub ◌>>=◌ : {A B : Type 0} → H A → (A → H B) → H B
◌>>=◌ m f h = let (a, h') = m h in f a h'

abbrev pub ◌>>◌ : {B : Type 0} → H (Unit {0}) → H B → H B
m >> k = m >>= λ _. k

abbrev pub pure : {A : Type 0} → A → H A
pure a h = (a, h)

-- A call of the serial port or the clock, and one of the library.
abbrev pub on_world : {A : Type 0} → M A → H A
on_world f h = let (a, m) = on_radio (λ _. f) h.node in (a, record h { node = m })

abbrev pub on_node : {A : Type 0} → (Mesh → A × Mesh) → H A
on_node f h = let (a, m) = f h.node in (a, record h { node = m })

-- The register in REG_BUFFER.
abbrev pub or_zero : Option Register → Register
or_zero none = zero_register
or_zero (some reg) = reg

abbrev pub reg_buffer : Host → Register
reg_buffer h = or_zero h.node.broadcast_cache

abbrev pub set_reg_buffer : Register → Host → Host
set_reg_buffer reg h = record h { node = record (h.node) { broadcast_cache = some reg } }

abbrev pub set_buffer : List ℕ → Host → Host
set_buffer buffer h = record h { ascii_buffer = buffer }

-- `SerialPrint_P` and `Serial.print` of a text, of ASCII_BUFFER, and of a number.
unfoldable pub print : List ℕ → H (Unit {0})
print s = on_world (write_text s)

unfoldable pub putstring : String → H (Unit {0})
unfolding print
putstring s = print (codes s)

unfoldable pub print_buffer : H (Unit {0})
unfolding print
print_buffer h = print (c_string h.ascii_buffer) h

unfoldable pub print_number : ℕ → H (Unit {0})
unfolding print
print_number k = print (decimal k)

-- The line end, `putstring("\r\n")` or that of `Serial.println`.
unfoldable pub print_line : H (Unit {0})
unfolding print
print_line = print (13 ∷ 10 ∷ [])

-- The number of a status in its `enum`.
unfoldable pub status_number : Status → ℕ
status_number no_status = 0
status_number ok = 1
status_number timeout = 2
status_number invalid_register_index = 3
status_number invalid_register_length = 4
status_number invalid_register_returned = 5
status_number invalid_register_value = 6
status_number not_on_mesh = 7
status_number mesh_busy = 8
status_number mesh_full = 9
status_number mesh_already_joining = 10
status_number radio_init_error = 11
status_number radio_calibration_error = 12
status_number radio_invalid_channel = 13
status_number auto_set_register = 14

-- `output_error`
unfoldable pub output_error : Status → String → H (Unit {0})
unfolding putstring print_number print_line status_number
output_error err_code str = do
  putstring "ERROR,"
  print_number (status_number err_code)
  putstring ","
  putstring str
  print_line

-- The errors that end in the text of ASCII_BUFFER in quotes.
unfoldable pub output_quoted : String → H (Unit {0})
unfolding putstring print_number print_buffer print_line status_number
output_quoted str = do
  putstring "ERROR,"
  print_number (status_number no_status)
  putstring str
  print_buffer
  print (b'"' ∷ [])
  print_line

-- `A7105_Mesh_Util_GetRegisterNameStr(..., ASCII_BUFFER, ASCII_BUFFER_SIZE)`, and the same of a value.
unfoldable pub name_to_buffer : Register → H ℕ
name_to_buffer reg h =
    let (n, buffer) = get_register_name_str reg h.ascii_buffer ascii_buffer_size in
    (n, set_buffer buffer h)

unfoldable pub value_to_buffer : Register → H ℕ
value_to_buffer reg h =
    let (n, buffer) = get_register_value_str reg h.ascii_buffer ascii_buffer_size in
    (n, set_buffer buffer h)

-- A line REGISTER_VALUE,<name>,<value>
unfoldable pub print_register : Register → H (Unit {0})
unfolding putstring name_to_buffer value_to_buffer print_buffer print_line
print_register reg = do
  putstring "REGISTER_VALUE"
  putstring ","
  name_to_buffer reg >>= λ _. print_buffer
  putstring ","
  value_to_buffer reg >>= λ _. print_buffer
  print_line

-- `value_broadcast_callback`, with the register in REG_BUFFER.
unfoldable pub value_broadcast_callback : Register → Host → Host
unfolding print_register
value_broadcast_callback reg h =
    if h.host_listening
    then (print_register reg h).1
    else record h { broadcasts = broadcast_cache_append h.broadcasts reg }

-- The sketch as the client of its node. It sets no callback but that of the broadcasts and has no
-- registers. The broadcast callback changes the globals of the sketch: what it is called with is
-- kept, and `settle` makes the change right after the call of the library.
instance abbrev pub serial_client : Client
serial_client = record {
  finished = λ k s m. m;
  on_set_register = λ k i m. (no_status, m);
  on_get_register = λ k i m. m;
  on_broadcast = λ k m. record m {
    world = record (m.world) { told = m.world.told ++ (or_zero m.broadcast_cache ∷ []) };
  };
}

unfoldable pub tell : List Register → Host → Host
unfolding value_broadcast_callback
tell [] h = h
tell (reg ∷ regs) h = tell regs (value_broadcast_callback reg h)

abbrev pub untold : Mesh → Mesh
untold m = record m { world = record (m.world) { told = [] } }

-- The calls of the callback during a call of the library, in their order. HOST_LISTENING and the
-- cache do not change otherwise during such a call, and the library reads none of them.
unfoldable pub settle : Host → Host
unfolding tell
settle h = tell h.node.world.told (record h { node = untold h.node })

module _ ⦃io : Io⦄ where
  -- A call of the library that runs `A7105_Mesh_Update`.
  unfoldable pub call : {A : Type 0} → (Mesh → A × Mesh) → H A
  unfolding settle
  call f h = let (a, h') = on_node f h in (a, settle h')

  -- `A7105_Mesh_Update(&(RADIO))`
  unfoldable pub update_node : H (Unit {0})
  unfolding call
  update_node = call (λ m. (tt, update m))
