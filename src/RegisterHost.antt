-- ===== src/RegisterHost.antt =====
-- The sample node that serves three registers: examples/register_host_test/atmega_a7105.ino.
pub mod Names
pub mod Served
pub mod Lawful
use Prim.Native.String.{String}
use atmega_a.Prelude.{
  ℕ, zero, suc, ◌+◌, ◌-◌, ◌/◌, ◌%◌, ◌^◌, true, false, Option, none, some, List, [], ◌∷◌, ◌++◌, ltb,
  ◌==◌, if◌then◌else◌, set, replicate,
}
use atmega_a.World.{Io, M, write_text, emit, pin_output, pin_input}
use atmega_a.Register.{
  Register, register_initialize, set_register_name_str, set_register_value_str,
  set_register_value_u32, get_register_value_str,
}
use atmega_a.Mesh.{Status, ok, invalid_register_value, Mesh, Client, on_radio}
use atmega_a.Values.{register_set_error}
use atmega_a.Setup.{mesh_initialize, set_node_registers}
use atmega_a.Update.{update}
use atmega_a.Blocking.{mesh_join_first}
use atmega_a.Text.{codes, c_string, decimal, hexadecimal, ascii_buffer_size}

-- The globals RADIO, `regs` (A, B and C in order) and ASCII_BUFFER. From A7105_Mesh_Set_Node_Registers
-- on RADIO.registers is `regs`, and the sample itself does not look at them again.
pub record Sample : Type 0 where
  pub node : Mesh
  pub reg_a : Register
  pub reg_b : Register
  pub reg_c : Register
  pub ascii_buffer : List ℕ

-- The digit of the four bits of `src` at `shift`, which is `2 ^ shift` here.
abbrev pub nibble_digit : ℕ → ℕ → ℕ
nibble_digit src power =
    let working = src / power % 16 in if ltb working 10 then working + b'0' else working - 10 + b'A'

-- `uint16_to_str`: the four rounds of its loop, and the NUL.
unfoldable pub uint16_to_str : ℕ → List ℕ → List ℕ
uint16_to_str src target =
    let one = set target 0 (nibble_digit src (2 ^ 12)) in
    let two = set one 1 (nibble_digit src (2 ^ 8)) in
    let three = set two 2 (nibble_digit src (2 ^ 4)) in
    set (set three 3 (nibble_digit src (2 ^ 0))) 4 0

-- `strcat`: the text goes behind the string that the buffer holds, with its NUL.
abbrev pub write_from : List ℕ → ℕ → List ℕ → List ℕ
write_from buffer i [] = set buffer i 0
write_from buffer i (c ∷ s) = write_from (set buffer i c) (i + 1) s

abbrev pub text_length : List ℕ → ℕ
text_length [] = 0
text_length (c ∷ s) = suc (text_length s)

unfoldable pub strcat : List ℕ → List ℕ → List ℕ
strcat buffer s = write_from buffer (text_length (c_string buffer)) s

-- What is printed on the serial port by the callbacks.
abbrev pub say : List ℕ → Mesh → Mesh
say s m = (on_radio (λ _. write_text s) m).1

-- The local buffer of `b_set_register_called`.
abbrev pub tmp : List ℕ
tmp = replicate 64 0

-- `b_set_register_called`
unfoldable pub b_set_register_called : Mesh → Status × Mesh
b_set_register_called m =
    let said = say (codes "Suggested value is: \"") (say (codes "B SET_REGISTER called\r\n") m) in
    let value = c_string (get_register_value_str said.register_cache tmp 64).1 in
    (ok, say (codes "\"\r\n") (say value said))

-- `c_set_register_called`
unfoldable pub c_set_register_called : Mesh → Status × Mesh
c_set_register_called m = (
  invalid_register_value,
  register_set_error (codes "dunno, broke?") (say (codes "C SET_REGISTER called\r\n") m),
)

-- `b_get_register_called`; no caller looks at its status.
unfoldable pub b_get_register_called : Mesh → Mesh
b_get_register_called m = say (codes "GET_REGISTER called\r\n") m

-- The callbacks, by the numbers under which they are registered: the set callback of B is 0 and that of
-- C is 1.
unfoldable pub set_called : ℕ → Mesh → Status × Mesh
unfolding b_set_register_called c_set_register_called
set_called zero m = b_set_register_called m
set_called (suc k) m = c_set_register_called m

instance abbrev pub sample_client : Client
sample_client = record {
  finished = λ k s m. m;
  on_set_register = λ k i m. set_called k m;
  on_get_register = λ k i m. b_get_register_called m;
  on_broadcast = λ k m. m;
}

-- A register's name, the unique id of the node and a suffix.
unfoldable pub with_id_name : ℕ → List ℕ → List ℕ → Register → Register × List ℕ
unfolding uint16_to_str strcat
with_id_name unique_id suffix buffer reg =
    let named = strcat (uint16_to_str unique_id buffer) suffix in
    ((set_register_name_str reg (c_string named)).1, named)

-- The three registers, from their initialisation to their names and values.
unfoldable pub initialize_registers : Sample → Sample
initialize_registers h =
    let id = h.node.unique_id in
    let (a, buffer_a) =
      with_id_name id (codes "_A") h.ascii_buffer (register_initialize none none) in
    let (b, buffer_b) =
      with_id_name id (codes "_B") buffer_a (register_initialize (some 0) (some 0)) in
    let (c, buffer_c) = with_id_name id (codes "_C") buffer_b (register_initialize (some 1) none) in
    record h {
      reg_a = (set_register_value_str a (codes "A")).1;
      reg_b = (set_register_value_u32 b 666).1;
      reg_c = (set_register_value_str c (codes "C")).1;
      ascii_buffer = buffer_c;
    }

module _ ⦃io : Io⦄ where
  -- The start of `init_radio`: the radio, and what is printed of it. The unique id has no padding here.
  abbrev pub start_radio : Sample → Sample
  start_radio h =
      let (success, m) = mesh_initialize 7 8 0xdb042679 0x03 0 7 0 h.node in
      let started = say (codes "Radio 1 Init: ") m in
      let told = say (decimal (elim success [ ok ↦ 1 | _ ↦ 0 ])) started in
      let named = say (hexadecimal told.unique_id) (say (codes ", ID = ") told) in
      record h { node = say (13 ∷ 10 ∷ []) named }

  -- `init_radio`
  unfoldable pub init_radio : Sample → Sample
  unfolding initialize_registers
  init_radio h =
      let served = initialize_registers (start_radio h) in
      record served {
        node = set_node_registers (served.reg_a ∷ served.reg_b ∷ served.reg_c ∷ []) 3 served.node;
      }

  -- `setup`, and `loop`
  unfoldable pub setup : Sample → Sample
  setup h =
      let pins = λ (m : Mesh).
        (on_radio (λ _. emit (pin_output 13))
          (on_radio (λ _. emit (pin_input 12)) (on_radio (λ _. emit (pin_output 11)) m).1).1).1 in
      let started = init_radio (record h { node = pins h.node }) in
      record started { node = (mesh_join_first none started.node).1 }

  unfoldable pub loop : Sample → Sample
  loop h = record h { node = update h.node }
