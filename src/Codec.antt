-- ===== src/Codec.antt =====
-- How a register travels in a packet: the `_A7105_Mesh_Util_*` functions of
-- libraries/a7105_mesh/a7105_mesh.cpp that join packets and registers.
pub mod Send
pub mod Receive
pub mod Layout
pub mod RoundTrip
pub mod Names
use atmega_a.Prelude.{
  ℕ, zero, suc, ◌+◌, Bool, true, false, not, ◌&&◌, ◌||◌, Option, none, some, List, [], ltb, ◌==◌,
  if◌then◌else◌, get_or, set, byte_at, memcpy, mem_eq,
}
use atmega_a.Packet.{
  at_type, at_data_start, at_name_start, pkt_register_name, pkt_get_register, pkt_set_register,
}
use atmega_a.Register.{Register, max_array_size}

-- The sanity check of `_A7105_Mesh_Util_Register_To_Packet`.
abbrev pub is_sendable : Register → Bool → Bool
is_sendable reg include_value =
    let total_size = reg.name_len + reg.data_len in
    not (ltb total_size 1 || ltb max_array_size total_size || ltb total_size 2 && include_value)

-- The name with its length, and the value with its length behind it.
unfoldable pub put_name : List ℕ → Register → List ℕ
put_name packet reg =
    memcpy (set packet at_data_start reg.name_len) (at_data_start + 1) reg.contents 0 reg.name_len

unfoldable pub put_value : List ℕ → Register → List ℕ
put_value packet reg =
    memcpy (set packet (at_data_start + 1 + reg.name_len) reg.data_len)
      (at_data_start + 1 + reg.name_len + 1) reg.contents reg.name_len reg.data_len

-- `_A7105_Mesh_Util_Register_To_Packet`: the result and the packet.
unfoldable pub register_to_packet : List ℕ → Register → Bool → Bool × List ℕ
register_to_packet packet reg include_value =
    if not (is_sendable reg include_value)
    then (false, packet)
    else (true, if include_value then put_value (put_name packet reg) reg else put_name packet reg)

-- The sanity check of `_A7105_Mesh_Util_Packet_To_Register`.
abbrev pub is_readable : List ℕ → Bool → Bool
is_readable packet include_value =
    let name_size = byte_at packet at_data_start in
    let total_size = name_size + byte_at packet (at_data_start + (name_size + 1)) in
    not (name_size == 0 || ltb max_array_size name_size)
    && not (include_value && (ltb total_size 2 || ltb max_array_size total_size))

unfoldable pub take_name : List ℕ → Register → Register
take_name packet reg = record reg {
  name_len = byte_at packet at_data_start;
  contents = memcpy reg.contents 0 packet (at_data_start + 1) (byte_at packet at_data_start);
}

unfoldable pub take_value : List ℕ → Register → Register
take_value packet reg =
    let offset = at_data_start + 1 + reg.name_len in
    record reg {
      data_len = byte_at packet offset;
      contents = memcpy reg.contents reg.name_len packet (offset + 1) (byte_at packet offset);
    }

-- `_A7105_Mesh_Util_Packet_To_Register`: the result and the register.
unfoldable pub packet_to_register : List ℕ → Register → Bool → Bool × Register
packet_to_register packet reg include_value =
    if not (is_readable packet include_value) then (false, reg) else (
      true,
      if include_value then take_value packet (take_name packet reg) else take_name packet reg,
    )

-- `_A7105_Mesh_Util_Get_Register_Index`. The length in a received packet is not checked, so the
-- code may read behind the packet; such a read gives 0 here.
unfoldable pub get_register_index : List ℕ → ℕ
get_register_index packet =
    if not (byte_at packet at_type == pkt_register_name)
    then 255
    else byte_at packet (at_data_start + byte_at packet at_data_start + 1)

-- `_A7105_Mesh_Util_Set_Register_Index`: the result and the packet.
unfoldable pub set_register_index : List ℕ → ℕ → ℕ × List ℕ
set_register_index packet index =
    if not (byte_at packet at_type == pkt_register_name)
    then (0, packet)
    else (1, set packet (at_data_start + byte_at packet at_data_start + 1) index)

-- `_A7105_Mesh_Cmp_Packet_Register`. The value is compared as the code does it: the bytes of
-- `_data` from its start with those of the packet from the value's length on.
unfoldable pub cmp_packet_register : List ℕ → Register → Bool → Bool
cmp_packet_register packet reg include_value =
    if reg.name_len == byte_at packet at_data_start
      && mem_eq reg.contents 0 packet at_name_start (byte_at packet at_data_start)
    then (if include_value
        then (let expected_len = byte_at packet (at_name_start + reg.name_len) in
            reg.data_len == expected_len
            && mem_eq reg.contents 0 packet (at_name_start + reg.name_len) expected_len)
        else true)
    else false

-- The loop of `_A7105_Mesh_Util_Does_Packet_Have_Register`: `n` rounds left, at index `x`.
unfoldable pub has_name_from : List ℕ → List ℕ → ℕ → ℕ → Bool
has_name_from packet contents zero x = true
has_name_from packet contents (suc n) x =
    if not (byte_at packet (at_data_start + 1 + x) == byte_at contents x)
    then false
    else has_name_from packet contents n (suc x)

-- `_A7105_Mesh_Util_Does_Packet_Have_Register`
unfoldable pub does_packet_have_register : List ℕ → Register → Bool
does_packet_have_register packet reg =
    if not (byte_at packet at_type == pkt_get_register)
      && not (byte_at packet at_type == pkt_set_register)
    then false
    else if not (reg.name_len == byte_at packet at_data_start)
    then false
    else has_name_from packet reg.contents reg.name_len 0

-- What a read of `registers[x]` outside of the array stands for.
abbrev pub no_register : Register
no_register = record {
  contents = [];
  name_len = 0;
  data_len = 0;
  error_set = 0;
  set_callback = none;
  get_callback = none;
}

-- The loop of `_A7105_Mesh_Filter_RegisterName`: `n` rounds left, at index `x`.
unfoldable pub filter_from : List ℕ → List Register → ℕ → ℕ → Option ℕ
filter_from packet registers zero x = none
filter_from packet registers (suc n) x =
    if cmp_packet_register packet (get_or registers x no_register) false
    then some x
    else filter_from packet registers n (suc x)

-- `_A7105_Mesh_Filter_RegisterName`, on the node's packet and registers; `none` is -1.
unfoldable pub filter_register_name : List ℕ → List Register → ℕ → Option ℕ
filter_register_name packet registers num_registers = filter_from packet registers num_registers 0
