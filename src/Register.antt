-- ===== src/Register.antt =====
-- `struct A7105_Mesh_Register` and the register functions of
-- libraries/a7105_mesh/a7105_mesh.cpp. A C string is the list of its characters before the NUL.
pub mod Numbers
pub mod Strings
pub mod Copies
use atmega_a.Prelude.{
  ℕ, zero, suc, ◌+◌, ◌-◌, ◌*◌, ◌/◌, ◌%◌, ◌^◌, Bool, true, false, not, ◌&&◌, ◌||◌, Option, none,
  some, List, ltb, ◌==◌, ◌≤◌, ◌≡◌, All, if◌then◌else◌, length, set, replicate, byte_at, memcpy,
  mem_eq, bit_or,
}
use atmega_a.Packet.{IsByte}

-- A7105_MESH_MAX_REGISTER_ARRAY_SIZE and A7105_MESH_MAX_REGISTER_PART_SIZE. The macros have no
-- parentheses, but each use of them is a sum, where none are needed.
abbrev pub max_array_size : ℕ
max_array_size = 57

abbrev pub max_part_size : ℕ
max_part_size = 55

-- A callback of the client is the number by which the client knows it; `none` is NULL.
pub record Register : Type 0 where
  pub contents : List ℕ  -- _data
  pub name_len : ℕ
  pub data_len : ℕ
  pub error_set : ℕ
  pub set_callback : Option ℕ
  pub get_callback : Option ℕ

-- What a register of the library holds: an array of 57 bytes and lengths that fit in it.
pub record IsRegister (r : Register) : Type 0 where
  pub size : length r.contents ≡ max_array_size
  pub bytes : All IsByte r.contents
  pub name_fits : r.name_len ≤ max_array_size
  pub data_fits : r.data_len ≤ max_array_size

-- `A7105_Mesh_Register_Initialize`
unfoldable pub register_initialize : Option ℕ → Option ℕ → Register
register_initialize s g = record {
  contents = replicate max_array_size 0;
  name_len = 0;
  data_len = 0;
  error_set = 0;
  set_callback = s;
  get_callback = g;
}

-- `_A7105_Mesh_Register_Clear_Error`
unfoldable pub register_clear_error : Register → Register
register_clear_error reg = record reg { error_set = 0 }

-- `A7105_Mesh_Register_Copy`: the callbacks of the destination stay.
unfoldable pub register_copy : Register → Register → Register
register_copy dest src = record dest {
  name_len = src.name_len;
  data_len = src.data_len;
  contents = memcpy dest.contents 0 src.contents 0 max_array_size;
  error_set = src.error_set;
}

-- `A7105_Mesh_Util_RegisterNameCmp`: whether the result is not 0. What `memcmp` tells of the order
-- of two names that differ is not modelled; its callers do not look at it.
unfoldable pub register_name_cmp : Register → Register → Bool
register_name_cmp a b =
    if not (a.name_len == 0) && a.name_len == b.name_len
    then not (mem_eq a.contents 0 b.contents 0 a.name_len)
    else true

-- `A7105_Mesh_Util_SetRegisterNameStr`
unfoldable pub set_register_name_str : Register → List ℕ → ℕ × Register
set_register_name_str reg name = if ltb max_part_size (length name) then (0, reg) else (
  max_part_size - length name % 256,
  record reg {
    name_len = length name % 256;
    contents = memcpy reg.contents 0 name 0 (length name % 256);
  },
)

-- `unsigned long max_len`: it wraps where the name length is past the array.
abbrev pub value_room : Register → ℕ
value_room reg = (max_array_size + 2 ^ 32 - reg.name_len) % 2 ^ 32

-- `A7105_Mesh_Util_SetRegisterValueStr`. The copy takes the NUL along: a read past the
-- characters of `value` gives it.
unfoldable pub set_register_value_str : Register → List ℕ → Bool × Register
set_register_value_str reg value =
    if value_room reg == 0 || ltb (value_room reg - 1) (length value) then (false, reg) else (
      true,
      record reg {
        contents = memcpy reg.contents reg.name_len value 0 (length value + 1);
        data_len = (length value + 1) % 256;
      },
    )

-- `A7105_Mesh_Util_SetRegisterValueU32`
unfoldable pub set_register_value_u32 : Register → ℕ → Bool × Register
set_register_value_u32 reg value =
    if value_room reg == 0 || ltb (value_room reg) 4 then (false, reg) else (
      true,
      record reg {
        contents =
            set
              (set
                (set (set reg.contents offset (value / 2 ^ 24 % 256)) (offset + 1)
                  (value / 2 ^ 16 % 256))
                (offset + 2) (value / 2 ^ 8 % 256))
              (offset + 3) (value % 256);
        data_len = 4;
      },
    )
  where
    offset : ℕ
    offset = reg.name_len

-- The copy length of the two getters of strings, for a buffer length of at least 1.
abbrev pub string_room : ℕ → ℕ → ℕ
string_room len buffer_len =
    let capped = if ltb 0xFF buffer_len then 0xFF else buffer_len in
    if ltb (capped - 1) len then capped - 1 else len

-- `A7105_Mesh_Util_GetRegisterNameStr`
unfoldable pub get_register_name_str : Register → List ℕ → ℕ → ℕ × List ℕ
get_register_name_str reg buffer buffer_len =
    let n = string_room reg.name_len buffer_len in
    (n % 256, set (memcpy buffer 0 reg.contents 0 n) n 0)

-- `A7105_Mesh_Util_GetRegisterValueStr`
unfoldable pub get_register_value_str : Register → List ℕ → ℕ → ℕ × List ℕ
get_register_value_str reg buffer buffer_len =
    let n = string_room reg.data_len buffer_len in
    (n % 256, set (memcpy buffer 0 reg.contents reg.name_len n) n 0)

-- The loop of `A7105_Mesh_Util_GetRegisterValueU32`: `n` rounds left, at round `x`.
unfoldable pub u32_from : List ℕ → ℕ → ℕ → ℕ → ℕ → ℕ
u32_from contents offset zero x dest = dest
u32_from contents offset (suc n) x dest =
    u32_from contents offset n (suc x)
      (bit_or (dest * 2 ^ 8 % 2 ^ 32) (byte_at contents (offset + x)))

-- `A7105_Mesh_Util_GetRegisterValueU32`: the result and what is stored through `dest`.
unfoldable pub get_register_value_u32 : Register → Bool × Option ℕ
unfolding u32_from
get_register_value_u32 reg =
    if reg.data_len == 4
    then (true, some (u32_from reg.contents reg.name_len 4 0 0))
    else (false, none)
