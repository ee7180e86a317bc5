-- ===== src/Register/Strings.antt =====
-- A register's name and its string value: the setters against the getters.
use atmega_a.Prelude.{
  ℕ, ◌+◌, ◌-◌, ◌%◌, ◌≤◌, ◌<◌, ◌≡◌, ◌∙◌, ap, refl, arith, true, false, List, length, set, byte_at,
  memcpy, length-memcpy, get_or-set_self, get_or-set_ne, byte_at-memcpy, byte_at-memcpy_outside,
  ltb, ◌==◌, ◌||◌,
}
use atmega_a.Register.{
  Register, max_array_size, max_part_size, value_room, set_register_name_str,
  set_register_value_str, get_register_name_str, get_register_value_str, string_room,
}

-- What both getters of strings leave in the buffer: the bytes and a NUL.
string_out :
    (buffer src : List ℕ) (o n : ℕ)
    → n < length buffer
    → let out = set (memcpy buffer 0 src o n) n 0 in
      ((i : ℕ) → i < n → byte_at out i ≡ byte_at src (o + i)) × (byte_at out n ≡ 0)
string_out buffer src o n h = (
  λ i l.
      get_or-set_ne (memcpy buffer 0 src o n) n i 0 0 (λ e. omega arith)
      ∙ ap (byte_at (memcpy buffer 0 src o n)) (omega arith)
      ∙ byte_at-memcpy buffer 0 src o n i (omega arith) l,
  get_or-set_self (memcpy buffer 0 src o n) n 0 0 (omega (arith, length-memcpy buffer 0 src o n)),
)

string_room_lem : (n size : ℕ) → n < size → size ≤ 255 → string_room n size ≡ n
string_room_lem n size h l = ground arith

pub set_name_fits :
    (reg : Register) (name : List ℕ)
    → length name ≤ max_part_size
    → set_register_name_str reg name ≡ (
      max_part_size - length name,
      record reg { name_len = length name; contents = memcpy reg.contents 0 name 0 (length name) },
    )
unfolding set_register_name_str
set_name_fits reg name h =
    let e : ltb max_part_size (length name) ≡ false = ground arith in
    let l : length name % 256 ≡ length name = omega arith in rw (e, l)

-- A name of at most 55 characters is stored, and the getter gives it back with a NUL behind it,
-- into a buffer of at most 255 bytes with room for both.
pub get_name-set_name :
    (reg : Register) (name buffer : List ℕ)
    → length reg.contents ≡ max_array_size
    → length name ≤ max_part_size
    → length name < length buffer
    → length buffer ≤ 255
    → let after = (set_register_name_str reg name).1 in
      let (n, out) = get_register_name_str after buffer (length buffer) in
      (n ≡ length name)
      × ((i : ℕ) → i < length name → byte_at out i ≡ byte_at name i)
      × (byte_at out (length name) ≡ 0)
unfolding get_register_name_str
get_name-set_name reg name buffer size fits room cap =
    rw (set_name_fits reg name fits, string_room_lem (length name) (length buffer) room cap)
      (
        omega arith,
        λ i l.
            (string_out buffer stored 0 (length name) room).0 i l
            ∙ byte_at-memcpy reg.contents 0 name 0 (length name) i (omega arith) l
            ∙ ap (byte_at name) (omega arith),
        (string_out buffer stored 0 (length name) room).1,
      )
  where
    stored : List ℕ
    stored = memcpy reg.contents 0 name 0 (length name)

pub set_value_fits :
    (reg : Register) (value : List ℕ)
    → reg.name_len + length value < max_array_size
    → set_register_value_str reg value ≡ (
      true,
      record reg {
        contents = memcpy reg.contents reg.name_len value 0 (length value + 1);
        data_len = length value + 1;
      },
    )
unfolding set_register_value_str
set_value_fits reg value h =
    let e : (value_room reg == 0 || ltb (value_room reg - 1) (length value)) ≡ false =
      ground arith in
    let l : (length value + 1) % 256 ≡ length value + 1 = omega arith in rw (e, l)

-- A string value that fits behind the name with its NUL is stored with it, the name stays, and
-- the getter gives back the string, its NUL counted, into a buffer of at most 255 bytes that is
-- longer than that.
pub get_value-set_value :
    (reg : Register) (value buffer : List ℕ)
    → length reg.contents ≡ max_array_size
    → reg.name_len + length value < max_array_size
    → length value + 1 < length buffer
    → length buffer ≤ 255
    → let (done, after) = set_register_value_str reg value in
      let (n, out) = get_register_value_str after buffer (length buffer) in
      (done ≡ true)
      × (n ≡ length value + 1)
      × ((i : ℕ) → i < length value + 1 → byte_at out i ≡ byte_at value i)
      × ((i : ℕ) → i < reg.name_len → byte_at after.contents i ≡ byte_at reg.contents i)
unfolding get_register_value_str
get_value-set_value reg value buffer size fits room cap =
    rw (set_value_fits reg value fits, string_room_lem (length value + 1) (length buffer) room cap)
      (
        refl,
        omega arith,
        λ i l.
            (string_out buffer stored reg.name_len (length value + 1) room).0 i l
            ∙ byte_at-memcpy reg.contents reg.name_len value 0 (length value + 1) i (omega arith) l
            ∙ ap (byte_at value) (omega arith),
        λ i l.
            byte_at-memcpy_outside reg.contents reg.name_len value 0 (length value + 1) i
              (ground arith),
      )
  where
    stored : List ℕ
    stored = memcpy reg.contents reg.name_len value 0 (length value + 1)
