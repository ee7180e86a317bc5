-- ===== src/Codec/Layout.antt =====
-- Where a register's bytes stand in a packet, and a packet's bytes in a register.
use atmega_a.Prelude.{
  ℕ, ◌+◌, ◌≤◌, ◌<◌, ◌≡◌, ◌∙◌, ap, arith, List, length, set, byte_at, memcpy, length-set,
  length-memcpy, byte_at-memcpy, byte_at-memcpy_start, byte_at-memcpy_outside, get_or-set_self,
  get_or-set_ne,
}
use atmega_a.Packet.{packet_size, at_data_start}
use atmega_a.Register.{Register, max_array_size}
use atmega_a.Codec.{put_name, put_value, take_name, take_value}

-- The bytes of a packet from `register_to_packet`.
module _ (packet : List ℕ) (reg : Register) (size : length packet ≡ packet_size) where
  pub put_name_size : byte_at (put_name packet reg) at_data_start ≡ reg.name_len
  unfolding put_name
  put_name_size =
      byte_at-memcpy_outside (set packet 5 reg.name_len) 6 reg.contents 0 reg.name_len 5
        (ground arith)
      ∙ get_or-set_self packet 5 reg.name_len 0 (omega arith)

  pub put_name_bytes :
      (i : ℕ)
      → reg.name_len ≤ max_array_size
      → i < reg.name_len
      → byte_at (put_name packet reg) (6 + i) ≡ byte_at reg.contents i
  unfolding put_name
  put_name_bytes i h l =
      byte_at-memcpy (set packet 5 reg.name_len) 6 reg.contents 0 reg.name_len i
        (omega (arith, length-set packet 5 reg.name_len)) l
      ∙ ap (byte_at reg.contents) (omega arith)

  pub length-put_name : length (put_name packet reg) ≡ packet_size
  unfolding put_name
  length-put_name =
      length-memcpy (set packet 5 reg.name_len) 6 reg.contents 0 reg.name_len
      ∙ length-set packet 5 reg.name_len
      ∙ size

  pub put_value_before :
      (i : ℕ) → i < 6 + reg.name_len → byte_at (put_value packet reg) i ≡ byte_at packet i
  unfolding put_value
  put_value_before i l =
      byte_at-memcpy_outside (set packet (5 + 1 + reg.name_len) reg.data_len)
        (5 + 1 + reg.name_len + 1) reg.contents reg.name_len reg.data_len i (ground arith)
      ∙ get_or-set_ne packet (5 + 1 + reg.name_len) i reg.data_len 0 (λ e. omega arith)

  pub put_value_size :
      reg.name_len ≤ max_array_size
      → byte_at (put_value packet reg) (6 + reg.name_len) ≡ reg.data_len
  unfolding put_value
  put_value_size h =
      byte_at-memcpy_outside (set packet (5 + 1 + reg.name_len) reg.data_len)
        (5 + 1 + reg.name_len + 1) reg.contents reg.name_len reg.data_len (6 + reg.name_len)
        (ground arith)
      ∙ ap (byte_at (set packet (5 + 1 + reg.name_len) reg.data_len)) (omega arith)
      ∙ get_or-set_self packet (5 + 1 + reg.name_len) reg.data_len 0 (omega arith)

  pub put_value_bytes :
      (i : ℕ)
      → reg.name_len + reg.data_len ≤ max_array_size
      → i < reg.data_len
      → byte_at (put_value packet reg) (7 + reg.name_len + i)
        ≡ byte_at reg.contents (reg.name_len + i)
  unfolding put_value
  put_value_bytes i h l =
      ap (byte_at (put_value packet reg)) (omega arith)
      ∙ byte_at-memcpy (set packet (5 + 1 + reg.name_len) reg.data_len) (5 + 1 + reg.name_len + 1)
          reg.contents reg.name_len reg.data_len i
          (omega (arith, length-set packet (5 + 1 + reg.name_len) reg.data_len)) l

-- The packet with name and value in it.
abbrev pub full : List ℕ → Register → List ℕ
full packet reg = put_value (put_name packet reg) reg

-- The register read from a packet with name and value in it.
abbrev pub read_full : List ℕ → Register → Register
read_full packet dest = take_value packet (take_name packet dest)

module _ (packet : List ℕ) (reg : Register) (size : length packet ≡ packet_size)
    (fits : reg.name_len + reg.data_len ≤ max_array_size) where
  pub full_name_size : byte_at (full packet reg) at_data_start ≡ reg.name_len
  full_name_size =
      put_value_before (put_name packet reg) reg (length-put_name packet reg size) 5 (omega arith)
      ∙ put_name_size packet reg size

  pub full_name_bytes :
      (i : ℕ) → i < reg.name_len → byte_at (full packet reg) (6 + i) ≡ byte_at reg.contents i
  full_name_bytes i l =
      put_value_before (put_name packet reg) reg (length-put_name packet reg size) (6 + i)
        (omega arith)
      ∙ put_name_bytes packet reg size i (omega arith) l

  pub full_value_size : byte_at (full packet reg) (6 + reg.name_len) ≡ reg.data_len
  full_value_size =
      put_value_size (put_name packet reg) reg (length-put_name packet reg size) (omega arith)

  pub full_value_bytes :
      (i : ℕ)
      → i < reg.data_len
      → byte_at (full packet reg) (7 + reg.name_len + i) ≡ byte_at reg.contents (reg.name_len + i)
  full_value_bytes i l =
      put_value_bytes (put_name packet reg) reg (length-put_name packet reg size) i fits l

-- The bytes of the register read from any packet.
module _ (packet : List ℕ) (dest : Register) (size : length dest.contents ≡ max_array_size)
    (n d : ℕ) (named : byte_at packet at_data_start ≡ n) (valued : byte_at packet (6 + n) ≡ d)
    (fits : n + d ≤ max_array_size) where
  pub read_name_bytes :
      (i : ℕ) → i < n → byte_at (read_full packet dest).contents i ≡ byte_at packet (6 + i)
  unfolding take_name take_value
  read_name_bytes i l =
      byte_at-memcpy_outside (memcpy dest.contents 0 packet 6 (byte_at packet 5)) (byte_at packet 5)
        packet (6 + byte_at packet 5 + 1) (byte_at packet (6 + byte_at packet 5)) i (ground arith)
      ∙ byte_at-memcpy_start dest.contents packet 6 (byte_at packet 5) i (omega arith) (omega arith)

  pub read_value_bytes :
      (i : ℕ)
      → i < d
      → byte_at (read_full packet dest).contents (n + i) ≡ byte_at packet (7 + n + i)
  unfolding take_name take_value
  read_value_bytes i l =
      rw (named, valued)
        (byte_at-memcpy (memcpy dest.contents 0 packet 6 n) n packet (6 + n + 1) d i
            (omega (arith, length-memcpy dest.contents 0 packet 6 n)) l
          ∙ ap (byte_at packet) (omega arith))
