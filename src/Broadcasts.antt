-- ===== src/Broadcasts.antt =====
-- The cache of the broadcasts that come in while the host does not listen: the serial interface,
-- atmega_a7105.ino (examples/serial_mesh_interface/atmega_a7105.ino is the same file).
mod Search
pub mod Latest
pub mod Lost
use atmega_a.Prelude.{
  ℕ, zero, suc, ◌+◌, ◌-◌, ◌%◌, ◌&&◌, Option, none, some, List, ltb, ◌==◌, if◌then◌else◌, get_or,
  set,
}
use atmega_a.Register.{Register, register_initialize, register_name_cmp, register_copy}

-- MAX_BROADCAST_CACHE_SIZE
abbrev pub max_broadcast_cache_size : ℕ
max_broadcast_cache_size = 4

-- BROADCAST_CACHE_END, _START, _SIZE and _OVERFLOW, all bytes, and BROADCAST_CACHE.
pub record Cache : Type 0 where
  pub ending : ℕ
  pub start : ℕ
  pub size : ℕ
  pub overflow : ℕ
  pub slots : List Register

-- A register of a global variable: all zeros.
abbrev pub zero_register : Register
zero_register = register_initialize none none

-- The register in a slot.
abbrev pub slot : Cache → ℕ → Register
slot c x = get_or c.slots x zero_register

-- `broadcast_cache_init`: the slots stay as they are.
unfoldable pub broadcast_cache_init : Cache → Cache
broadcast_cache_init c = record c { ending = 0; start = 0; size = 0; overflow = 0 }

-- The loop of `broadcast_cache_append` that looks for the name of `reg`, with `n` rounds left at `x`.
unfoldable pub same_name_from : Cache → Register → ℕ → ℕ → Option ℕ
same_name_from c reg zero x = none
same_name_from c reg (suc n) x =
    if register_name_cmp (slot c x) reg then same_name_from c reg n (suc x) else some x

-- `A7105_Mesh_Register_Copy(&(BROADCAST_CACHE[x]), &REG_BUFFER)`
unfoldable pub put_slot : Cache → ℕ → Register → Cache
put_slot c x reg = record c { slots = set c.slots x (register_copy (slot c x) reg) }

-- What follows the loop: the register goes to the end of the ring.
unfoldable pub append_at_end : Cache → Register → Cache
unfolding put_slot
append_at_end c reg =
    let grown = (c.size + 1) % 256 in
    record (put_slot c c.ending reg) {
      overflow =
          if c.size == max_broadcast_cache_size && ltb c.overflow 255
          then c.overflow + 1
          else c.overflow;
      ending = (c.ending + 1) % 256 % max_broadcast_cache_size;
      size = if ltb max_broadcast_cache_size grown then max_broadcast_cache_size else grown;
    }

-- `broadcast_cache_append`, for the value of REG_BUFFER.
unfoldable pub broadcast_cache_append : Cache → Register → Cache
unfolding put_slot append_at_end
broadcast_cache_append c reg = elim (same_name_from c reg c.size 0) [
  | some x ↦ put_slot c x reg
  | none ↦ append_at_end c reg
]

-- `broadcast_cache_pop`: the slot that the pointer names, where `none` is NULL.
unfoldable pub broadcast_cache_pop : Cache → Option ℕ × Cache
broadcast_cache_pop c = if c.size == 0 then (none, c) else (
  some c.start,
  record c { start = (c.start + 1) % 256 % max_broadcast_cache_size; size = c.size - 1 },
)
