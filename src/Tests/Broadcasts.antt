-- ===== src/Tests/Broadcasts.antt =====
-- The cache of broadcasts at concrete inputs.
use atmega_a.Prelude.{ℕ, ◌≡◌, refl, none, some, replicate, mem_eq}
use atmega_a.Register.{register_initialize, register_copy, register_name_cmp}
use atmega_a.Broadcasts.{
  Cache, slot, zero_register, broadcast_cache_init, broadcast_cache_append, broadcast_cache_pop,
}
use atmega_a.Broadcasts.Latest.{IsFresh, Holds, broadcast_cache_init-IsFresh, append_latest}
use atmega_a.Broadcasts.Lost.{again, third_broadcast_lost}
use atmega_a.Tests.{letter}

abbrev empty : Cache
empty =
    broadcast_cache_init
      (record { ending = 2; start = 1; size = 1; overflow = 0; slots = replicate 4 zero_register })

empty-IsFresh : IsFresh empty
unfolding register_initialize
empty-IsFresh = broadcast_cache_init-IsFresh _ refl (refl, (refl, (refl, (refl, tt))))

append_latest_example :
    IsFresh (broadcast_cache_append empty letter)
    × (x : ℕ) × Holds empty (broadcast_cache_append empty letter) letter x
append_latest_example = append_latest empty letter empty-IsFresh refl

third_broadcast_lost_example :
    let after = again empty letter letter letter in
    ((broadcast_cache_pop after).0 ≡ some 1)
    × (slot after 1 ≡ register_copy (slot empty 1) letter)
    × ((broadcast_cache_pop (broadcast_cache_pop after).1).0 ≡ none)
unfolding register_initialize register_name_cmp broadcast_cache_init mem_eq
third_broadcast_lost_example = third_broadcast_lost letter letter letter empty refl refl refl refl
