-- ===== src/Broadcasts/Lost.antt =====
-- What the cache of broadcasts loses once something was taken out of it.
use atmega_a.Prelude.{◌≡◌, refl, ◌∙◌, arith, false, none, some, List, [], ◌∷◌, length, get_or}
use atmega_a.Register.{Register, max_array_size, register_name_cmp, register_copy}
use atmega_a.Register.Copies.{copy_named}
use atmega_a.Broadcasts.Search.{append_found}
use atmega_a.Broadcasts.{
  Cache, slot, zero_register, broadcast_cache_init, broadcast_cache_append, broadcast_cache_pop,
  put_slot, same_name_from,
}

-- The cache after a broadcast came in and was taken out again, and two more came in.
abbrev pub emptied : Cache → Register → Cache
emptied c first = (broadcast_cache_pop (broadcast_cache_append (broadcast_cache_init c) first)).1

abbrev pub again : Cache → Register → Register → Register → Cache
again c first second third =
    broadcast_cache_append (broadcast_cache_append (emptied c first) second) third

module _ (first second third : Register) where
  lost_from :
      (c : Cache) (slots : List Register)
      → length slots ≡ 4
      → length (get_or slots 0 zero_register).contents ≡ max_array_size
      → length first.contents ≡ max_array_size
      → register_name_cmp first third ≡ false
      → let after = again (record c { slots = slots }) first second third in
        ((broadcast_cache_pop after).0 ≡ some 1)
        × (slot after 1 ≡ register_copy (get_or slots 1 zero_register) second)
        × ((broadcast_cache_pop (broadcast_cache_pop after).1).0 ≡ none)
  unfolding broadcast_cache_init broadcast_cache_append broadcast_cache_pop same_name_from
  lost_from c (a ∷ b ∷ rest) size d s named =
      let found : register_name_cmp (register_copy a first) third ≡ false =
        copy_named a first third d s ∙ named in
      let before : Cache =
        broadcast_cache_append (emptied (record c { slots = a ∷ b ∷ rest }) first) second in
      let after : Cache = again (record c { slots = a ∷ b ∷ rest }) first second third in
      let append : after ≡ put_slot before 0 third = append_found before third 0 (rw found) in
      rw append (refl, refl, refl)
  lost_from c (a ∷ []) size d s named = absurd (omega arith)
  lost_from c [] size d s named = absurd (omega arith)

  -- After the first broadcast of a register was taken out of a cache that was just initialised,
  -- a second and a third broadcast of that register leave only the second in line, and the value
  -- of the third is lost: it went to the slot that is not read.
  pub third_broadcast_lost :
      (c : Cache)
      → length c.slots ≡ 4
      → length (slot c 0).contents ≡ max_array_size
      → length first.contents ≡ max_array_size
      → register_name_cmp first third ≡ false
      → let after = again c first second third in
        ((broadcast_cache_pop after).0 ≡ some 1)
        × (slot after 1 ≡ register_copy (slot c 1) second)
        × ((broadcast_cache_pop (broadcast_cache_pop after).1).0 ≡ none)
  third_broadcast_lost c size d s named = lost_from c c.slots size d s named
