-- ===== src/Broadcasts/Latest.antt =====
-- The cache of broadcasts as long as nothing was taken out of it: it holds one value for a name.
use atmega_a.Prelude.{
  ℕ, ◌≤◌, ◌<◌, ◌≡◌, ◌≢◌, ◌∙◌, refl, sym, ap, arith, true, false, length, ltb, ◌==◌, length-set,
  get_or-set_self, get_or-set_ne, Bool-cases, Option-cases, inl, inr, All, All-set, All-get_or_in,
}
use atmega_a.Register.{Register, max_array_size, register_name_cmp, register_copy}
use atmega_a.Register.Copies.{
  copy_named, named_copy, name_sym, other_name_sym, name_trans, register_copy_lem,
}
use atmega_a.Broadcasts.Search.{append_found, append_missing, Answers, same_name_from-Answers}
use atmega_a.Broadcasts.{
  Cache, slot, zero_register, broadcast_cache_init, broadcast_cache_append, put_slot, append_at_end,
  same_name_from,
}

abbrev IsSized : Register → Type 0
IsSized r = length r.contents ≡ max_array_size

-- A cache that nothing was taken out of: 4 slots, filled from the first one on, and no two slots
-- with one name.
pub record IsFresh (c : Cache) : Type 0 where
  pub four : length c.slots ≡ 4
  pub sized : All IsSized c.slots
  pub from_first : c.start ≡ 0
  pub size_in : c.size ≤ 4
  pub ending_in : c.ending < 4
  pub filled : c.size < 4 → c.ending ≡ c.size
  pub overflow_byte : c.overflow ≤ 255
  pub distinct : (x y : ℕ) → x < y → y < c.size → register_name_cmp (slot c x) (slot c y) ≡ true

pub broadcast_cache_init-IsFresh :
    (c : Cache) → length c.slots ≡ 4 → All IsSized c.slots → IsFresh (broadcast_cache_init c)
unfolding broadcast_cache_init
broadcast_cache_init-IsFresh c four sized = record {
  four = four;
  sized = sized;
  from_first = refl;
  size_in = omega arith;
  ending_in = omega arith;
  filled = λ h. refl;
  overflow_byte = omega arith;
  distinct = λ x y l h. absurd (omega arith);
}

-- Of the slots that count, exactly slot `x` has the name of `reg`, with its lengths, bytes and error
-- mark, and the others are as before.
abbrev pub Holds : Cache → Cache → Register → ℕ → Type 0
Holds before after reg x =
    (x < after.size)
    × (slot after x ≡ record reg {
      set_callback = (slot before x).set_callback;
      get_callback = (slot before x).get_callback;
    })
    × ((y : ℕ)
        → y < after.size
        → y ≢ x
        → (slot after y ≡ slot before y) × (register_name_cmp (slot after y) reg ≡ true))

-- A register was put in slot `z` of a fresh cache, of which the first `size` slots count then.
module _ (c : Cache) (reg : Register) (z size : ℕ) (fresh : IsFresh c) (reg_sized : IsSized reg)
    (z_in : z < 4) (size_in : size ≤ 4)
    (others : (y : ℕ)
      → y < size
      → y ≢ z
      → (y < c.size) × (register_name_cmp (slot c y) reg ≡ true)) where
  abbrev put_at : Cache
  put_at = put_slot c z reg

  slot-IsSized : (y : ℕ) → y < 4 → IsSized (slot c y)
  slot-IsSized y l =
      All-get_or_in IsSized c.slots y zero_register fresh.sized (omega (arith, fresh.four))

  slot_put : slot put_at z ≡ register_copy (slot c z) reg
  unfolding put_slot
  slot_put =
      get_or-set_self c.slots z (register_copy (slot c z) reg) zero_register
        (omega (arith, fresh.four))

  slot_kept : (y : ℕ) → y ≢ z → slot put_at y ≡ slot c y
  unfolding put_slot
  slot_kept y ne =
      get_or-set_ne c.slots z y (register_copy (slot c z) reg) zero_register (λ e. ne (sym e))

  put_distinct :
      (x y : ℕ) → x < y → y < size → register_name_cmp (slot put_at x) (slot put_at y) ≡ true
  put_distinct x y l h = elim (Bool-cases (x == z)) [
    | inl e ↦
        let here : x ≡ z = ground arith in
        let there : y ≢ z = (λ q. omega arith) in
        rw (here, slot_put, slot_kept y there)
          (copy_named (slot c z) reg (slot c y) (slot-IsSized z z_in) reg_sized
            ∙ other_name_sym (slot c y) reg (others y h there).1)
    | inr e ↦ elim (Bool-cases (y == z)) [
      | inl q ↦
          let here : y ≡ z = ground arith in
          let there : x ≢ z = (λ r. omega arith) in
          rw (here, slot_put, slot_kept x there)
            (named_copy (slot c z) reg (slot c x) (slot-IsSized z z_in) reg_sized
              ∙ (others x (omega arith) there).1)
      | inr q ↦
          let x_kept : x ≢ z = (λ r. ground arith) in
          let y_kept : y ≢ z = (λ r. ground arith) in
          rw (slot_kept x x_kept, slot_kept y y_kept) (fresh.distinct x y l (others y h y_kept).0)
    ]
  ]

  put-IsSized : All IsSized put_at.slots
  unfolding put_slot
  put-IsSized =
      All-set IsSized c.slots z (register_copy (slot c z) reg) fresh.sized
        (rw (register_copy_lem (slot c z) reg (slot-IsSized z z_in) reg_sized) reg_sized)

  put_value : slot put_at z ≡ record reg {
    set_callback = (slot c z).set_callback;
    get_callback = (slot c z).get_callback;
  }
  put_value = slot_put ∙ register_copy_lem (slot c z) reg (slot-IsSized z z_in) reg_sized

  put_rest :
      (y : ℕ)
      → y < size
      → y ≢ z
      → (slot put_at y ≡ slot c y) × (register_name_cmp (slot put_at y) reg ≡ true)
  put_rest y l ne =
      (slot_kept y ne, ap (λ s. register_name_cmp s reg) (slot_kept y ne) ∙ (others y l ne).1)

module _ (c : Cache) (reg : Register) (fresh : IsFresh c) (reg_sized : IsSized reg) where
  -- The slot that has the name already is the only one that has it.
  others_differ :
      (z : ℕ)
      → z < c.size
      → register_name_cmp (slot c z) reg ≡ false
      → (y : ℕ) → y < c.size
      → y ≢ z
      → (y < c.size) × (register_name_cmp (slot c y) reg ≡ true)
  others_differ z l named y h ne = (
    h,
    elim (Bool-cases (register_name_cmp (slot c y) reg)) [
      | inl e ↦ e
      | inr e ↦
          let same : register_name_cmp (slot c y) (slot c z) ≡ false =
            name_trans (slot c y) reg (slot c z) e (name_sym (slot c z) reg named) in
          elim (Bool-cases (ltb y z)) [
            | inl less ↦ cc (same, fresh.distinct y z (ground arith) l)
            | inr more ↦
                cc (name_sym (slot c y) (slot c z) same, fresh.distinct z y (ground arith) h)
          ]
    ],
  )

  found_latest :
      (z : ℕ)
      → z < c.size
      → register_name_cmp (slot c z) reg ≡ false
      → IsFresh (put_slot c z reg) × Holds c (put_slot c z reg) reg z
  unfolding put_slot
  found_latest z l named =
      let z_in : z < 4 = omega (arith, fresh.size_in) in
      let others = others_differ z l named in
      (
        record {
          four = length-set c.slots z (register_copy (slot c z) reg) ∙ fresh.four;
          sized = put-IsSized c reg z c.size fresh reg_sized z_in fresh.size_in others;
          from_first = fresh.from_first;
          size_in = fresh.size_in;
          ending_in = fresh.ending_in;
          filled = fresh.filled;
          overflow_byte = fresh.overflow_byte;
          distinct = put_distinct c reg z c.size fresh reg_sized z_in fresh.size_in others;
        },
        (
          l,
          put_value c reg z c.size fresh reg_sized z_in fresh.size_in others,
          put_rest c reg z c.size fresh reg_sized z_in fresh.size_in others,
        ),
      )

  missing_latest :
      ((y : ℕ) → y < c.size → register_name_cmp (slot c y) reg ≡ true)
      → IsFresh (append_at_end c reg) × Holds c (append_at_end c reg) reg c.ending
  unfolding append_at_end put_slot
  missing_latest differ =
      let size = (append_at_end c reg).size in
      let size_in : size ≤ 4 = ground (arith, fresh.size_in) in
      (
        record {
          four = length-set c.slots c.ending (register_copy (slot c c.ending) reg) ∙ fresh.four;
          sized = put-IsSized c reg c.ending size fresh reg_sized fresh.ending_in size_in others;
          from_first = fresh.from_first;
          size_in = size_in;
          ending_in = ground (arith, fresh.ending_in);
          filled = λ h. ground (arith, fresh.filled, fresh.size_in);
          overflow_byte = ground (arith, fresh.overflow_byte);
          distinct =
              put_distinct c reg c.ending size fresh reg_sized fresh.ending_in size_in others;
        },
        (
          ground (arith, fresh.filled, fresh.size_in, fresh.ending_in),
          put_value c reg c.ending size fresh reg_sized fresh.ending_in size_in others,
          put_rest c reg c.ending size fresh reg_sized fresh.ending_in size_in others,
        ),
      )
    where
      others :
          (y : ℕ)
          → y < (append_at_end c reg).size
          → y ≢ c.ending
          → (y < c.size) × (register_name_cmp (slot c y) reg ≡ true)
      others y l ne =
          let below : y < c.size = ground (arith, fresh.filled, fresh.size_in) in
          (below, differ y below)

  -- On a cache that nothing was taken out of since its start, an append leaves one value for the
  -- name of the register, its own, in exactly one slot, keeps all other slots that count but the one
  -- that it may write over, and keeps the cache in order.
  pub append_latest :
      let after = broadcast_cache_append c reg in IsFresh after × (x : ℕ) × Holds c after reg x
  append_latest = elim (Option-cases (same_name_from c reg c.size 0)) [
    | inl e ↦
        let (after, holds) = missing_latest (λ y h. (rw e at found) y (omega arith) h) in
        rw (append_missing c reg e) (after, c.ending, holds)
    | inr (z, e) ↦
        let (_, l, named) = rw e at found in
        let (after, holds) = found_latest z l named in rw (append_found c reg z e) (after, z, holds)
  ]
    where
      found : Answers c reg 0 c.size (same_name_from c reg c.size 0)
      found = same_name_from-Answers c reg c.size 0 c.size (omega arith)
