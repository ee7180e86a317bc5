-- ===== src/Broadcasts/Search.antt =====
-- What the search of `broadcast_cache_append` for a name finds, and the two ways of an append.
use atmega_a.Prelude.{
  ℕ, zero, suc, ◌+◌, ◌≤◌, ◌<◌, ◌≡◌, arith, true, false, Option, none, some, ◌==◌, Bool-cases, inl,
  inr,
}
use atmega_a.Register.{Register, register_name_cmp}
use atmega_a.Broadcasts.{
  Cache, slot, broadcast_cache_append, put_slot, append_at_end, same_name_from,
}

-- The two ways of an append.
module _ (c : Cache) (reg : Register) where
  pub append_found :
      (x : ℕ)
      → same_name_from c reg c.size 0 ≡ some x
      → broadcast_cache_append c reg ≡ put_slot c x reg
  unfolding broadcast_cache_append
  append_found x e = rw (e, broadcast_cache_append)

  pub append_missing :
      same_name_from c reg c.size 0 ≡ none → broadcast_cache_append c reg ≡ append_at_end c reg
  unfolding broadcast_cache_append
  append_missing e = rw (e, broadcast_cache_append)

-- What the search for a name says of the slots from `x` up to but not including `hi`.
abbrev pub Answers : Cache → Register → ℕ → ℕ → Option ℕ → Type 0
Answers c reg x hi none = (y : ℕ) → x ≤ y → y < hi → register_name_cmp (slot c y) reg ≡ true
Answers c reg x hi (some z) = (x ≤ z) × (z < hi) × (register_name_cmp (slot c z) reg ≡ false)

Answers-suc :
    (c : Cache) (reg : Register) (x hi : ℕ) (answer : Option ℕ)
    → register_name_cmp (slot c x) reg ≡ true
    → Answers c reg (suc x) hi answer
    → Answers c reg x hi answer
Answers-suc c reg x hi none e rest = λ y l h. elim (Bool-cases (x == y)) [
  | inl q ↦ let same : x ≡ y = ground arith in rw (← same) e
  | inr q ↦ rest y (ground arith) h
]
Answers-suc c reg x hi (some z) e (l, h, named) = (omega arith, h, named)

pub same_name_from-Answers :
    (c : Cache) (reg : Register) (n x hi : ℕ)
    → x + n ≡ hi
    → Answers c reg x hi (same_name_from c reg n x)
unfolding same_name_from
same_name_from-Answers c reg zero x hi h = λ y l m. absurd (omega arith)
same_name_from-Answers c reg (suc n) x hi h = elim (Bool-cases (register_name_cmp (slot c x) reg)) [
  | inl e ↦
      rw e (Answers-suc c reg x hi _ e (same_name_from-Answers c reg n (suc x) hi (omega arith)))
  | inr e ↦ rw e (omega arith, omega arith, e)
]
