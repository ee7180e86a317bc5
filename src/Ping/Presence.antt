-- ===== src/Ping/Presence.antt =====
-- The presence table: the bit that a PONG sets, and the walk over the bits.
use atmega_a.Prelude.{
  ℕ, zero, suc, ◌+◌, ◌-◌, ◌*◌, ◌/◌, ◌%◌, ◌^◌, ◌≤◌, ◌<◌, ◌≡◌, ◌≢◌, ◌⊎◌, ◌∙◌, refl, ap, arith, Bool,
  true, false, not, ◌||◌, List, ◌==◌, ==_iff, length, byte_at, All, All-get_or, get_or-set_self,
  get_or-set_ne, bit_and, bit_or, passes, passes_at, Bool-cases, inl, inr,
}
use atmega_a.Packet.{IsByte}
use atmega_a.Mesh.{Mesh}
use atmega_a.Ping.{mark_present, is_present, next_present_from, get_next_present_node}

abbrev agree : Bool → Bool → Bool
agree true b = b
agree false b = not b

agree→≡ : (a b : Bool) → agree a b ≡ true → a ≡ b
agree→≡ true b h = ground arith
agree→≡ false b h = ground arith

-- Bit `j` of a byte in which bit `i` was set.
bit_of : ℕ → ℕ → ℕ → Bool
bit_of b i j = not (bit_and (bit_or b (2 ^ i % 256) % 256) (2 ^ j % 256) == 0)

bit_table :
    passes
      (λ x.
        agree
          (bit_of (x % 256) (x / 256 % 8) (x / 2048))
          (x / 256 % 8 == x / 2048 || not (bit_and (x % 256) (2 ^ (x / 2048) % 256) == 0)))
      16384
    ≡ true
unfolding passes bit_of
bit_table = refl

bit_of_lem :
    (b i j : ℕ)
    → b < 256
    → i < 8
    → j < 8
    → bit_of b i j ≡ (i == j || not (bit_and b (2 ^ j % 256) == 0))
bit_of_lem b i j hb hi hj =
    agree→≡ _ _ (rw (e₀, e₁, e₂) at (passes_at _ 16384 bit_table x (omega arith)))
  where
    x : ℕ
    x = b + 256 * i + 2048 * j

    e₀ : x % 256 ≡ b
    e₀ = omega arith

    e₁ : x / 256 % 8 ≡ i
    e₁ = omega arith

    e₂ : x / 2048 ≡ j
    e₂ = omega arith

-- In a table of 32 bytes, marking a node id makes that id present and changes no other: for two
-- ids of a byte each.
pub is_present-mark_present :
    (table : List ℕ) (n k : ℕ)
    → length table ≡ 32
    → All IsByte table
    → n < 256
    → k < 256
    → is_present (mark_present table n) k ≡ (n == k || is_present table k)
unfolding is_present mark_present bit_of
is_present-mark_present table n k size bytes hn hk = elim (Bool-cases (n / 8 == k / 8)) [
  | inl e ↦
      let same : n / 8 ≡ k / 8 = (==_iff (n / 8) (k / 8)).0 e in
      rw (← same, get_or-set_self table (n / 8) _ 0 (omega arith))
        (bit_of_lem (byte_at table (n / 8)) (n % 8) (k % 8)
            (All-get_or IsByte table (n / 8) 0 bytes (omega arith)) (omega arith) (omega arith)
          ∙ ap (λ b. b || not (bit_and (byte_at table (n / 8)) (2 ^ (k % 8) % 256) == 0))
              (ground arith))
  | inr e ↦
      let other : n / 8 ≢ k / 8 = (λ q. ground arith) in
      rw (get_or-set_ne table (n / 8) (k / 8) _ 0 other) (ground arith)
]

-- No id from `lo` up to but not including `hi` is present.
abbrev pub NonePresent : List ℕ → ℕ → ℕ → Type 0
NonePresent table lo hi = (k : ℕ) → lo ≤ k → k < hi → is_present table k ≡ false

-- `r` is the first id present from `lo` up to but not including `hi`, or 0 if there is none.
abbrev pub IsNext : List ℕ → ℕ → ℕ → ℕ → Type 0
IsNext table lo hi r =
    ((r ≡ 0) × NonePresent table lo hi)
    ⊎ ((lo ≤ r) × (r < hi) × (is_present table r ≡ true) × NonePresent table lo r)

NonePresent-suc :
    (table : List ℕ) (x hi : ℕ)
    → is_present table x ≡ false
    → NonePresent table (suc x) hi
    → NonePresent table x hi
NonePresent-suc table x hi e rest k l m = elim (Bool-cases (x == k)) [
  | inl q ↦ let same : x ≡ k = ground arith in rw (← same) e
  | inr q ↦ rest k (ground arith) m
]

IsNext-suc :
    (table : List ℕ) (x hi r : ℕ)
    → is_present table x ≡ false
    → IsNext table (suc x) hi r
    → IsNext table x hi r
IsNext-suc table x hi r e (inl (z, rest)) = inl (z, NonePresent-suc table x hi e rest)
IsNext-suc table x hi r e (inr (l, h, p, rest)) =
    inr (omega arith, h, p, NonePresent-suc table x r e rest)

next_present_from-IsNext :
    (table : List ℕ) (n x hi : ℕ) → x + n ≡ hi → IsNext table x hi (next_present_from table n x)
unfolding next_present_from
next_present_from-IsNext table zero x hi h = inl (refl, (λ k l m. absurd (omega arith)))
next_present_from-IsNext table (suc n) x hi h = elim (Bool-cases (is_present table x)) [
  | inl e ↦ rw e (inr (omega arith, omega arith, e, (λ k l m. absurd (omega arith))))
  | inr e ↦
      rw e (IsNext-suc table x hi _ e (next_present_from-IsNext table n (suc x) hi (omega arith)))
]

-- The walk over the presence table gives the first id that is present behind `start`, or 0 if
-- there is none up to 254: it skips no id, and it never gives 255.
pub get_next_present_node_lem :
    (m : Mesh) (start : ℕ)
    → start < 255
    → IsNext m.presence_table (start + 1) 255 (get_next_present_node m start)
unfolding get_next_present_node
get_next_present_node_lem m start h =
    let e : (start == 255) ≡ false = ground arith in
    rw e
      (next_present_from-IsNext m.presence_table (255 - (start + 1)) (start + 1) 255 (omega arith))
