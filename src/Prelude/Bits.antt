-- ===== src/Prelude/Bits.antt =====
-- The bit operations of the source over a byte, as arithmetic: each law is a table of all values.
use Prim.Native.Nat.{ℕ, zero, suc, ◌+◌, ◌*◌, ◌/◌, ◌%◌, ◌^◌, ◌≤◌, ◌<◌, max}
use Prim.Native.Nat.{bit_and, bit_or, digits, bit_or-bitwise}
use mathlib.Core.Path.{◌≡◌, refl, ap, ◌∙◌}
use mathlib.Core.Logic.{inl, inr}
use mathlib.Core.Bool.{Bool, true, false}
use native.Mathlib.Omega.{arith}
use native.Mathlib.Nat.{pow-suc}
use atmega_a.Prelude.Tests.{◌==◌, ==_iff, if◌then◌else◌, Bool-cases}

-- A Boolean function of a number checked up to a limit, from the limit down.
unfoldable pub passes : (ℕ → Bool) → ℕ → Bool
passes test zero = true
passes test (suc limit) = if test limit then passes test limit else false

pub passes_at :
    (test : ℕ → Bool) (limit : ℕ) → passes test limit ≡ true → (k : ℕ) → k < limit → test k ≡ true
unfolding passes
passes_at test zero checked k below = absurd (omega arith)
passes_at test (suc limit) checked k below = elim (Bool-cases (test limit)) [
  | inl here ↦
      ground
        (arith, λ (rest : passes test limit ≡ true) (l : k < limit). passes_at test limit rest k l)
  | inr not_here ↦ absurd (ground arith)
]

-- An equation between two functions of a byte holds if it holds for each of the 256 values.
pub by_table : (f g : ℕ → ℕ) → passes (λ x. f x == g x) 256 ≡ true → (x : ℕ) → x < 256 → f x ≡ g x
by_table f g t x h = (==_iff (f x) (g x)).0 (passes_at (λ y. f y == g y) 256 t x h)

pub low_nibble : (x : ℕ) → x < 256 → bit_and x 0x0F ≡ x % 16
unfolding passes
low_nibble x h = by_table (λ y. bit_and y 0x0F) (λ y. y % 16) refl x h

pub high_nibble : (x : ℕ) → x < 256 → bit_and x 0xF0 ≡ x / 16 * 16
unfolding passes
high_nibble x h = by_table (λ y. bit_and y 0xF0) (λ y. y / 16 * 16) refl x h

-- `(x << 4) & 0xF0`
pub shifted_nibble : (x : ℕ) → x < 256 → bit_and (x * 16) 0xF0 ≡ x % 16 * 16
unfolding passes
shifted_nibble x h = by_table (λ y. bit_and (y * 16) 0xF0) (λ y. y % 16 * 16) refl x h

joined : (x : ℕ) → x < 256 → bit_or (x % 16) (x / 16 * 16) ≡ x
unfolding passes
joined x h = by_table (λ y. bit_or (y % 16) (y / 16 * 16)) (λ y. y) refl x h

joined_rev : (x : ℕ) → x < 256 → bit_or (x / 16 * 16) (x % 16) ≡ x
unfolding passes
joined_rev x h = by_table (λ y. bit_or (y / 16 * 16) (y % 16)) (λ y. y) refl x h

-- The two nibbles of a byte put together.
pub or_nibbles : (lo hi : ℕ) → lo < 16 → hi < 16 → bit_or lo (hi * 16) ≡ hi * 16 + lo
or_nibbles lo hi h k =
    ap (λ t. bit_or t (hi * 16)) (omega arith)
    ∙ ap (λ t. bit_or ((hi * 16 + lo) % 16) (t * 16)) (omega arith)
    ∙ joined (hi * 16 + lo) (omega arith)

pub or_nibbles_rev : (lo hi : ℕ) → lo < 16 → hi < 16 → bit_or (hi * 16) lo ≡ hi * 16 + lo
or_nibbles_rev lo hi h k =
    ap (λ t. bit_or (hi * 16) t) (omega arith)
    ∙ ap (λ t. bit_or (t * 16) ((hi * 16 + lo) % 16)) (omega arith)
    ∙ joined_rev (hi * 16 + lo) (omega arith)

module _ (f : ℕ → ℕ → ℕ) where
  -- The native operation recurs on digits with a bound; a larger bound changes nothing.
  digits_bound : (m n a b : ℕ) → a ≤ m → a ≤ n → digits (λ y. y) f m a b ≡ digits (λ y. y) f n a b
  digits_bound zero zero a b h k = refl
  digits_bound zero (suc n) zero b h k = refl
  digits_bound zero (suc n) (suc a) b h k = absurd (omega arith)
  digits_bound (suc m) zero zero b h k = refl
  digits_bound (suc m) zero (suc a) b h k = absurd (omega arith)
  digits_bound (suc m) (suc n) zero b h k = refl
  digits_bound (suc m) (suc n) (suc a) b h k =
      omega (arith, digits_bound m n (suc a / 2) (b / 2) (omega arith) (omega arith))

or_digit : (a b : ℕ) → bit_or a b ≡ bit_or (a / 2) (b / 2) * 2 + max (a % 2) (b % 2)
or_digit zero b = omega (arith, bit_or-bitwise 0 b, bit_or-bitwise 0 (b / 2))
or_digit (suc a) b = omega (
  arith,
  bit_or-bitwise (suc a) b,
  bit_or-bitwise (suc a / 2) (b / 2),
  digits_bound max a (suc a / 2) (suc a / 2) (b / 2) (omega arith) (omega arith),
)

or-zero_below : (n a : ℕ) → a ≤ n → bit_or a 0 ≡ a
or-zero_below n zero h = refl
or-zero_below zero (suc a) h = absurd (omega arith)
or-zero_below (suc n) (suc a) h =
    omega (arith, or_digit (suc a) 0, or-zero_below n (suc a / 2) (omega arith))

or_twice : (a b : ℕ) → bit_or a (b / 2) ≡ a + b / 2 → bit_or (2 * a) b ≡ 2 * a + b
or_twice a b h = omega (arith, or_digit (2 * a) b, ap (λ t. bit_or t (b / 2)) (halves a))
  where
    halves : (a : ℕ) → 2 * a / 2 ≡ a
    halves a = omega arith

-- `|` of a number shifted by `k` bits and one of at most `k` bits is their sum.
or_shifted : (k d b : ℕ) → b < 2 ^ k → bit_or (d * 2 ^ k) b ≡ d * 2 ^ k + b
or_shifted zero d b h =
    let e : b ≡ 0 = omega arith in rw e (omega (arith, or-zero_below (d * 1) (d * 1) (omega arith)))
or_shifted (suc k) d b h =
    let e : d * 2 ^ suc k ≡ 2 * (d * 2 ^ k) = omega (arith, ap (λ (t : ℕ). d * t) (pow-suc 2 k)) in
    rw e (or_twice (d * 2 ^ k) b (or_shifted k d (b / 2) (omega (arith, pow-suc 2 k))))

-- `(d << 8) | b`
pub or_byte : (d b : ℕ) → b < 256 → bit_or (d * 256) b ≡ d * 256 + b
or_byte d b h = or_shifted 8 d b h
