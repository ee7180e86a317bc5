-- ===== src/Prelude/Copies.antt =====
-- The C library's memory and string functions over arrays.
use Prim.Native.Nat.{ℕ, zero, suc, ◌+◌, ◌≤◌, ◌<◌}
use mathlib.Core.Path.{◌≡◌, refl, ap, ◌∙◌}
use mathlib.Core.Logic.{◌≢◌, inl, inr}
use mathlib.Core.Bool.{Bool, true, false, ◌&&◌}
use mathlib.Core.List.{List}
use native.Mathlib.Omega.{arith}
use atmega_a.Prelude.Tests.{ltb, leb, ◌==◌, ==_iff, if◌then◌else◌, Bool-cases}
use atmega_a.Prelude.Arrays.{
  length, set, All, byte_at, length-set, get_or-set_self, get_or-set_ne, All-set, All-get_or,
}

-- `memcpy(&dst[o], &src[p], n)`.
unfoldable pub memcpy : List ℕ → ℕ → List ℕ → ℕ → ℕ → List ℕ
memcpy dst o src p zero = dst
memcpy dst o src p (suc n) = memcpy (set dst o (byte_at src p)) (suc o) src (suc p) n

-- `memcmp(&a[o], &b[p], n) == 0`.
unfoldable pub mem_eq : List ℕ → ℕ → List ℕ → ℕ → ℕ → Bool
mem_eq a o b p zero = true
mem_eq a o b p (suc n) = byte_at a o == byte_at b p && mem_eq a (suc o) b (suc p) n

pub length-memcpy :
    (dst : List ℕ) (o : ℕ) (src : List ℕ) (p n : ℕ) → length (memcpy dst o src p n) ≡ length dst
unfolding memcpy
length-memcpy dst o src p zero = refl
length-memcpy dst o src p (suc n) =
    length-memcpy (set dst o (byte_at src p)) (suc o) src (suc p) n
    ∙ length-set dst o (byte_at src p)

-- Outside of the bytes copied nothing changes.
pub byte_at-memcpy_outside :
    (dst : List ℕ) (o : ℕ) (src : List ℕ) (p n i : ℕ)
    → leb o i && ltb i (o + n) ≡ false
    → byte_at (memcpy dst o src p n) i ≡ byte_at dst i
unfolding memcpy
byte_at-memcpy_outside dst o src p zero i h = refl
byte_at-memcpy_outside dst o src p (suc n) i h =
    byte_at-memcpy_outside (set dst o (byte_at src p)) (suc o) src (suc p) n i (ground arith)
    ∙ get_or-set_ne dst o i (byte_at src p) 0 (λ e. ground arith)

-- Each byte copied is the source's.
pub byte_at-memcpy :
    (dst : List ℕ) (o : ℕ) (src : List ℕ) (p n k : ℕ)
    → o + n ≤ length dst
    → k < n
    → byte_at (memcpy dst o src p n) (o + k) ≡ byte_at src (p + k)
unfolding memcpy
byte_at-memcpy dst o src p zero k h l = absurd (omega arith)
byte_at-memcpy dst o src p (suc n) zero h l =
    ap (byte_at (memcpy (set dst o (byte_at src p)) (suc o) src (suc p) n)) (omega arith)
    ∙ byte_at-memcpy_outside (set dst o (byte_at src p)) (suc o) src (suc p) n o (ground arith)
    ∙ get_or-set_self dst o (byte_at src p) 0 (omega arith)
    ∙ ap (byte_at src) (omega arith)
byte_at-memcpy dst o src p (suc n) (suc k) h l =
    ap (byte_at (memcpy (set dst o (byte_at src p)) (suc o) src (suc p) n)) (omega arith)
    ∙ byte_at-memcpy (set dst o (byte_at src p)) (suc o) src (suc p) n k
        (omega (arith, length-set dst o (byte_at src p))) (omega arith)
    ∙ ap (byte_at src) (omega arith)

-- `memcmp` gives 0 exactly when the bytes agree.
pub mem_eq_sound :
    (a : List ℕ) (o : ℕ) (b : List ℕ) (p n k : ℕ)
    → mem_eq a o b p n ≡ true
    → k < n
    → byte_at a (o + k) ≡ byte_at b (p + k)
unfolding mem_eq
mem_eq_sound a o b p zero k h l = absurd (omega arith)
mem_eq_sound a o b p (suc n) zero h l =
    ap (byte_at a) (omega arith)
    ∙ (==_iff (byte_at a o) (byte_at b p)).0 (ground arith)
    ∙ ap (byte_at b) (omega arith)
mem_eq_sound a o b p (suc n) (suc k) h l =
    ap (byte_at a) (omega arith)
    ∙ mem_eq_sound a (suc o) b (suc p) n k (ground arith) (omega arith)
    ∙ ap (byte_at b) (omega arith)

pub mem_eq_complete :
    (a : List ℕ) (o : ℕ) (b : List ℕ) (p n : ℕ)
    → ((k : ℕ) → k < n → byte_at a (o + k) ≡ byte_at b (p + k))
    → mem_eq a o b p n ≡ true
unfolding mem_eq
mem_eq_complete a o b p zero h = refl
mem_eq_complete a o b p (suc n) h =
    ground (arith, here, mem_eq_complete a (suc o) b (suc p) n later)
  where
    here : byte_at a o ≡ byte_at b p
    here = ap (byte_at a) (omega arith) ∙ h 0 (omega arith) ∙ ap (byte_at b) (omega arith)

    later : (k : ℕ) → k < n → byte_at a (suc o + k) ≡ byte_at b (suc p + k)
    later k l =
        ap (byte_at a) (omega arith) ∙ h (suc k) (omega arith) ∙ ap (byte_at b) (omega arith)

pub All-memcpy {κ} :
    (P : ℕ → Type κ) (dst : List ℕ) (o : ℕ) (src : List ℕ) (p n : ℕ)
    → All P dst
    → All P src
    → P 0
    → All P (memcpy dst o src p n)
unfolding memcpy
All-memcpy P dst o src p zero d s z = d
All-memcpy P dst o src p (suc n) d s z =
    All-memcpy P (set dst o (byte_at src p)) (suc o) src (suc p) n
      (All-set P dst o (byte_at src p) d (All-get_or P src p 0 s z)) s z

-- The same for a copy to the start of the array.
pub byte_at-memcpy_start :
    (dst src : List ℕ) (p n k : ℕ)
    → n ≤ length dst
    → k < n
    → byte_at (memcpy dst 0 src p n) k ≡ byte_at src (p + k)
byte_at-memcpy_start dst src p n k h l =
    ap (byte_at (memcpy dst 0 src p n)) (omega arith)
    ∙ byte_at-memcpy dst 0 src p n k (omega arith) l

-- `memset(&dst[o], 0, n)`.
unfoldable pub clear : List ℕ → ℕ → ℕ → List ℕ
clear dst o zero = dst
clear dst o (suc n) = clear (set dst o 0) (suc o) n

-- `strncpy(&dst[o], &src[p], n)`: up to the NUL, then zeros.
unfoldable pub strncpy : List ℕ → ℕ → List ℕ → ℕ → ℕ → List ℕ
unfolding clear
strncpy dst o src p zero = dst
strncpy dst o src p (suc n) =
    if byte_at src p == 0
    then clear dst o (suc n)
    else strncpy (set dst o (byte_at src p)) (suc o) src (suc p) n

pub length-clear : (dst : List ℕ) (o n : ℕ) → length (clear dst o n) ≡ length dst
unfolding clear
length-clear dst o zero = refl
length-clear dst o (suc n) = length-clear (set dst o 0) (suc o) n ∙ length-set dst o 0

pub length-strncpy :
    (dst : List ℕ) (o : ℕ) (src : List ℕ) (p n : ℕ) → length (strncpy dst o src p n) ≡ length dst
unfolding strncpy
length-strncpy dst o src p zero = refl
length-strncpy dst o src p (suc n) = ground (
  arith,
  length-clear dst o (suc n),
  length-set dst o (byte_at src p),
  length-strncpy (set dst o (byte_at src p)) (suc o) src (suc p) n,
)

pub All-clear {κ} :
    (P : ℕ → Type κ) (dst : List ℕ) (o n : ℕ) → All P dst → P 0 → All P (clear dst o n)
unfolding clear
All-clear P dst o zero d z = d
All-clear P dst o (suc n) d z = All-clear P (set dst o 0) (suc o) n (All-set P dst o 0 d z) z

pub All-strncpy {κ} :
    (P : ℕ → Type κ) (dst : List ℕ) (o : ℕ) (src : List ℕ) (p n : ℕ)
    → All P dst
    → All P src
    → P 0
    → All P (strncpy dst o src p n)
unfolding strncpy
All-strncpy P dst o src p zero d s z = d
All-strncpy P dst o src p (suc n) d s z = elim (Bool-cases (byte_at src p == 0)) [
  | inl e ↦ rw e (All-clear P dst o (suc n) d z)
  | inr e ↦ rw e (
      All-strncpy P (set dst o (byte_at src p)) (suc o) src (suc p) n
        (All-set P dst o (byte_at src p) d (All-get_or P src p 0 s z)) s z)
]

-- A copy of a string writes nothing before its start, and its first byte is the string's.
pub clear_keeps : (dst : List ℕ) (o n i : ℕ) → i < o → byte_at (clear dst o n) i ≡ byte_at dst i
unfolding clear
clear_keeps dst o zero i l = refl
clear_keeps dst o (suc n) i l =
    clear_keeps (set dst o 0) (suc o) n i (omega arith)
    ∙ get_or-set_ne dst o i 0 0 (λ e. omega arith)

pub strncpy_keeps :
    (dst : List ℕ) (o : ℕ) (src : List ℕ) (p n i : ℕ)
    → i < o
    → byte_at (strncpy dst o src p n) i ≡ byte_at dst i
unfolding strncpy
strncpy_keeps dst o src p zero i l = refl
strncpy_keeps dst o src p (suc n) i l = elim (Bool-cases (byte_at src p == 0)) [
  | inl e ↦ rw e (clear_keeps dst o (suc n) i l)
  | inr e ↦ rw e (
      strncpy_keeps (set dst o (byte_at src p)) (suc o) src (suc p) n i (omega arith)
      ∙ get_or-set_ne dst o i (byte_at src p) 0 (λ e. omega arith))
]

pub strncpy_first :
    (dst : List ℕ) (o : ℕ) (src : List ℕ) (p n : ℕ)
    → o < length dst
    → byte_at src p ≢ 0
    → byte_at (strncpy dst o src p (suc n)) o ≡ byte_at src p
unfolding strncpy
strncpy_first dst o src p n l ne =
    let e : (byte_at src p == 0) ≡ false = ground arith in
    rw e (
      strncpy_keeps (set dst o (byte_at src p)) (suc o) src (suc p) n o (omega arith)
      ∙ get_or-set_self dst o (byte_at src p) 0 l)
