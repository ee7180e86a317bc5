-- ===== src/Console/Written.antt =====
-- The text that is written to ASCII_BUFFER character by character.
use atmega_a.Prelude.{
  ℕ, zero, suc, ◌+◌, ◌<◌, ◌≡◌, ◌∙◌, refl, ap, arith, Bool, false, List, [], ◌∷◌, map, length, set,
  byte_at, length-set, get_or-set_self, get_or-set_ne, All,
}
use atmega_a.Console.{cased, is_terminator, is_return}

pub add_nothing : (n : ℕ) → n ≡ n + 0
add_nothing n = omega arith

pub add_one_more : (n k : ℕ) → n + 1 + k ≡ n + suc k
add_one_more n k = omega arith

-- The buffer `after` has the text `s` from `index` on, with a NUL behind it, and is as before up to
-- there.
abbrev pub Written : List ℕ → ℕ → List ℕ → List ℕ → Type 0
Written before index s after =
    (length after ≡ length before)
    × ((k : ℕ) → k < index → byte_at after k ≡ byte_at before k)
    × ((k : ℕ) → k < length s → byte_at after (index + k) ≡ byte_at s k)
    × (byte_at after (index + length s) ≡ 0)

pub Written-end :
    (buffer : List ℕ) (index c : ℕ)
    → index < length buffer
    → Written buffer index [] (set (set buffer index c) index 0)
Written-end buffer index c h = (
  length-set (set buffer index c) index 0 ∙ length-set buffer index c,
  λ k l.
      get_or-set_ne (set buffer index c) index k 0 0 (λ e. omega arith)
      ∙ get_or-set_ne buffer index k c 0 (λ e. omega arith),
  λ k l. absurd (omega arith),
  ap (byte_at (set (set buffer index c) index 0)) (omega arith)
      ∙ get_or-set_self (set buffer index c) index 0 0 (omega (arith, length-set buffer index c)),
)

pub Written-next :
    (before after : List ℕ) (index c : ℕ) (s : List ℕ)
    → index + 1 < length before
    → Written (set (set before index c) (index + 1) 0) (index + 1) s after
    → Written before index (c ∷ s) after
Written-next before after index c s h (size, front, chars, end) = (
  size ∙ length-set (set before index c) (index + 1) 0 ∙ length-set before index c,
  λ k l.
      front k (omega arith)
      ∙ get_or-set_ne (set before index c) (index + 1) k 0 0 (λ e. omega arith)
      ∙ get_or-set_ne before index k c 0 (λ e. omega arith),
  chars',
  ap (byte_at after) (omega arith) ∙ end,
)
  where
    chars' : (k : ℕ) → k < length (c ∷ s) → byte_at after (index + k) ≡ byte_at (c ∷ s) k
    chars' zero l =
        ap (byte_at after) (omega arith)
        ∙ front index (omega arith)
        ∙ get_or-set_ne (set before index c) (index + 1) index 0 0 (λ e. omega arith)
        ∙ get_or-set_self before index c 0 (omega arith)
    chars' (suc k) l = ap (byte_at after) (omega arith) ∙ chars k (omega arith)

pub length-map : (f : ℕ → ℕ) (s : List ℕ) → length (map f s) ≡ length s
length-map f [] = refl
length-map f (x ∷ s) = ap suc (length-map f s)

-- The characters of a field: none ends it or is a carriage return.
abbrev pub IsField : Bool → List ℕ → Type 0
IsField uppercase s =
    All (λ c. (is_terminator (cased uppercase c) ≡ false) × (is_return (cased uppercase c) ≡ false))
      s
