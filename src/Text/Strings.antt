-- ===== src/Text/Strings.antt =====
-- C strings in a buffer, told by their bytes.
use atmega_a.Prelude.{
  ℕ, zero, suc, ◌<◌, ◌≡◌, ◌≢◌, refl, sym, ap, arith, List, [], ◌∷◌, ◌++◌, length, byte_at, All,
}
use atmega_a.Text.{c_string}

-- The characters of a string are not NUL.
abbrev pub IsText : List ℕ → Type 0
IsText s = All (λ c. c ≢ 0) s

-- A buffer that holds the characters of a text and a NUL behind them holds that string.
pub c_string_lem :
    (buffer s : List ℕ)
    → IsText s
    → length s < length buffer
    → ((k : ℕ) → k < length s → byte_at buffer k ≡ byte_at s k)
    → byte_at buffer (length s) ≡ 0
    → c_string buffer ≡ s
c_string_lem [] s t h same end = absurd (omega arith)
c_string_lem (zero ∷ buffer) [] t h same end = refl
c_string_lem (suc b ∷ buffer) [] t h same end = absurd (omega arith)
c_string_lem (zero ∷ buffer) (c ∷ s) (c_there, t) h same end =
    absurd (c_there (sym (same 0 (omega arith))))
c_string_lem (suc b ∷ buffer) (c ∷ s) (c_there, t) h same end = λ i.
    same 0 (omega arith) i
    ∷ c_string_lem buffer s t (omega arith) (λ k l. same (suc k) (omega arith)) end i

-- The characters of the string in a buffer are the bytes of the buffer.
pub byte_at-c_string :
    (buffer : List ℕ) (k : ℕ)
    → k < length (c_string buffer)
    → byte_at buffer k ≡ byte_at (c_string buffer) k
byte_at-c_string [] k l = absurd (omega arith)
byte_at-c_string (zero ∷ buffer) k l = absurd (omega arith)
byte_at-c_string (suc b ∷ buffer) zero l = refl
byte_at-c_string (suc b ∷ buffer) (suc k) l = byte_at-c_string buffer k (omega arith)

-- A text with a NUL behind it is the string at that place.
pub c_string-append : (s rest : List ℕ) → IsText s → c_string (s ++ (0 ∷ rest)) ≡ s
c_string-append [] rest t = refl
c_string-append (zero ∷ s) rest (there, t) = absurd (there refl)
c_string-append (suc c ∷ s) rest (there, t) = ap (λ r. suc c ∷ r) (c_string-append s rest t)
