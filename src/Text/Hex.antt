-- ===== src/Text/Hex.antt =====
-- Bytes in hexadecimal: what `get_register` prints of a value in the format BINARY is what
-- `set_register` reads as that value.
use atmega_a.Prelude.{
  ℕ, zero, suc, ◌+◌, ◌*◌, ◌/◌, ◌%◌, ◌^◌, ◌≤◌, ◌<◌, ◌≡◌, ◌⊎◌, inl, inr, ◌∙◌, refl, ap, arith, List,
  [], ◌∷◌, ◌++◌, length, byte_at, set, bit_or, or_nibbles_rev, All, All-get_or, length-set,
  get_or-set_self, get_or-set_ne,
}
use atmega_a.Packet.{IsByte}
use atmega_a.Text.{hex_digit, hex_byte, hex_from, ascii_hex_2_bin, store_hex_from}

pub hex_byte_lem : (b : ℕ) → b < 256 → hex_byte b ≡ hex_digit (b / 16) ∷ hex_digit (b % 16) ∷ []
unfolding hex_byte
hex_byte_lem b h = ground arith

ascii_hex_2_bin-hex_digit : (n : ℕ) → n < 16 → ascii_hex_2_bin (hex_digit n) ≡ n
unfolding ascii_hex_2_bin
ascii_hex_2_bin-hex_digit n h = ground arith

-- Two digits put together.
digits_joined :
    (b : ℕ)
    → b < 256
    → bit_or (ascii_hex_2_bin (hex_digit (b / 16)) * 2 ^ 4) (ascii_hex_2_bin (hex_digit (b % 16)))
        % 256
      ≡ b
digits_joined b h =
    rw
      (
        ascii_hex_2_bin-hex_digit (b / 16) (omega arith),
        ascii_hex_2_bin-hex_digit (b % 16) (omega arith),
        or_nibbles_rev (b % 16) (b / 16) (omega arith) (omega arith),
      )
      (omega arith)

pub length-hex_from :
    (bytes : List ℕ) (n x : ℕ) → All IsByte bytes → length (hex_from bytes n x) ≡ n * 2
unfolding hex_from
length-hex_from bytes zero x h = refl
length-hex_from bytes (suc n) x h =
    rw (hex_byte_lem (byte_at bytes x) (All-get_or IsByte bytes x 0 h (omega arith)))
      (omega (arith, length-hex_from bytes n (suc x) h))

zero_or_suc : (k : ℕ) → (k ≡ 0) ⊎ ((j : ℕ) × (k ≡ suc j))
zero_or_suc zero = inl refl
zero_or_suc (suc j) = inr (j, refl)

-- The digits of `n` bytes from the `x`th on, found in a text from `t` on, are stored as those bytes from
-- `offset` on, and nothing is stored before.
pub store_hex_from-hex_from :
    (bytes text contents : List ℕ) (n x t offset : ℕ)
    → All IsByte bytes
    → offset + n ≤ length contents
    → ((k : ℕ) → k < n * 2 → byte_at text (t + k) ≡ byte_at (hex_from bytes n x) k)
    → let out = store_hex_from text n t contents offset in
      (length out ≡ length contents)
      × ((k : ℕ) → k < n → byte_at out (offset + k) ≡ byte_at bytes (x + k))
      × ((k : ℕ) → k < offset → byte_at out k ≡ byte_at contents k)
unfolding store_hex_from hex_from
store_hex_from-hex_from bytes text contents zero x t offset h room same =
    (refl, (λ k l. absurd (omega arith)), (λ k l. refl))
store_hex_from-hex_from bytes text contents (suc n) x t offset h room same =
    let (size, later, front) =
      store_hex_from-hex_from bytes text (set contents offset stored) n (suc x) (t + 2) (offset + 1)
        h (omega (arith, length-set contents offset stored))
        λ k l.
          ap (byte_at text) (omega arith)
          ∙ same (suc (suc k)) (omega arith)
          ∙ ap (λ s. byte_at s (suc (suc k))) split in
    (
      size ∙ length-set contents offset stored,
      λ k l. elim (zero_or_suc k) [
        | inl z ↦
            ap (byte_at out) (omega arith)
            ∙ front offset (omega arith)
            ∙ get_or-set_self contents offset stored 0 (omega arith)
            ∙ stored_lem
            ∙ ap (byte_at bytes) (omega arith)
        | inr (j, e) ↦
            ap (byte_at out) (omega arith)
            ∙ later j (omega arith)
            ∙ ap (byte_at bytes) (omega arith)
      ],
      λ k l. front k (omega arith) ∙ get_or-set_ne contents offset k stored 0 (λ e. omega arith),
    )
  where
    b : ℕ
    b = byte_at bytes x

    b_byte : b < 256
    b_byte = All-get_or IsByte bytes x 0 h (omega arith)

    stored : ℕ
    stored =
        bit_or (ascii_hex_2_bin (byte_at text t) * 2 ^ 4) (ascii_hex_2_bin (byte_at text (t + 1)))
        % 256

    out : List ℕ
    out = store_hex_from text n (t + 2) (set contents offset stored) (offset + 1)

    split :
        hex_from bytes (suc n) x
        ≡ hex_digit (b / 16) ∷ hex_digit (b % 16) ∷ hex_from bytes n (suc x)
    split = ap (λ s. s ++ hex_from bytes n (suc x)) (hex_byte_lem b b_byte)

    first : byte_at text t ≡ hex_digit (b / 16)
    first = ap (byte_at text) (omega arith) ∙ same 0 (omega arith) ∙ ap (λ s. byte_at s 0) split

    second : byte_at text (t + 1) ≡ hex_digit (b % 16)
    second = same 1 (omega arith) ∙ ap (λ s. byte_at s 1) split

    stored_lem : stored ≡ b
    stored_lem = rw (first, second) (digits_joined b b_byte)
