-- ===== src/Register/Copies.antt =====
-- Copies of registers and the comparison of their names: `A7105_Mesh_Register_Copy` and
-- `A7105_Mesh_Util_RegisterNameCmp`.
use atmega_a.Prelude.{
  ℕ, zero, suc, ◌<◌, ◌≡◌, ◌≢◌, ◌∙◌, refl, sym, ap, arith, true, false, List, length, byte_at,
  memcpy, length-memcpy, byte_at-memcpy, mem_eq, array_ext, Bool-cases, inl, inr,
}
use atmega_a.Register.{Register, max_array_size, register_copy, register_name_cmp}

memcpy_whole : (dst src : List ℕ) → length dst ≡ length src → memcpy dst 0 src 0 (length src) ≡ src
memcpy_whole dst src same =
    array_ext (memcpy dst 0 src 0 (length src)) src 0
      (length-memcpy dst 0 src 0 (length src) ∙ same)
      λ i l.
        let in_bounds : i < length src = omega (arith, length-memcpy dst 0 src 0 (length src)) in
        ap (byte_at (memcpy dst 0 src 0 (length src))) (omega arith)
        ∙ byte_at-memcpy dst 0 src 0 (length src) i (omega arith) in_bounds
        ∙ ap (byte_at src) (omega arith)

-- A copy is the source but for the callbacks of the destination.
pub register_copy_lem :
    (dest src : Register)
    → length dest.contents ≡ max_array_size
    → length src.contents ≡ max_array_size
    → register_copy dest src
      ≡ record src { set_callback = dest.set_callback; get_callback = dest.get_callback }
unfolding register_copy
register_copy_lem dest src d s =
    let whole : memcpy dest.contents 0 src.contents 0 max_array_size ≡ src.contents =
      rw s at (memcpy_whole dest.contents src.contents (d ∙ sym s)) in
    rw whole

-- Two registers that the comparison takes for one name.
abbrev pub SameName : Register → Register → Type 0
SameName a b =
    (a.name_len ≢ 0)
    × (a.name_len ≡ b.name_len)
    × (mem_eq a.contents 0 b.contents 0 a.name_len ≡ true)

pub register_name_cmp-SameName : (a b : Register) → register_name_cmp a b ≡ false → SameName a b
unfolding register_name_cmp
register_name_cmp-SameName a b h = ground arith

pub SameName-register_name_cmp : (a b : Register) → SameName a b → register_name_cmp a b ≡ false
unfolding register_name_cmp
SameName-register_name_cmp a b h = ground arith

mem_eq_sym :
    (a : List ℕ) (o : ℕ) (b : List ℕ) (p n : ℕ) → mem_eq a o b p n ≡ true → mem_eq b p a o n ≡ true
unfolding mem_eq
mem_eq_sym a o b p zero h = refl
mem_eq_sym a o b p (suc n) h = ground (arith, mem_eq_sym a (suc o) b (suc p) n)

mem_eq_trans :
    (a b c : List ℕ) (o n : ℕ)
    → mem_eq a o b o n ≡ true
    → mem_eq b o c o n ≡ true
    → mem_eq a o c o n ≡ true
unfolding mem_eq
mem_eq_trans a b c o zero h k = refl
mem_eq_trans a b c o (suc n) h k = ground (arith, mem_eq_trans a b c (suc o) n)

-- The comparison is symmetric and transitive.
pub name_sym : (a b : Register) → register_name_cmp a b ≡ false → register_name_cmp b a ≡ false
name_sym a b h =
    let (named, size, bytes) : SameName a b = register_name_cmp-SameName a b h in
    SameName-register_name_cmp b a (
      λ e. named (size ∙ e),
      sym size,
      rw (← size) (mem_eq_sym a.contents 0 b.contents 0 a.name_len bytes),
    )

pub name_trans :
    (a b c : Register)
    → register_name_cmp a b ≡ false
    → register_name_cmp b c ≡ false
    → register_name_cmp a c ≡ false
name_trans a b c h k =
    let (named, size, bytes) : SameName a b = register_name_cmp-SameName a b h in
    let (_, size', bytes') : SameName b c = register_name_cmp-SameName b c k in
    let same : mem_eq b.contents 0 c.contents 0 a.name_len ≡ true = rw size bytes' in
    SameName-register_name_cmp a c
      (named, size ∙ size', mem_eq_trans a.contents b.contents c.contents 0 a.name_len bytes same)

pub other_name_sym : (a b : Register) → register_name_cmp a b ≡ true → register_name_cmp b a ≡ true
other_name_sym a b h = elim (Bool-cases (register_name_cmp b a)) [
  | inl e ↦ e
  | inr e ↦ cc (h, name_sym b a e)
]

-- A copy in a slot is compared like the register that it was made from.
module _ (dest src other : Register) where
  pub copy_named :
      length dest.contents ≡ max_array_size
      → length src.contents ≡ max_array_size
      → register_name_cmp (register_copy dest src) other ≡ register_name_cmp src other
  copy_named d s = rw (register_copy_lem dest src d s) (unfold register_name_cmp in refl)

  pub named_copy :
      length dest.contents ≡ max_array_size
      → length src.contents ≡ max_array_size
      → register_name_cmp other (register_copy dest src) ≡ register_name_cmp other src
  named_copy d s = rw (register_copy_lem dest src d s) (unfold register_name_cmp in refl)
