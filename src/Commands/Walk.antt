-- ===== src/Commands/Walk.antt =====
-- How the loop of `ping_mesh` of atmega_a7105.ino walks over the nodes that are present.
use atmega_a.Prelude.{
  ℕ, zero, suc, ◌+◌, ◌-◌, ◌≤◌, ◌<◌, ◌≡◌, inl, inr, ◌∙◌, refl, ap, arith, false, List, [], ◌∷◌, ◌==◌,
  if◌then◌else◌, Bool-cases,
}
use atmega_a.World.{Io, write_text}
use atmega_a.Mesh.{Mesh}
use atmega_a.Ping.{is_present, next_present_from, get_next_present_node}
use atmega_a.Host.{Host, H, ◌>>=◌, ◌>>◌, print, putstring, print_number, serial_client}
use atmega_a.Host.Steps.{off}
use atmega_a.Commands.{skip, read_node, print_nodes}

-- The ids that are present among the `n` from `x` on, in order.
pub ids_from : List ℕ → ℕ → ℕ → List ℕ
ids_from table zero x = []
ids_from table (suc n) x =
    if is_present table x then x ∷ ids_from table n (suc x) else ids_from table n (suc x)

-- Each with a comma in front.
pub print_ids : List ℕ → H (Unit {0})
print_ids [] = skip
print_ids (x ∷ ids) = putstring "," >> (print_number x >> print_ids ids)

module _ ⦃io : Io⦄ (table : List ℕ) where
  -- The walk from a node that is present, told by the table.
  next_lem :
      (m : Mesh) (x k : ℕ)
      → m.presence_table ≡ table
      → x + suc k ≡ 255
      → get_next_present_node m x ≡ next_present_from table k (suc x)
  unfolding get_next_present_node
  next_lem m x k same total =
      let going : (x == 0xFF) ≡ false = ground arith in
      let rounds : 0xFF - (x + 1) ≡ k = omega arith in
      let first : x + 1 ≡ suc x = omega arith in rw (going, rounds, first, same) refl

  -- The host after the print of an id.
  printed : ℕ → Host → Host
  printed x h = (print_number x (putstring "," h).1).1

  printed_table : (x : ℕ) (h : Host) → (printed x h).node.presence_table ≡ h.node.presence_table
  unfolding printed putstring print_number print write_text
  printed_table x h = refl

  pub print_nodes_from :
      (k n x : ℕ) (h : Host)
      → h.node.presence_table ≡ table
      → 1 ≤ x
      → x + k ≡ 255
      → k < n
      → print_nodes n (next_present_from table k x) h ≡ print_ids (ids_from table k x) h
  unfolding print_nodes ids_from print_ids next_present_from printed
  print_nodes_from k zero x h same low total fuel = absurd (omega arith)
  print_nodes_from zero (suc n) x h same low total fuel = refl
  print_nodes_from (suc k) (suc n) x h same low total fuel =
      elim (Bool-cases (is_present table x)) [
        | inl e ↦
            let there : (x == 0) ≡ false = ground arith in
            let h' : Host = printed x h in
            rw e (
              off (x == 0) there
                (putstring ","
                  >> (print_number x
                      >> (read_node (λ m. get_next_present_node m x) >>= λ next.
                          print_nodes n next)))
                skip h
              ∙ ap (λ next. print_nodes n next h')
                  (next_lem (h'.node) x k (printed_table x h ∙ same) (omega arith))
              ∙ print_nodes_from k n (suc x) h' (printed_table x h ∙ same) (omega arith)
                  (omega arith) (omega arith))
        | inr e ↦
            rw e
              (print_nodes_from k (suc n) (suc x) h same (omega arith) (omega arith) (omega arith))
      ]
