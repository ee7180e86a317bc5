-- ===== src/Mesh/Lawful.antt =====
-- Clients that keep the invariant of their node.
use atmega_a.Prelude.{ℕ, ◌≡◌, ◌≢◌, true, false, ◌∙◌, sym, ap}
use atmega_a.Mesh.{Mesh, Client, State, Status, not_joined, same_state}
use atmega_a.Mesh.Safe.{IsSafe}

-- The functions of the client keep what the library relies on.
pub record IsLawful (client : Client) : Type 0 where
  pub finished :
      (k : ℕ) (status : Status) (m : Mesh) → IsSafe m → IsSafe (client.finished k status m)
  pub on_set : (k i : ℕ) (m : Mesh) → IsSafe m → IsSafe (client.on_set_register k i m).1
  pub on_get : (k i : ℕ) (m : Mesh) → IsSafe m → IsSafe (client.on_get_register k i m)
  pub on_broadcast : (k : ℕ) (m : Mesh) → IsSafe m → IsSafe (client.on_broadcast k m)

-- A node in another state than NOT_JOINED, by a test of its state.
pub is_joined :
    (m : Mesh) (s : State)
    → same_state m.state s ≡ true
    → same_state not_joined s ≡ false
    → m.state ≢ not_joined
is_joined m s e f q =
    let g : same_state not_joined s ≡ true = ap (λ x. same_state x s) (sym q) ∙ e in cc
