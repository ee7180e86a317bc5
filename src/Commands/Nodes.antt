-- ===== src/Commands/Nodes.antt =====
-- The loops of `ping_mesh` and `list_registers` over the nodes that are present.
use atmega_a.Prelude.{
  ℕ, zero, suc, ◌+◌, ◌≤◌, ◌<◌, ◌≡◌, ◌≢◌, ◌⊎◌, inl, inr, ◌∙◌, refl, sym, ap, arith, Bool, true,
  false, none, List, ◌%◌, ◌==◌, if◌then◌else◌, Bool-cases,
}
use atmega_a.World.{Io}
use atmega_a.Mesh.{
  State, not_joined, joining, idle, pinging, getting_num_registers, getting_register_name,
  getting_register, setting_register, Status, not_on_mesh, mesh_busy, Mesh, is_off_mesh, same_state,
}
use atmega_a.Codec.{no_register}
use atmega_a.Update.{complete}
use atmega_a.Values.Started.{operations_refused}
use atmega_a.Ping.{get_next_present_node}
use atmega_a.Ping.Presence.{IsNext, get_next_present_node_lem}
use atmega_a.Host.{
  Host, H, ◌>>=◌, ◌>>◌, putstring, print_line, serial_client, call, settle, output_error,
}
use atmega_a.Host.Steps.{on, off}
use atmega_a.Blocking.{mesh_ping, mesh_get_num_registers_of}
use atmega_a.Commands.{read_node, print_nodes, ping_failed, ping_mesh, names_of, list_nodes}
use atmega_a.Commands.Walk.{ids_from, print_ids, print_nodes_from}

-- How far a walk has come: with `n` rounds it ends before the fuel does.
abbrev Near : ℕ → ℕ → Type 0
Near current_node n = (current_node ≡ 0) ⊎ ((current_node < 255) × (256 ≤ current_node + n))

next-Near :
    (table : List ℕ) (start n next : ℕ)
    → IsNext table (start + 1) 255 next
    → 256 ≤ start + suc n
    → Near next n
next-Near table start n next (inl (z, _)) h = inl z
next-Near table start n next (inr (l, below, _, _)) h = inr (below, omega arith)

next_bound :
    (current_node n : ℕ) (m : Mesh)
    → (current_node == 0) ≡ false
    → Near current_node (suc n)
    → Near (get_next_present_node m current_node) n
next_bound current_node n m e (inl z) = absurd (ground arith)
next_bound current_node n m e (inr (below, far)) =
    next-Near m.presence_table current_node n (get_next_present_node m current_node)
      (get_next_present_node_lem m current_node below) far

-- The nodes of an answer to PING.
abbrev pub print_present : H (Unit {0})
print_present h = print_ids (ids_from h.node.presence_table 254 1) h

off_not_idle : (s : State) → is_off_mesh s ≡ true → same_state s idle ≡ false
off_not_idle not_joined e = refl
off_not_idle joining e = refl
off_not_idle idle e = sym e
off_not_idle pinging e = refl
off_not_idle getting_num_registers e = refl
off_not_idle getting_register_name e = refl
off_not_idle getting_register e = refl
off_not_idle setting_register e = refl

module _ ⦃io : Io⦄ where
  print_nodes_lem :
      (h : Host) → print_nodes 255 (get_next_present_node h.node 0) h ≡ print_present h
  unfolding get_next_present_node
  print_nodes_lem h =
      print_nodes_from h.node.presence_table 254 255 1 h refl (omega arith) refl (omega arith)

  -- What `ping_mesh` does with the status that its call gives.
  answer : H (Unit {0})
  answer =
      putstring "PING"
      >> (read_node (λ m. get_next_present_node m 0) >>= λ first.
          print_nodes 255 first >> print_line)

  answer_lem : (h : Host) → answer h ≡ (putstring "PING" >> (print_present >> print_line)) h
  unfolding answer
  answer_lem h i = print_line (print_nodes_lem (putstring "PING" h).1 i).1

  ping_passed :
      (result : Status) (success : H (Unit {0})) (h : Host)
      → result ≢ not_on_mesh
      → result ≢ mesh_busy
      → ping_failed result success h ≡ success h
  unfolding ping_failed
  ping_passed not_on_mesh success h a b = absurd (a refl)
  ping_passed mesh_busy success h a b = absurd (b refl)
  ping_passed _ success h a b = refl

  -- The call of a node that is not idle.
  not_pinged :
      (h : Host)
      → same_state h.node.state idle ≡ false
      → call (mesh_ping none) h
        ≡ ((if is_off_mesh h.node.state then not_on_mesh else mesh_busy), settle h)
  unfolding call mesh_ping complete
  not_pinged h e = elim (Bool-cases (is_off_mesh h.node.state)) [
    | inl off ↦ rw (off, rw off at (operations_refused none 0 0 0 no_register h.node e).0) refl
    | inr on ↦ rw (on, rw on at (operations_refused none 0 0 0 no_register h.node e).0) refl
  ]

  -- The command PING of a node that is off the mesh is answered by the error "Node not joined to a
  -- mesh" with its status, that of a node on the mesh that is not idle by the error "Node is busy with
  -- another operation"; neither changes more than the call of the library does before it starts
  -- anything. If the call gives any other status, the answer is the line PING with each id from 1 to 254
  -- that is present after the wait, in order.
  pub ping_mesh_lem :
      (h : Host)
      → (is_off_mesh h.node.state ≡ true
          → ping_mesh h ≡ output_error not_on_mesh "Node not joined to a mesh" (settle h))
        × (is_off_mesh h.node.state ≡ false
            → same_state h.node.state idle ≡ false
            → ping_mesh h ≡ output_error mesh_busy "Node is busy with another operation" (settle h))
        × ((call (mesh_ping none) h).0 ≢ not_on_mesh
            → (call (mesh_ping none) h).0 ≢ mesh_busy
            → ping_mesh h
              ≡ (putstring "PING" >> (print_present >> print_line)) (call (mesh_ping none) h).1)
  unfolding ping_mesh ping_failed answer
  ping_mesh_lem h = (
    (λ off. rw (not_pinged h (off_not_idle h.node.state off), off) refl),
    (λ on e. rw (not_pinged h e, on) refl),
    (λ a b.
        ping_passed (call (mesh_ping none) h).0 answer (call (mesh_ping none) h).1 a b
        ∙ answer_lem (call (mesh_ping none) h).1),
  )

  -- What a round of the loop of `list_registers` goes on with.
  on_from : ℕ → ℕ → ℕ → Bool → H ℕ
  on_from n current_node node_error_count failed g =
      list_nodes n (get_next_present_node (g.node) current_node)
        (if failed then (node_error_count + 1) % 256 else node_error_count) g

  list_nodes_end :
      (n current_node node_error_count : ℕ) (h : Host)
      → (current_node == 0) ≡ true
      → list_nodes n current_node node_error_count h ≡ (node_error_count, h)
  unfolding list_nodes
  list_nodes_end zero current_node node_error_count h e = refl
  list_nodes_end (suc n) current_node node_error_count h e = on (current_node == 0) e _ _ h

  list_nodes_round :
      (n current_node node_error_count : ℕ) (h : Host)
      → (current_node == 0) ≡ false
      → list_nodes (suc n) current_node node_error_count h
        ≡ (call (mesh_get_num_registers_of current_node none) >>= λ status.
              names_of current_node status >>= on_from n current_node node_error_count)
            h
  unfolding list_nodes on_from
  list_nodes_round n current_node node_error_count h e = off (current_node == 0) e _ _ h

  -- After 255 rounds at most the loop of `list_registers` over the nodes has ended by its own test:
  -- more rounds change nothing.
  list_nodes_step :
      (n current_node node_error_count : ℕ) (h : Host)
      → Near current_node n
      → list_nodes (suc n) current_node node_error_count h
        ≡ list_nodes n current_node node_error_count h
  unfolding on_from
  list_nodes_step zero current_node node_error_count h bound =
      let e : (current_node == 0) ≡ true = ground arith in
      list_nodes_end 1 current_node node_error_count h e
      ∙ sym (list_nodes_end 0 current_node node_error_count h e)
  list_nodes_step (suc n) current_node node_error_count h bound =
      elim (Bool-cases (current_node == 0)) [
        | inl e ↦
            list_nodes_end (suc (suc n)) current_node node_error_count h e
            ∙ sym (list_nodes_end (suc n) current_node node_error_count h e)
        | inr e ↦
            list_nodes_round (suc n) current_node node_error_count h e
            ∙ (λ i.
                (call (mesh_get_num_registers_of current_node none) >>= λ status.
                names_of current_node status >>= λ failed g.
                list_nodes_step n (get_next_present_node (g.node) current_node)
                  (if failed then (node_error_count + 1) % 256 else node_error_count) g
                  (next_bound current_node n (g.node) e bound) i)
                  h)
            ∙ sym (list_nodes_round n current_node node_error_count h e)
      ]

  more_rounds :
      (extra current_node node_error_count : ℕ) (h : Host)
      → Near current_node 255
      → list_nodes (extra + 255) current_node node_error_count h
        ≡ list_nodes 255 current_node node_error_count h
  more_rounds zero current_node node_error_count h bound =
      ap (λ n. list_nodes n current_node node_error_count h) (omega arith)
  more_rounds (suc extra) current_node node_error_count h bound =
      ap (λ n. list_nodes n current_node node_error_count h) (omega arith)
      ∙ list_nodes_step (extra + 255) current_node node_error_count h (wider bound)
      ∙ more_rounds extra current_node node_error_count h bound
    where
      wider : Near current_node 255 → Near current_node (extra + 255)
      wider (inl z) = inl z
      wider (inr (l, m)) = inr (l, omega arith)

  -- The loop of `list_registers` over the nodes ends by its own test: from the first node that is
  -- present on, whatever the calls of the library do meanwhile, more than 255 rounds change nothing.
  pub list_nodes_ends :
      (extra : ℕ) (m : Mesh) (h : Host)
      → list_nodes (extra + 255) (get_next_present_node m 0) 0 h
        ≡ list_nodes 255 (get_next_present_node m 0) 0 h
  list_nodes_ends extra m h = more_rounds extra (get_next_present_node m 0) 0 h (
      next-Near m.presence_table 0 255 (get_next_present_node m 0)
        (get_next_present_node_lem m 0 (omega arith)) (omega arith))
