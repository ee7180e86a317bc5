-- ===== src/Blocking/Ends.antt =====
-- A blocking PING of a node whose radio receives nothing ends by its timeout, with success:
-- `A7105_Mesh_Ping` and `A7105_Mesh_Update` of libraries/a7105_mesh/a7105_mesh.cpp.
use atmega_a.Prelude.{
  ℕ, zero, suc, ◌+◌, ◌≤◌, ◌≡◌, ◌∙◌, refl, ap, arith, true, false, not, ◌⊎◌, Bool-cases, inl, inr,
  if◌then◌else◌, none, some, replicate,
}
use atmega_a.World.{Io, millis}
use atmega_a.Radio.{no_data}
use atmega_a.Radio.Prompt.{IsPrompt, check_rx_waiting-stuck}
use atmega_a.Packet.{pkt_ping, set_packet_seq, set_packet_hop}
use atmega_a.Mesh.{
  State, idle, pinging, getting_num_registers, getting_register_name, getting_register,
  setting_register, Status, ok, no_status, blocking_op_finished, Mesh, Client, is_off_mesh,
  not_on_mesh, mesh_busy, same_state, is_past,
}
use atmega_a.Send.{packet_header, prep_packet_header, send_request}
use atmega_a.Send.Frame.{send_request-Kept}
use atmega_a.Join.{prep_finishing_callback}
use atmega_a.Ping.{is_node_idle, ping}
use atmega_a.Update.{update, wait_from, complete}
use atmega_a.Blocking.{mesh_ping}
use atmega_a.Blocking.Steady.{repeaters-Steady}
use atmega_a.Blocking.Going.{Going, Going-step, repeaters-Going, send_request-Going}
use atmega_a.Blocking.Rounds.{
  Waiting, Ended, rx_look, time_look, rounds, settled, NoRequest, settled_late, settled_early,
  update_lem,
}

module _ ⦃io : Io⦄ ⦃client : Client⦄ where
  in-NoRequest : (m : Mesh) (s : State) → m.state ≡ s → (s ≡ pinging) ⊎ (s ≡ idle) → NoRequest m
  in-NoRequest m s e (inl p) = (
    ap (λ t. same_state t getting_num_registers) (e ∙ p),
    ap (λ t. same_state t getting_register_name) (e ∙ p),
    ap (λ t. same_state t getting_register) (e ∙ p),
    ap (λ t. same_state t setting_register) (e ∙ p),
  )
  in-NoRequest m s e (inr p) = (
    ap (λ t. same_state t getting_num_registers) (e ∙ p),
    ap (λ t. same_state t getting_register_name) (e ∙ p),
    ap (λ t. same_state t getting_register) (e ∙ p),
    ap (λ t. same_state t setting_register) (e ∙ p),
  )

  update-Ended :
      (m : Mesh) → Waiting m → (rx_look m).0 ≡ no_data → (time_look m).0 ≡ true → Ended (update m)
  unfolding is_past
  update-Ended m w quiet late =
      let here = settled_late m w late in
      let idle_then : (settled m).state ≡ idle = ap (λ x. x.state) here in
      let kept = repeaters-Steady (settled m) in
      rw (update_lem m w quiet (in-NoRequest (settled m) idle idle_then (inr refl))) (record {
        state = kept.state ∙ idle_then;
        status = kept.status ∙ ap (λ x. x.blocking_operation_status) here;
        presence = kept.presence ∙ ap (λ x. x.presence_table) here ∙ w.presence;
      })

  update-Waiting :
      (m : Mesh)
      → Waiting m
      → (rx_look m).0 ≡ no_data
      → (time_look m).0 ≡ false
      → Waiting (update m)
  unfolding is_past
  update-Waiting m w quiet early =
      let here = settled_early m early in
      let pinging_then : (settled m).state ≡ pinging = ap (λ x. x.state) here ∙ w.state in
      let kept = repeaters-Steady (settled m) in
      rw (update_lem m w quiet (in-NoRequest (settled m) pinging pinging_then (inl refl))) (record {
        state = kept.state ∙ pinging_then;
        callback = kept.callback ∙ ap (λ x. x.operation_callback) here ∙ w.callback;
        status = kept.status ∙ ap (λ x. x.blocking_operation_status) here ∙ w.status;
        presence = kept.presence ∙ ap (λ x. x.presence_table) here ∙ w.presence;
      })

  looked-Going : {m : Mesh} → Going m → Going (time_look m).1
  unfolding is_past millis
  looked-Going {m} g = Going-step _ g refl refl (check_rx_waiting-stuck m.radio m.world)

  update-Going : (m : Mesh) → Waiting m → (rx_look m).0 ≡ no_data → Going m → Going (update m)
  unfolding is_past
  update-Going m w quiet g = elim (Bool-cases (time_look m).0) [
    | inl late ↦
        let here = settled_late m w late in
        let idle_then : (settled m).state ≡ idle = ap (λ x. x.state) here in
        rw (update_lem m w quiet (in-NoRequest (settled m) idle idle_then (inr refl)), here)
          (repeaters-Going (Going-step _ (looked-Going g) refl refl refl))
    | inr early ↦
        let here = settled_early m early in
        let pinging_then : (settled m).state ≡ pinging = ap (λ x. x.state) here ∙ w.state in
        rw (update_lem m w quiet (in-NoRequest (settled m) pinging pinging_then (inl refl)), here)
          (repeaters-Going (looked-Going g))
  ]

  -- One round of the wait, and its end.
  goes_round :
      (n : ℕ) (m : Mesh)
      → m.blocking_operation_status ≡ no_status
      → wait_from (suc n) m ≡ wait_from n (update m)
  unfolding wait_from
  goes_round n m e =
      ap (λ (s : Status). let r : Mesh = elim s [ no_status ↦ wait_from n (update m) | _ ↦ m ] in r)
        e

  has_ended : (n : ℕ) (m : Mesh) → m.blocking_operation_status ≡ ok → wait_from (suc n) m ≡ m
  unfolding wait_from
  has_ended n m e =
      ap (λ (s : Status). let r : Mesh = elim s [ no_status ↦ wait_from n (update m) | _ ↦ m ] in r)
        e

  wait_from-Ended :
      (k n : ℕ) (m : Mesh)
      → Waiting m
      → k + 2 ≤ n
      → ((j : ℕ) → j ≤ k → (rx_look (rounds j m)).0 ≡ no_data)
      → (time_look (rounds k m)).0 ≡ true
      → Going m
      → Ended (wait_from n m) × Going (wait_from n m)
  unfolding rounds
  wait_from-Ended k zero m w fuel quiet late g = absurd (omega arith)
  wait_from-Ended k (suc zero) m w fuel quiet late g = absurd (omega arith)
  wait_from-Ended zero (suc (suc n)) m w fuel quiet late g =
      let ended = update-Ended m w (quiet 0 (omega arith)) late in
      rw (goes_round (suc n) m w.status, has_ended n (update m) ended.status)
        (ended, update-Going m w (quiet 0 (omega arith)) g)
  wait_from-Ended (suc k) (suc (suc n)) m w fuel quiet late g = elim (Bool-cases (time_look m).0) [
    | inl now_late ↦
        let ended = update-Ended m w (quiet 0 (omega arith)) now_late in
        rw (goes_round (suc n) m w.status, has_ended n (update m) ended.status)
          (ended, update-Going m w (quiet 0 (omega arith)) g)
    | inr early ↦ rw (goes_round (suc n) m w.status) (
        wait_from-Ended k (suc n) (update m) (update-Waiting m w (quiet 0 (omega arith)) early)
          (omega arith) (λ j l. quiet (suc j) (omega arith)) late
          (update-Going m w (quiet 0 (omega arith)) g))
  ]

  -- The PING packet of an idle node, before it goes out.
  ping_request : Mesh → Mesh
  unfolding prep_finishing_callback
  ping_request m =
      let started = record m { state = pinging; target_node_id = 0; target_unique_id = 0 } in
      let called = prep_finishing_callback none (some blocking_op_finished) started in
      prep_packet_header (record called { presence_table = replicate 32 0 }) pkt_ping

  ping_started : (m : Mesh) → m.state ≡ idle → ping none m ≡ (ok, send_request (ping_request m))
  unfolding ping ping_request
  ping_started m e =
      let is_ok : is_node_idle m ≡ ok =
        ap
          (λ s.
            if is_off_mesh s
            then not_on_mesh
            else if not (same_state s idle)
            then mesh_busy
            else ok)
          e in
      ap
        (λ (s : Status).
          let r : Status × Mesh = elim s [
            | ok ↦ (ok, send_request (ping_request m))
            | refusal ↦ (refusal, m)
          ] in
          r)
        is_ok

  ping_started-Waiting : (m : Mesh) → Waiting (send_request (ping_request m))
  unfolding ping_request prep_packet_header
  ping_started-Waiting m =
      let kept = (send_request-Kept (ping_request m)).0 in
      record {
        state = kept.state;
        callback = kept.operation_callback;
        status = kept.blocking_status;
        presence = kept.presence_table;
      }

  ping_started-Going : {m : Mesh} → Going m → Going (send_request (ping_request m))
  unfolding ping_request prep_packet_header packet_header set_packet_seq set_packet_hop
  ping_started-Going g = send_request-Going refl (Going-step _ g refl refl refl)

  -- A blocking PING of an idle node comes back with success, with the node idle again and nobody
  -- present, and no loop has run out of patience or left the registers, if the radio receives nothing, the
  -- clock has passed the timeout at some round, the wait has the rounds for that, the chip ends each
  -- transmission within the patience of the wait for it, no response waits to be repeated, and nothing had
  -- run out before.
  pub mesh_ping_ends :
      (m : Mesh) (k : ℕ)
      → m.state ≡ idle
      → k + 2 ≤ io.patience
      → ((j : ℕ) → j ≤ k → (rx_look (rounds j (ping none m).1)).0 ≡ no_data)
      → (time_look (rounds k (ping none m).1)).0 ≡ true
      → IsPrompt m.radio
      → m.response_repeat_cache_size ≡ 0
      → m.world.stuck ≡ false
      → ((mesh_ping none m).0 ≡ ok)
        × Ended (mesh_ping none m).1
        × ((mesh_ping none m).1.world.stuck ≡ false)
  unfolding mesh_ping complete
  mesh_ping_ends m k is_idle fuel quiet late prompt empty free =
      let started = ap (λ r. r.1) (ping_started m is_idle) in
      let ended =
        wait_from-Ended k io.patience (send_request (ping_request m)) (ping_started-Waiting m) fuel
          (rw started at quiet) (rw started at late)
          (ping_started-Going (record { prompt = prompt; empty = empty; free = free })) in
      rw (ping_started m is_idle) (ended.0.status, ended.0, ended.1.free)
