-- ===== src/Blocking/Rounds.antt =====
-- A round of `A7105_Mesh_Update` of a node that waits for the end of a PING and receives nothing,
-- libraries/a7105_mesh/a7105_mesh.cpp.
use atmega_a.Prelude.{
  ℕ, zero, suc, ◌≡◌, refl, ap, Bool, true, false, if◌then◌else◌, some, replicate,
}
use atmega_a.World.{Io}
use atmega_a.Radio.{StatusCode, no_data, check_rx_waiting}
use atmega_a.Mesh.{
  State, joining, idle, pinging, getting_num_registers, getting_register_name, getting_register,
  setting_register, ok, no_status, blocking_op_finished, Mesh, Client, same_state, is_past,
  on_radio, ping_timeout,
}
use atmega_a.Join.{finish_operation, call_back, update_join}
use atmega_a.Ping.{update_ping}
use atmega_a.Query.{check_for_timeout}
use atmega_a.Repeater.{update_repeats, update_response_repeats, update_request_repeats}
use atmega_a.Update.{handle_rx, read_packet, check_for_timeouts, update}

-- A node that waits for the end of a blocking PING that nobody answered so far.
pub record Waiting (m : Mesh) : Type 0 where
  pub state : m.state ≡ pinging
  pub callback : m.operation_callback ≡ some blocking_op_finished
  pub status : m.blocking_operation_status ≡ no_status
  pub presence : m.presence_table ≡ replicate 32 0

-- One whose PING has ended with success and found nobody.
pub record Ended (m : Mesh) : Type 0 where
  pub state : m.state ≡ idle
  pub status : m.blocking_operation_status ≡ ok
  pub presence : m.presence_table ≡ replicate 32 0

module _ ⦃io : Io⦄ ⦃client : Client⦄ where
  -- The look for a packet, with the node after it, and whether the PING has timed out by then.
  abbrev pub rx_look : Mesh → StatusCode × Mesh
  rx_look = on_radio check_rx_waiting

  abbrev pub time_look : Mesh → Bool × Mesh
  time_look m = is_past m.request_sent_time ping_timeout (rx_look m).1

  -- The node after some rounds of `A7105_Mesh_Update`.
  unfoldable pub rounds : ℕ → Mesh → Mesh
  rounds zero m = m
  rounds (suc k) m = rounds k (update m)

  pub handle_rx_quiet : (m : Mesh) → (rx_look m).0 ≡ no_data → handle_rx m ≡ (rx_look m).1
  unfolding handle_rx
  handle_rx_quiet m quiet = ap (λ s. read_packet s (rx_look m).1) quiet

  pub join_passed : (m : Mesh) → same_state m.state joining ≡ false → update_join m ≡ m
  unfolding update_join
  join_passed m other = rw other refl

  pub timeout_passed :
      (s : State) (limit : ℕ) (m : Mesh)
      → same_state m.state s ≡ false
      → check_for_timeout s limit m ≡ m
  unfolding check_for_timeout
  timeout_passed s limit m other = rw other refl

  -- What `A7105_Mesh_Update` does with a waiting node before the repeaters.
  pub settled : Mesh → Mesh
  settled m = if (time_look m).0 then finish_operation ok (time_look m).1 else (time_look m).1

  pub ping_looked :
      (m : Mesh) → same_state m.state pinging ≡ true → update_ping (rx_look m).1 ≡ settled m
  unfolding update_ping settled
  ping_looked m here = rw here refl

  -- No operation with a timeout of its own is under way.
  abbrev pub NoRequest : Mesh → Type 0
  NoRequest m =
      (same_state m.state getting_num_registers ≡ false)
      × (same_state m.state getting_register_name ≡ false)
      × (same_state m.state getting_register ≡ false)
      × (same_state m.state setting_register ≡ false)

  pub no_timeouts : (m : Mesh) → NoRequest m → check_for_timeouts m ≡ m
  unfolding check_for_timeouts
  no_timeouts m (a, b, c, d) =
      rw
        (
          timeout_passed getting_num_registers _ m a,
          timeout_passed getting_register_name _ m b,
          timeout_passed getting_register _ m c,
          timeout_passed setting_register _ m d,
        )
        refl

  pub settled_late :
      (m : Mesh)
      → Waiting m
      → (time_look m).0 ≡ true
      → settled m ≡ record ((time_look m).1) { state = idle; blocking_operation_status = ok }
  unfolding settled finish_operation call_back is_past
  settled_late m w late =
      rw late (ap (λ c. call_back c ok (record ((time_look m).1) { state = idle })) w.callback)

  pub settled_early : (m : Mesh) → (time_look m).0 ≡ false → settled m ≡ (time_look m).1
  unfolding settled
  settled_early m early = rw early refl

  pub update_lem :
      (m : Mesh)
      → Waiting m
      → (rx_look m).0 ≡ no_data
      → NoRequest (settled m)
      → update m ≡ update_request_repeats (update_response_repeats (update_repeats (settled m)))
  unfolding update
  update_lem m w quiet none_other =
      rw
        (
          handle_rx_quiet m quiet,
          join_passed (rx_look m).1 (ap (λ s. same_state s joining) w.state),
          ping_looked m (ap (λ s. same_state s pinging) w.state),
          no_timeouts (settled m) none_other,
        )
        refl
