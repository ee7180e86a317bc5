-- ===== src/RegisterHost/Lawful.antt =====
-- The sample node is a client that keeps the invariant of its node, and its loop keeps it forever:
-- examples/register_host_test/atmega_a7105.ino.
use atmega_a.Prelude.{
  ℕ, zero, suc, ◌≡◌, none, false, List, refl, arith, length, replicate, length-replicate,
  All-replicate,
}
use atmega_a.World.{Io, write_text, emit, pin_output, pin_input}
use atmega_a.Packet.{IsByte}
use atmega_a.Register.{IsRegister, max_array_size}
use atmega_a.Text.{codes}
use atmega_a.Mesh.{Mesh, ok, on_radio}
use atmega_a.Mesh.Safe.{IsSafe, IsSafe-same}
use atmega_a.Mesh.Started.{IsSafe-register_cache}
use atmega_a.Mesh.Lawful.{IsLawful}
use atmega_a.Serve.Store.{put_message-IsRegister, All-bytes}
use atmega_a.Values.{register_set_error, put_message}
use atmega_a.Mesh.Delay.{IsRandom}
use atmega_a.Send.{listen}
use atmega_a.Setup.{mesh_initialize, cleared, set_node_registers}
use atmega_a.Setup.Fresh.{IsMemory}
use atmega_a.Join.Safe.{join-IsSafe}
use atmega_a.Blocking.{mesh_join, mesh_join_first}
use atmega_a.Update.{update}
use atmega_a.Update.Safe.{update-IsSafe, complete-IsSafe}
use atmega_a.RegisterHost.{
  Sample, sample_client, set_called, b_get_register_called, init_radio, setup, loop,
}
use atmega_a.RegisterHost.Served.{init_radio-Serves}

abbrev message : List ℕ
message = codes "dunno, broke?"

set_called-IsSafe : (k : ℕ) (m : Mesh) → IsSafe m → IsSafe (set_called k m).1
unfolding set_called write_text register_set_error
set_called-IsSafe zero m s = IsSafe-same _ s refl
set_called-IsSafe (suc k) m s =
    IsSafe-same _
      (IsSafe-register_cache s (record {
        size = r.size;
        bytes = r.bytes;
        name_fits = r.name_fits;
        data_fits = r.data_fits;
      }))
      refl
  where
    zeroed : IsRegister (record (m.register_cache) { contents = replicate max_array_size 0 })
    zeroed = record {
      size = length-replicate {A = ℕ} 57 0;
      bytes = All-replicate IsByte 57 0 (omega arith);
      name_fits = s.valid.register_valid.name_fits;
      data_fits = s.valid.register_valid.data_fits;
    }

    r : IsRegister (
        put_message message 0 (record (m.register_cache) { contents = replicate max_array_size 0 }))
    r = put_message-IsRegister message 0 (All-bytes message refl) zeroed

sample_client-IsLawful : IsLawful sample_client
unfolding b_get_register_called write_text
sample_client-IsLawful = record {
  finished = λ k status m s. s;
  on_set = λ k i m s. set_called-IsSafe k m s;
  on_get = λ k i m s. IsSafe-same _ s refl;
  on_broadcast = λ k m s. s;
}

module _ ⦃io : Io⦄ where
  -- The loop of the sample for some rounds.
  unfoldable pub loops : ℕ → Sample → Sample
  unfolding loop
  loops zero h = h
  loops (suc n) h = loops n (loop h)

  loops-IsSafe : (n : ℕ) (h : Sample) → IsSafe h.node → IsSafe (loops n h).node
  unfolding loops
  loops-IsSafe zero h s = s
  loops-IsSafe (suc n) h s =
      loops-IsSafe n (record h { node = update h.node })
        (update-IsSafe sample_client-IsLawful h.node s)

  init_radio-IsSafe :
      (h : Sample)
      → IsRandom io
      → IsMemory h.node
      → length h.ascii_buffer ≡ 64
      → IsSafe (init_radio h).node
  unfolding init_radio set_node_registers mesh_initialize cleared listen
  init_radio-IsSafe h lawful memory size = record {
    valid = (init_radio-Serves h lawful memory size).0;
    few = omega arith;
    resumed = λ e. cc;
  }

  -- The three pins that `setup` sets up.
  abbrev pinned : Mesh → Mesh
  pinned m =
      (on_radio (λ _. emit (pin_output 13))
        (on_radio (λ _. emit (pin_input 12)) (on_radio (λ _. emit (pin_output 11)) m).1).1).1

  -- With a lawful random number generator, memory in order and a buffer of 64 bytes, the node of the sample
  -- is safe after `setup` and any number of rounds of `loop`, whatever the chip, the clock and the serial
  -- port answer and whatever packets come in.
  pub setup-loops-IsSafe :
      (n : ℕ) (h : Sample)
      → IsRandom io
      → IsMemory h.node
      → length h.ascii_buffer ≡ 64
      → IsSafe (loops n (setup h)).node
  unfolding setup mesh_join_first mesh_join emit
  setup-loops-IsSafe n h lawful memory size =
      let ready : IsMemory (pinned h.node) = record {
        pending = memory.pending;
        register_valid = memory.register_valid;
        node_byte = memory.node_byte;
        pending_target_byte = memory.pending_target_byte;
      } in
      let started = init_radio-IsSafe (record h { node = pinned h.node }) lawful ready size in
      loops-IsSafe n (setup h) (
        complete-IsSafe sample_client-IsLawful none ok
          (join-IsSafe 1 none false started (omega arith) (λ e. cc) (λ e. cc)))
