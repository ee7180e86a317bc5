-- ===== src/Tests/Drivers.antt =====
-- The theorems on the radio driver and the random delay at concrete inputs.
use atmega_a.Prelude.{◌≤◌, ◌<◌, ◌≡◌, ◌≢◌, ◌&&◌, ◌==◌, arith, true, false, [], ◌∷◌, ltb, byte_at}
use atmega_a.World.{int_ignore_one}
use atmega_a.Radio.{invalid_fifo_length, is_fifo_length, write_data}
use atmega_a.Radio.Transfer.{Refused, Sent, counts_seen, write_data_lem}
use atmega_a.Radio.{init_error, calibration_error, invalid_channel}
use atmega_a.Radio.{no_data, strobe_rst_rdptr, max_fifo_size, read_data}
use atmega_a.Radio.Transfer.{transfers}
use atmega_a.Radio.Receipt.{
  Received, reset_after, seen_after, reads_onto, nothing_came, checked_onto, read_data_lem,
}
use atmega_a.Radio.Setup.{easy_setup_radio}
use atmega_a.Mesh.{ok, not_joined}
use atmega_a.Mesh.Valid.{IsValid}
use atmega_a.Setup.{mesh_initialize, set_node_registers}
use atmega_a.Setup.Fresh.{mesh_initialize-IsValid}
use atmega_a.Tests.{node, node-IsValid, letter, letter-IsRegister, silent, buffer}

write_data_lem_example :
    let r = node.radio in
    let out = write_data r buffer 8 node.world in
    (is_fifo_length 8 ≡ false → (out.0 ≡ invalid_fifo_length) × (out.1 ≡ node.world))
    × (is_fifo_length 8 ≡ true
        → (ltb 0 r.interrupt_pin
            && byte_at (counts_seen r node.world) r.interrupt_pin == int_ignore_one)
          ≡ true
        → Refused r node.world out)
    × (is_fifo_length 8 ≡ true
        → (ltb 0 r.interrupt_pin
            && byte_at (counts_seen r node.world) r.interrupt_pin == int_ignore_one)
          ≡ false
        → Sent r buffer 8 node.world out)
write_data_lem_example = write_data_lem node.radio buffer 8 node.world

mesh_initialize-IsValid_example :
    let (s, r) = mesh_initialize 10 8 0x12345678 1 5 7 3 node in
    let code = (easy_setup_radio node.radio 10 8 0x12345678 1 5 7 true true node.world).0.0 in
    IsValid (set_node_registers (letter ∷ []) 1 r)
    × (1 ≤ r.unique_id)
    × (r.state ≡ not_joined)
    × (s ≡ ok → (code ≢ init_error) × (code ≢ calibration_error) × (code ≢ invalid_channel))
unfolding silent
mesh_initialize-IsValid_example =
    mesh_initialize-IsValid 10 8 0x12345678 1 5 7 3 node (letter ∷ []) 1
      (λ events low high h. (omega arith, h))
      (record {
        pending = node-IsValid.pending;
        register_valid = node-IsValid.register_valid;
        node_byte = node-IsValid.node_byte;
        pending_target_byte = node-IsValid.pending_target_byte;
      })
      (letter-IsRegister, tt) (omega arith) (omega arith)

read_data_lem_example :
    let r = node.radio in
    let ((s, out), w) = read_data r buffer 8 node.world in
    (max_fifo_size < 8 → (s ≡ invalid_fifo_length) × (out ≡ buffer) × (w ≡ node.world))
    × (8 ≤ max_fifo_size
        → nothing_came r node.world ≡ true
        → (s ≡ no_data) × (out ≡ buffer) × (transfers w.events ≡ transfers node.world.events))
    × (8 ≤ max_fifo_size
        → nothing_came r node.world ≡ false
        → Received r buffer 8 (reset_after r (seen_after r node.world.events)) s out
          × (transfers w.events
              ≡ checked_onto r (reads_onto 8 (strobe_rst_rdptr ∷ transfers node.world.events))))
read_data_lem_example = read_data_lem node.radio buffer 8 node.world
