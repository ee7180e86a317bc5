-- ===== src/Tests/Samples.antt =====
-- The sample node at a concrete memory.
use atmega_a.Prelude.{◌≤◌, ◌≡◌, refl, arith, [], ◌∷◌, replicate}
use atmega_a.Mesh.Valid.{IsValid}
use atmega_a.RegisterHost.{Sample, init_radio}
use atmega_a.RegisterHost.Served.{Serves, init_radio-Serves}
use atmega_a.Tests.{node, node-IsValid, letter, silent}

abbrev pub sample : Sample
sample = record {
  node = node;
  reg_a = letter;
  reg_b = letter;
  reg_c = letter;
  ascii_buffer = replicate 64 0;
}

init_radio-Serves_example :
    let s = init_radio sample in
    IsValid s.node
    × (s.node.num_registers ≡ 3)
    × (s.node.registers ≡ s.reg_a ∷ s.reg_b ∷ s.reg_c ∷ [])
    × (1 ≤ s.node.unique_id)
    × Serves (s.node.unique_id) s
unfolding silent
init_radio-Serves_example =
    init_radio-Serves sample (λ events low high h. (omega arith, h))
      (record {
        pending = node-IsValid.pending;
        register_valid = node-IsValid.register_valid;
        node_byte = node-IsValid.node_byte;
        pending_target_byte = node-IsValid.pending_target_byte;
      })
      refl
