-- ===== src/Tests/Updates.antt =====
-- The invariant of the node at concrete nodes.
use atmega_a.Prelude.{arith, refl, false, none}
use atmega_a.Mesh.Safe.{IsSafe}
use atmega_a.Host.{serial_client}
use atmega_a.Host.Lawful.{serial_client-IsLawful}
use atmega_a.Update.{update}
use atmega_a.Update.Safe.{update-IsSafe}
use atmega_a.Blocking.{
  mesh_join, mesh_ping, mesh_get_num_registers, mesh_get_register_name, mesh_get_register,
  mesh_set_register,
}
use atmega_a.Blocking.Safe.{calls-IsSafe}
use atmega_a.RegisterHost.{setup}
use atmega_a.RegisterHost.Lawful.{loops, setup-loops-IsSafe}
use atmega_a.Tests.{node, node-IsValid, letter, letter-IsRegister, silent}
use atmega_a.Tests.Samples.{sample}

node-IsSafe : IsSafe node
node-IsSafe = record { valid = node-IsValid; few = omega arith; resumed = λ e. cc }

update-IsSafe_example : IsSafe (update node)
update-IsSafe_example = update-IsSafe serial_client-IsLawful node node-IsSafe

setup-loops-IsSafe_example : IsSafe (loops 1000 (setup sample)).node
unfolding silent
setup-loops-IsSafe_example =
    setup-loops-IsSafe 1000 sample (λ events low high h. (omega arith, h))
      (record {
        pending = node-IsValid.pending;
        register_valid = node-IsValid.register_valid;
        node_byte = node-IsValid.node_byte;
        pending_target_byte = node-IsValid.pending_target_byte;
      })
      refl

calls-IsSafe_example :
    IsSafe (mesh_join 2 none false node).1
    × IsSafe (mesh_ping none node).1
    × IsSafe (mesh_get_num_registers 2 0 none node).1
    × IsSafe (mesh_get_register_name 2 1 0 none node).1
    × IsSafe (mesh_get_register letter none node).1
    × IsSafe (mesh_set_register letter none node).1
calls-IsSafe_example =
    calls-IsSafe serial_client-IsLawful 2 1 0 none letter node (λ e. cc) (omega arith) (omega arith)
      letter-IsRegister node-IsSafe
