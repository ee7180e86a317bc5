-- ===== src/Blocking/Safe.antt =====
-- The public calls keep the invariant of the node, for a client that does: `A7105_Mesh_Ping` and so on of
-- libraries/a7105_mesh/a7105_mesh.cpp.
use atmega_a.Prelude.{ℕ, ◌<◌, ◌≢◌, false, Option, some}
use atmega_a.World.{Io}
use atmega_a.Register.{Register, IsRegister}
use atmega_a.Mesh.{Mesh, Client, Callback, rejoin_finished, ok}
use atmega_a.Mesh.Safe.{IsSafe}
use atmega_a.Mesh.Lawful.{IsLawful}
use atmega_a.Join.Safe.{join-IsSafe}
use atmega_a.Update.Safe.{complete-IsSafe}
use atmega_a.Blocking.{
  mesh_join, mesh_ping, mesh_get_num_registers, mesh_get_register_name, mesh_get_register,
  mesh_set_register,
}
use atmega_a.Blocking.Operations.{
  ping-IsSafe, get_num_registers-IsSafe, get_register_name-IsSafe, get_register-IsSafe,
  set_register-IsSafe,
}

module _ ⦃io : Io⦄ ⦃client : Client⦄ (lawful : IsLawful client) where
  -- For a client whose functions keep the node safe, so do the public calls with their waits, if the
  -- callback is not the one that the library keeps for a rejoin, the node id and the index are bytes and
  -- the register is one of the library.
  pub calls-IsSafe :
      (node_id reg_index unique_id : ℕ) (callback : Option Callback) (reg : Register) (m : Mesh)
      → callback ≢ some rejoin_finished
      → node_id < 256
      → reg_index < 256
      → IsRegister reg
      → IsSafe m
      → IsSafe (mesh_join node_id callback false m).1
        × IsSafe (mesh_ping callback m).1
        × IsSafe (mesh_get_num_registers node_id unique_id callback m).1
        × IsSafe (mesh_get_register_name node_id reg_index unique_id callback m).1
        × IsSafe (mesh_get_register reg callback m).1
        × IsSafe (mesh_set_register reg callback m).1
  unfolding mesh_join mesh_ping mesh_get_num_registers mesh_get_register_name mesh_get_register
      mesh_set_register
  calls-IsSafe node_id reg_index unique_id callback reg m other l k r s = (
    complete-IsSafe lawful callback ok
        (join-IsSafe node_id callback false s l (λ e. cc) (λ e. absurd (other e))),
    complete-IsSafe lawful callback _ (ping-IsSafe callback other s),
    complete-IsSafe lawful callback _
        (get_num_registers-IsSafe node_id unique_id callback other l s),
    complete-IsSafe lawful callback _
        (get_register_name-IsSafe node_id reg_index unique_id callback other l k s),
    complete-IsSafe lawful callback _ (get_register-IsSafe reg callback other r s),
    complete-IsSafe lawful callback _ (set_register-IsSafe reg callback other r s),
  )
