-- ===== src/Blocking.antt =====
-- The operations of libraries/a7105_mesh/a7105_mesh.cpp with the wait of a call without a callback,
-- and the overloads that leave an argument out.
pub mod Steady
pub mod Going
pub mod Rounds
pub mod Ends
pub mod Operations
pub mod Safe
use atmega_a.Prelude.{ℕ, Bool, true, false, Option}
use atmega_a.World.{Io}
use atmega_a.Register.{Register}
use atmega_a.Mesh.{Status, ok, Callback, Mesh, Client}
use atmega_a.Join.{join}
use atmega_a.Ping.{ping}
use atmega_a.Query.{get_num_registers, get_register_name}
use atmega_a.Values.{get_register, set_register}
use atmega_a.Update.{complete}

module _ ⦃io : Io⦄ ⦃client : Client⦄ where
  -- `A7105_Mesh_Join`, with four, three and two arguments.
  unfoldable pub mesh_join : ℕ → Option Callback → Bool → Mesh → Status × Mesh
  mesh_join node_id join_finished_callback interrupting m =
      complete join_finished_callback (ok, join node_id join_finished_callback interrupting m)

  unfoldable pub mesh_join_as : ℕ → Option Callback → Mesh → Status × Mesh
  mesh_join_as node_id join_finished_callback = mesh_join node_id join_finished_callback false

  unfoldable pub mesh_join_first : Option Callback → Mesh → Status × Mesh
  mesh_join_first join_finished_callback = mesh_join 1 join_finished_callback false

  -- `A7105_Mesh_Ping`
  unfoldable pub mesh_ping : Option Callback → Mesh → Status × Mesh
  mesh_ping ping_finished_callback m =
      complete ping_finished_callback (ping ping_finished_callback m)

  -- `A7105_Mesh_GetNumRegisters`, with four and three arguments.
  unfoldable pub mesh_get_num_registers : ℕ → ℕ → Option Callback → Mesh → Status × Mesh
  mesh_get_num_registers node_id target_unique_id finished_callback m =
      complete finished_callback (get_num_registers node_id target_unique_id finished_callback m)

  unfoldable pub mesh_get_num_registers_of : ℕ → Option Callback → Mesh → Status × Mesh
  mesh_get_num_registers_of node_id = mesh_get_num_registers node_id 0

  -- `A7105_Mesh_GetRegisterName`, with five and four arguments.
  unfoldable pub mesh_get_register_name : ℕ → ℕ → ℕ → Option Callback → Mesh → Status × Mesh
  mesh_get_register_name node_id reg_index filter_unique_id finished_callback m =
      complete finished_callback
        (get_register_name node_id reg_index filter_unique_id finished_callback m)

  unfoldable pub mesh_get_register_name_of : ℕ → ℕ → Option Callback → Mesh → Status × Mesh
  mesh_get_register_name_of node_id reg_index = mesh_get_register_name node_id reg_index 0

  -- `A7105_Mesh_GetRegister` and `A7105_Mesh_SetRegister`
  unfoldable pub mesh_get_register : Register → Option Callback → Mesh → Status × Mesh
  mesh_get_register reg finished_callback m =
      complete finished_callback (get_register reg finished_callback m)

  unfoldable pub mesh_set_register : Register → Option Callback → Mesh → Status × Mesh
  mesh_set_register reg finished_callback m =
      complete finished_callback (set_register reg finished_callback m)
