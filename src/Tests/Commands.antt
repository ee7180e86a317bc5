-- ===== src/Tests/Commands.antt =====
-- The commands at a concrete host.
use atmega_a.Prelude.{◌+◌, ◌≡◌, ◌≢◌, true, false, none}
use atmega_a.Host.{◌>>◌, putstring, print_line, call, settle, output_error, serial_client}
use atmega_a.Mesh.{idle, not_on_mesh, mesh_busy, is_off_mesh, same_state}
use atmega_a.Ping.{get_next_present_node}
use atmega_a.Blocking.{mesh_ping}
use atmega_a.Text.{codes}
use atmega_a.Commands.{ping_mesh, list_nodes}
use atmega_a.Commands.Nodes.{print_present, ping_mesh_lem, list_nodes_ends}
use atmega_a.Tests.{node}
use atmega_a.Tests.Blocking.{ticking}
use atmega_a.Tests.Serial.{host}

ping_mesh_lem_example :
    let h = host (codes "") in
    (is_off_mesh h.node.state ≡ true
      → ping_mesh h ≡ output_error not_on_mesh "Node not joined to a mesh" (settle h))
    × (is_off_mesh h.node.state ≡ false
        → same_state h.node.state idle ≡ false
        → ping_mesh h ≡ output_error mesh_busy "Node is busy with another operation" (settle h))
    × ((call (mesh_ping none) h).0 ≢ not_on_mesh
        → (call (mesh_ping none) h).0 ≢ mesh_busy
        → ping_mesh h
          ≡ (putstring "PING" >> (print_present >> print_line)) (call (mesh_ping none) h).1)
ping_mesh_lem_example = ping_mesh_lem (host (codes ""))

list_nodes_ends_example :
    list_nodes (45 + 255) (get_next_present_node node 0) 0 (host (codes ""))
    ≡ list_nodes 255 (get_next_present_node node 0) 0 (host (codes ""))
list_nodes_ends_example = list_nodes_ends 45 node (host (codes ""))
