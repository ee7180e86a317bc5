-- ===== src/Commands.antt =====
-- The commands of the serial interface, atmega_a7105.ino, but those of a register's value, which stand
-- in Commands.Values.
pub mod Values
pub mod Walk
pub mod Nodes
use atmega_a.Prelude.{
  ℕ, zero, suc, ◌+◌, ◌-◌, ◌/◌, ◌%◌, ◌^◌, Bool, true, false, not, Option, none, some, List, ltb,
  ◌==◌, if◌then◌else◌,
}
use atmega_a.World.{Io, available}
use atmega_a.Mesh.{
  State, not_joined, idle, Status, ok, not_on_mesh, mesh_busy, mesh_full, mesh_already_joining,
  Mesh, same_state,
}
use atmega_a.Ping.{get_next_present_node}
use atmega_a.Values.{broadcast_listen}
use atmega_a.Setup.{mesh_initialize}
use atmega_a.Blocking.{
  mesh_join_first, mesh_ping, mesh_get_num_registers_of, mesh_get_register_name,
}
use atmega_a.Broadcasts.{Cache, slot, broadcast_cache_init, broadcast_cache_pop}
use atmega_a.Text.{hex_byte}
use atmega_a.Host.{
  Host, H, ◌>>=◌, ◌>>◌, pure, on_world, on_node, reg_buffer, print, putstring, print_buffer,
  print_number, print_line, output_error, output_quoted, name_to_buffer, print_register,
  serial_client, call,
}

-- RADIO1_SELECT_PIN, RADIO1_WTR_PIN and RADIO_IDS
abbrev pub radio1_select_pin : ℕ
radio1_select_pin = 7

abbrev pub radio1_wtr_pin : ℕ
radio1_wtr_pin = 8

abbrev pub radio_ids : ℕ
radio_ids = 0xdb042679

abbrev pub skip : H (Unit {0})
skip = pure tt

abbrev pub read_node : {A : Type 0} → (Mesh → A) → H A
read_node f h = (f h.node, h)

-- `unknown_command`
unfoldable pub unknown_command : H (Unit {0})
unknown_command = output_quoted ",Unknown command: \""

-- `toggle_echo`
unfoldable pub toggle_echo : H (Unit {0})
toggle_echo h =
    (do putstring "ECHO,"; print_number (if h.echo then 0 else 1); print_line)
      (record h { echo = not h.echo })

module _ ⦃io : Io⦄ where
  -- `join_mesh`
  unfoldable pub join_mesh : H (Unit {0})
  join_mesh = read_node (λ m. same_state m.state not_joined) >>= λ free. elim free [
    | false ↦ output_error mesh_already_joining "Node already joined or joining mesh"
    | true ↦ call (mesh_join_first none) >>= λ join_status. elim join_status [
      | ok ↦ putstring "JOINED" >> print_line
      | mesh_full ↦ output_error mesh_full "Mesh is full"
      | _ ↦ skip
    ]
  ]

  -- `init_radio_and_broadcast_cache`: 0x03 is A7105_DATA_RATE_125Kbps and 7 A7105_TXPOWER_150mW.
  unfoldable pub init_radio_and_broadcast_cache : H (Unit {0})
  init_radio_and_broadcast_cache h =
      (on_node (mesh_initialize radio1_select_pin radio1_wtr_pin radio_ids 0x03 0 7 0)
          >>= λ success.
              putstring "INIT,"
              >> (print_number (elim success [ ok ↦ 1 | _ ↦ 0 ])
                  >> (putstring ","
                      >> (read_node (λ m. m.unique_id) >>= λ id.
                          print (hex_byte (id / 2 ^ 8 % 256))
                          >> (print (hex_byte (id % 256))
                              >> (print_line >> λ after. (
                                tt,
                                record after {
                                  node = broadcast_listen (some 0) (some (reg_buffer h)) after.node;
                                  host_listening = false;
                                  broadcasts = broadcast_cache_init after.broadcasts;
                                },
                              )))))))
        h

  -- The loop of `ping_mesh` over the nodes that are present, with at most `n` of them left.
  unfoldable pub print_nodes : ℕ → ℕ → H (Unit {0})
  print_nodes zero current_node = skip
  print_nodes (suc n) current_node = elim (current_node == 0) [
    | true ↦ skip
    | false ↦
        putstring ","
        >> (print_number current_node
            >> (read_node (λ m. get_next_present_node m current_node) >>= λ next.
                print_nodes n next))
  ]

  -- What a PING that failed is answered with.
  unfoldable pub ping_failed : Status → H (Unit {0}) → H (Unit {0})
  ping_failed not_on_mesh success = output_error not_on_mesh "Node not joined to a mesh"
  ping_failed mesh_busy success = output_error mesh_busy "Node is busy with another operation"
  ping_failed _ success = success

  -- `ping_mesh`
  unfoldable pub ping_mesh : H (Unit {0})
  unfolding ping_failed
  ping_mesh = call (mesh_ping none) >>= λ ping_status. ping_failed ping_status (
      putstring "PING"
      >> (read_node (λ m. get_next_present_node m 0) >>= λ first.
          print_nodes 255 first >> print_line))

  -- The loop of `list_registers` over the registers of a node, with at most `n` rounds left: whether
  -- there was an error. `num_registers_cache` is read again before each round.
  unfoldable pub list_names : ℕ → ℕ → ℕ → Bool → H Bool
  list_names zero current_node reg_index error_encountered = pure error_encountered
  list_names (suc n) current_node reg_index error_encountered =
      read_node (λ m. ltb reg_index m.num_registers_cache) >>= λ more. elim more [
        | false ↦ pure error_encountered
        | true ↦ call (mesh_get_register_name current_node reg_index 0 none) >>= λ status.
            elim status [
              | ok ↦ read_node (λ m. m.register_cache) >>= λ reg. name_to_buffer reg >>= λ _.
                  print_buffer
                  >> (putstring ","
                      >> list_names n current_node ((reg_index + 1) % 256) error_encountered)
              | _ ↦ list_names n current_node ((reg_index + 1) % 256) true
            ]
      ]

  -- The names of a node whose number of registers was asked for with this status.
  unfoldable pub names_of : ℕ → Status → H Bool
  unfolding list_names
  names_of current_node ok = list_names 256 current_node 0 false
  names_of current_node _ = pure true

  -- The loop over the nodes, with at most `n` of them left: the number of nodes with errors.
  unfoldable pub list_nodes : ℕ → ℕ → ℕ → H ℕ
  unfolding names_of
  list_nodes zero current_node node_error_count = pure node_error_count
  list_nodes (suc n) current_node node_error_count = elim (current_node == 0) [
    | true ↦ pure node_error_count
    | false ↦ call (mesh_get_num_registers_of current_node none) >>= λ status.
        names_of current_node status >>= λ failed.
        read_node (λ m. get_next_present_node m current_node) >>= λ next.
        list_nodes n next (if failed then (node_error_count + 1) % 256 else node_error_count)
  ]

  -- `list_registers`
  unfoldable pub list_registers : H (Unit {0})
  unfolding ping_failed list_nodes
  list_registers = call (mesh_ping none) >>= λ ping_status. ping_failed ping_status (
      read_node (λ m. get_next_present_node m 0) >>= λ first.
      putstring "LIST_REGISTERS"
      >> (putstring ","
          >> (list_nodes 255 first 0 >>= λ node_error_count.
              print_number node_error_count >> print_line)))

  -- The loop of `dump_broadcast_cache`: each round takes one of the registers, of which `n` are left.
  unfoldable pub dump_from : ℕ → H (Unit {0})
  dump_from zero h = (tt, h)
  dump_from (suc n) h =
      let (popped, broadcasts) = broadcast_cache_pop h.broadcasts in
      let after : Host = record h { broadcasts = broadcasts } in
      elim popped [
        | none ↦ (tt, after)
        | some x ↦
            (print_register (slot broadcasts x)
                >> (on_world available >>= λ waiting. elim (waiting == 0) [
                  | true ↦ dump_from n
                  | false ↦ skip
                ]))
              after
      ]

  -- `dump_broadcast_cache`
  unfoldable pub dump_broadcast_cache : H (Unit {0})
  unfolding dump_from
  dump_broadcast_cache h = dump_from h.broadcasts.size h

  abbrev listen_to_host : H (Unit {0})
  listen_to_host h = (tt, record h { host_listening = true })

  -- `start_listening`
  unfoldable pub start_listening : H (Unit {0})
  unfolding dump_broadcast_cache
  start_listening = read_node (λ m. same_state m.state idle) >>= λ free. elim free [
    | false ↦ output_error not_on_mesh "Node is not on a mesh or not idle"
    | true ↦ listen_to_host >> (putstring "LISTEN" >> (print_line >> dump_broadcast_cache))
  ]
