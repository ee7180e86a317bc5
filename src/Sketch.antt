-- ===== src/Sketch.antt =====
-- `setup` and `loop` of the serial interface, atmega_a7105.ino.
use atmega_a.Prelude.{ℕ, zero, suc, true, false, List, [], ◌==◌, if◌then◌else◌}
use atmega_a.World.{Io, pin_output, pin_input, emit, available, read_byte, give_up}
use atmega_a.Text.{codes, c_string, same_text}
use atmega_a.Host.{
  H, ◌>>=◌, ◌>>◌, pure, on_world, putstring, print_line, update_node, serial_client,
}
use atmega_a.Console.{get_serial_cmd}
use atmega_a.Commands.{
  unknown_command, toggle_echo, join_mesh, init_radio_and_broadcast_cache, ping_mesh,
  list_registers, start_listening,
}
use atmega_a.Commands.Values.{get_register, set_register, value_broadcast}

-- The commands.
pub data Command : Type 0 where
  echo join reset ping listen list_names get_value set_value send_value unknown silence : Command

-- The chain of comparisons in `loop`, where `s` is the text in ASCII_BUFFER.
unfoldable pub command_of : List ℕ → Command
command_of s =
    if same_text s (codes "ECHO")
    then echo
    else if same_text s (codes "JOIN")
    then join
    else if same_text s (codes "RESET")
    then reset
    else if same_text s (codes "PING")
    then ping
    else if same_text s (codes "LISTEN")
    then listen
    else if same_text s (codes "LIST_REGISTERS")
    then list_names
    else if same_text s (codes "GET_REGISTER")
    then get_value
    else if same_text s (codes "SET_REGISTER")
    then set_value
    else if same_text s (codes "VALUE_BROADCAST")
    then send_value
    else if same_text s []
    then silence
    else unknown

module _ ⦃io : Io⦄ where
  unfoldable pub run : Command → H (Unit {0})
  run echo = toggle_echo
  run join = join_mesh
  run reset = init_radio_and_broadcast_cache
  run ping = ping_mesh
  run listen = start_listening
  run list_names = list_registers
  run get_value = get_register
  run set_value = set_register
  run send_value = value_broadcast
  run unknown = unknown_command
  run silence = pure tt

  -- The loop that empties the serial port, with at most `n` characters left.
  unfoldable pub purge : ℕ → H (Unit {0})
  purge zero = on_world give_up
  purge (suc n) = on_world available >>= λ waiting. elim (waiting == 0) [
    | true ↦ pure tt
    | false ↦ on_world read_byte >>= λ _. purge n
  ]

  -- The part of `loop` for a host that gives commands.
  unfoldable pub serve : H (Unit {0})
  unfolding run command_of
  serve = get_serial_cmd true >>= λ _ h. run (command_of (c_string h.ascii_buffer)) h

  -- The part for a host that listens.
  unfoldable pub overhear : H (Unit {0})
  unfolding purge
  overhear = on_world available >>= λ waiting. elim (waiting == 0) [
    | true ↦ pure tt
    | false ↦
        (λ h. (tt, record h { host_listening = false }))
        >> (purge io.patience >> (putstring "READY" >> print_line))
  ]

  -- `loop`
  unfoldable pub loop : H (Unit {0})
  unfolding serve overhear
  loop h = ((if h.host_listening then overhear else serve) >> update_node) h

  -- `setup`, whose three pins are MOSI, MISO and SCK of the board.
  unfoldable pub setup : H (Unit {0})
  setup =
      on_world (emit (pin_output 11))
      >> (on_world (emit (pin_input 12))
          >> (on_world (emit (pin_output 13)) >> init_radio_and_broadcast_cache))
