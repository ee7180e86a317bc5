-- ===== src/Tests.antt =====
-- Packets, registers and a node of small size, for the runs at concrete inputs.
mod Packets
mod Registers
mod Nodes
mod Joins
mod Operations
mod Drivers
mod Blocking
mod Serial
mod Commands
mod Samples
mod Updates
mod Broadcasts
use atmega_a.Prelude.{
  ℕ, ◌+◌, ◌*◌, ◌^◌, ◌<◌, ◌≡◌, refl, arith, Bool, true, false, Option, none, some, List, [], ◌∷◌,
  length, set, replicate, All, All-set, All-replicate, length-replicate,
}
use atmega_a.Packet.{IsByte, IsPacket, packet_size}
use atmega_a.Packet.Nibbles.{set-IsPacket}
use atmega_a.Register.{Register, IsRegister, max_array_size}
use atmega_a.World.{World, Io}
use atmega_a.Radio.{A7105}
use atmega_a.Mesh.{Mesh, Client, ok, idle, not_joined, no_status, user}
use atmega_a.Mesh.Valid.{IsValid, IsRing, IsEntry}
use atmega_a.Send.Header.{zero-IsPacket}

-- A REGISTER_NAME packet from the node of unique id 7 with the sequence number 5 and the hop
-- count 2, that names a register "A".
abbrev pub name_packet : List ℕ
name_packet = set (set (set (set (set (replicate 64 0) 0 0x09) 1 0x52) 4 7) 5 1) 6 65

pub name_packet-IsPacket : IsPacket name_packet
name_packet-IsPacket =
    set-IsPacket 6 65
      (set-IsPacket 5 1
        (set-IsPacket 4 7
          (set-IsPacket 1 0x52 (set-IsPacket 0 0x09 zero-IsPacket (omega arith)) (omega arith))
          (omega arith))
        (omega arith))
      (omega arith)

-- The same packet one hop further.
abbrev pub hopped_packet : List ℕ
hopped_packet = set name_packet 1 0x53

pub hopped_packet-IsPacket : IsPacket hopped_packet
hopped_packet-IsPacket = set-IsPacket 1 0x53 name_packet-IsPacket (omega arith)

-- A register "A" with a value of two bytes.
abbrev pub contents : List ℕ
contents = set (set (set (replicate 57 0) 0 65) 1 200) 2 3

abbrev pub letter : Register
letter = record {
  contents = contents;
  name_len = 1;
  data_len = 2;
  error_set = 0;
  set_callback = none;
  get_callback = some 4;
}

pub letter-IsRegister : IsRegister letter
letter-IsRegister = record {
  size = refl;
  bytes =
      All-set IsByte (set (set (replicate 57 0) 0 65) 1 200) 2 3
        (All-set IsByte (set (replicate 57 0) 0 65) 1 200
          (All-set IsByte (replicate 57 0) 0 65 (All-replicate IsByte 57 0 (omega arith))
            (omega arith))
          (omega arith))
        (omega arith);
  name_fits = omega arith;
  data_fits = omega arith;
}

-- A node that is on the mesh and idle, with the packet above received and one register.
abbrev pub node : Mesh
node = record {
  radio = record { cs_pin = 10; interrupt_pin = 8; use_crc = true; use_fec = true; data_rate = 1 };
  world = record { events = []; counts = replicate 20 1; stuck = false; inbox = []; told = [] };
  state = idle;
  unique_id = 0x1234;
  node_id = 3;
  random_delay = 100;
  registers = letter ∷ [];
  num_registers = 1;
  packet_cache = name_packet;
  request_sent_time = 0;
  target_node_id = 0;
  target_unique_id = 0;
  target_register_index = 0;
  handled_packet_cache = replicate 8 (replicate 4 0);
  last_handled_packet_index = 6;
  sequence_num = 15;
  join_first_tx_time = 0;
  join_retransmit_delay = 100;
  presence_table = set (replicate 32 0) 1 0x10;
  repeat_cache = replicate 2 (replicate 64 0);
  repeat_cache_start = 0;
  repeat_cache_end = 0;
  repeat_cache_size = 0;
  last_repeat_sent_time = 0;
  client_context_obj = 0;
  num_registers_cache = 0;
  register_cache = letter;
  responder_node_id = 0;
  responder_unique_id = 0;
  operation_callback = some (user 1);
  blocking_operation_status = no_status;
  register_value_broadcast_callback = none;
  broadcast_cache = none;
  pending_operation_callback = none;
  pending_state = not_joined;
  pending_target_node_id = 0;
  pending_target_unique_id = 0;
  pending_request_cache = replicate 64 0;
  pending_operation = false;
  last_request_repeat_sent_time = 0;
  request_repeat_count = 0;
  response_repeat_cache = replicate 4 (replicate 4 0);
  response_repeat_cache_start = 0;
  response_repeat_cache_end = 0;
  response_repeat_cache_size = 0;
  last_response_repeat_sent_time = 0;
}

zero-IsEntry : IsEntry (replicate 4 0)
zero-IsEntry = (refl, All-replicate IsByte 4 0 (omega arith))

pub node-IsValid : IsValid node
node-IsValid = record {
  packet = name_packet-IsPacket;
  pending = zero-IsPacket;
  registers_there = omega arith;
  registers_valid = (letter-IsRegister, tt);
  register_valid = letter-IsRegister;
  num_registers_byte = omega arith;
  node_byte = omega arith;
  unique_word = omega arith;
  target_byte = omega arith;
  pending_target_byte = omega arith;
  seq_nibble = omega arith;
  presence_size = refl;
  presence_bytes =
      All-set IsByte (replicate 32 0) 1 0x10 (All-replicate IsByte 32 0 (omega arith))
        (omega arith);
  handled_size = refl;
  handled_entries = All-replicate IsEntry 8 (replicate 4 0) zero-IsEntry;
  handled_index = omega arith;
  repeat_size = refl;
  repeat_packets = All-replicate IsPacket 2 (replicate 64 0) zero-IsPacket;
  repeat_ring = record {
    start_in = omega arith;
    end_in = omega arith;
    size_in = omega arith;
    end_is = refl;
  };
  response_size = refl;
  response_entries = All-replicate IsEntry 4 (replicate 4 0) zero-IsEntry;
  response_ring = record {
    start_in = omega arith;
    end_in = omega arith;
    size_in = omega arith;
    end_is = refl;
  };
  callback_there = λ h e. cc;
}

-- Inputs for the strings.
abbrev pub buffer : List ℕ
buffer = replicate 8 255

abbrev pub word : List ℕ
word = 72 ∷ 105 ∷ []

-- An environment in which the radio is silent and ready at once, and a client that does nothing.
instance pub silent : Io
silent = record {
  miso = λ events. 0;
  millis_at = λ events. 0;
  random_at = λ events low high. low;
  analog_at = λ events pin. 0;
  interrupts = λ events. [];
  serial_in = λ events. [];
  patience = 1;
}

instance pub passive : Client
passive = record {
  finished = λ k s m. m;
  on_set_register = λ k i m. (ok, m);
  on_get_register = λ k i m. m;
  on_broadcast = λ k m. m;
}
