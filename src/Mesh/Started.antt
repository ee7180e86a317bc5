-- ===== src/Mesh/Started.antt =====
-- A node that keeps its invariant with its registers, its presence table or its operation changed:
-- libraries/a7105_mesh/a7105_mesh.cpp.
use atmega_a.Prelude.{ℕ, ◌≡◌, ◌≢◌, ◌≤◌, ◌<◌, Option, none, some, List, length, All}
use atmega_a.Packet.{IsByte, IsPacket}
use atmega_a.Register.{Register, IsRegister}
use atmega_a.Mesh.{Mesh, State, Callback, not_joined, rejoin_finished}
use atmega_a.Mesh.Safe.{IsSafe}

pub IsSafe-register_cache :
    {m : Mesh}
    → IsSafe m
    → {reg : Register} → IsRegister reg
    → IsSafe (record m { register_cache = reg })
IsSafe-register_cache s valid = record {
  valid = record {
    packet = s.valid.packet;
    pending = s.valid.pending;
    registers_there = s.valid.registers_there;
    registers_valid = s.valid.registers_valid;
    register_valid = valid;
    num_registers_byte = s.valid.num_registers_byte;
    node_byte = s.valid.node_byte;
    unique_word = s.valid.unique_word;
    target_byte = s.valid.target_byte;
    pending_target_byte = s.valid.pending_target_byte;
    seq_nibble = s.valid.seq_nibble;
    presence_size = s.valid.presence_size;
    presence_bytes = s.valid.presence_bytes;
    handled_size = s.valid.handled_size;
    handled_entries = s.valid.handled_entries;
    handled_index = s.valid.handled_index;
    repeat_size = s.valid.repeat_size;
    repeat_packets = s.valid.repeat_packets;
    repeat_ring = s.valid.repeat_ring;
    response_size = s.valid.response_size;
    response_entries = s.valid.response_entries;
    response_ring = s.valid.response_ring;
    callback_there = s.valid.callback_there;
  };
  few = s.few;
  resumed = s.resumed;
}

pub IsSafe-registers :
    {m : Mesh}
    → IsSafe m
    → {regs : List Register} → m.num_registers ≤ length regs
    → All IsRegister regs
    → IsSafe (record m { registers = regs })
IsSafe-registers s there valid = record {
  valid = record {
    packet = s.valid.packet;
    pending = s.valid.pending;
    registers_there = there;
    registers_valid = valid;
    register_valid = s.valid.register_valid;
    num_registers_byte = s.valid.num_registers_byte;
    node_byte = s.valid.node_byte;
    unique_word = s.valid.unique_word;
    target_byte = s.valid.target_byte;
    pending_target_byte = s.valid.pending_target_byte;
    seq_nibble = s.valid.seq_nibble;
    presence_size = s.valid.presence_size;
    presence_bytes = s.valid.presence_bytes;
    handled_size = s.valid.handled_size;
    handled_entries = s.valid.handled_entries;
    handled_index = s.valid.handled_index;
    repeat_size = s.valid.repeat_size;
    repeat_packets = s.valid.repeat_packets;
    repeat_ring = s.valid.repeat_ring;
    response_size = s.valid.response_size;
    response_entries = s.valid.response_entries;
    response_ring = s.valid.response_ring;
    callback_there = s.valid.callback_there;
  };
  few = s.few;
  resumed = s.resumed;
}

pub IsSafe-presence :
    {m : Mesh}
    → IsSafe m
    → {table : List ℕ} → length table ≡ 32
    → All IsByte table
    → IsSafe (record m { presence_table = table })
IsSafe-presence s size bytes = record {
  valid = record {
    packet = s.valid.packet;
    pending = s.valid.pending;
    registers_there = s.valid.registers_there;
    registers_valid = s.valid.registers_valid;
    register_valid = s.valid.register_valid;
    num_registers_byte = s.valid.num_registers_byte;
    node_byte = s.valid.node_byte;
    unique_word = s.valid.unique_word;
    target_byte = s.valid.target_byte;
    pending_target_byte = s.valid.pending_target_byte;
    seq_nibble = s.valid.seq_nibble;
    presence_size = size;
    presence_bytes = bytes;
    handled_size = s.valid.handled_size;
    handled_entries = s.valid.handled_entries;
    handled_index = s.valid.handled_index;
    repeat_size = s.valid.repeat_size;
    repeat_packets = s.valid.repeat_packets;
    repeat_ring = s.valid.repeat_ring;
    response_size = s.valid.response_size;
    response_entries = s.valid.response_entries;
    response_ring = s.valid.response_ring;
    callback_there = s.valid.callback_there;
  };
  few = s.few;
  resumed = s.resumed;
}

-- A request of a sequence number, with the packet kept for its repeats.
pub IsSafe-request :
    {m : Mesh}
    → IsSafe m
    → {pending : List ℕ} {number : ℕ} → IsPacket pending
    → number < 16
    → IsSafe (record m { pending_request_cache = pending; sequence_num = number })
IsSafe-request s pending number = record {
  valid = record {
    packet = s.valid.packet;
    pending = pending;
    registers_there = s.valid.registers_there;
    registers_valid = s.valid.registers_valid;
    register_valid = s.valid.register_valid;
    num_registers_byte = s.valid.num_registers_byte;
    node_byte = s.valid.node_byte;
    unique_word = s.valid.unique_word;
    target_byte = s.valid.target_byte;
    pending_target_byte = s.valid.pending_target_byte;
    seq_nibble = number;
    presence_size = s.valid.presence_size;
    presence_bytes = s.valid.presence_bytes;
    handled_size = s.valid.handled_size;
    handled_entries = s.valid.handled_entries;
    handled_index = s.valid.handled_index;
    repeat_size = s.valid.repeat_size;
    repeat_packets = s.valid.repeat_packets;
    repeat_ring = s.valid.repeat_ring;
    response_size = s.valid.response_size;
    response_entries = s.valid.response_entries;
    response_ring = s.valid.response_ring;
    callback_there = s.valid.callback_there;
  };
  few = s.few;
  resumed = s.resumed;
}

-- The operation under way, and the one that waits for a rejoin.
pub IsSafe-operation :
    {m : Mesh}
    → IsSafe m
    → {state : State} {callback waiting : Option Callback} {node target waiting_target : ℕ}
    → node < 256
    → target < 256
    → waiting_target < 256
    → (state ≢ not_joined → callback ≢ none)
    → (callback ≡ some rejoin_finished → waiting ≢ none)
    → IsSafe (record m {
      state = state;
      operation_callback = callback;
      pending_operation_callback = waiting;
      node_id = node;
      target_node_id = target;
      pending_target_node_id = waiting_target;
    })
IsSafe-operation s node target waiting there resumed = record {
  valid = record {
    packet = s.valid.packet;
    pending = s.valid.pending;
    registers_there = s.valid.registers_there;
    registers_valid = s.valid.registers_valid;
    register_valid = s.valid.register_valid;
    num_registers_byte = s.valid.num_registers_byte;
    node_byte = node;
    unique_word = s.valid.unique_word;
    target_byte = target;
    pending_target_byte = waiting;
    seq_nibble = s.valid.seq_nibble;
    presence_size = s.valid.presence_size;
    presence_bytes = s.valid.presence_bytes;
    handled_size = s.valid.handled_size;
    handled_entries = s.valid.handled_entries;
    handled_index = s.valid.handled_index;
    repeat_size = s.valid.repeat_size;
    repeat_packets = s.valid.repeat_packets;
    repeat_ring = s.valid.repeat_ring;
    response_size = s.valid.response_size;
    response_entries = s.valid.response_entries;
    response_ring = s.valid.response_ring;
    callback_there = there;
  };
  few = s.few;
  resumed = resumed;
}
