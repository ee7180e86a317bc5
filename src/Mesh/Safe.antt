-- ===== src/Mesh/Safe.antt =====
-- The invariant of a node between two calls of `A7105_Mesh_Update`: libraries/a7105_mesh/a7105_mesh.cpp.
use atmega_a.Prelude.{ℕ, ◌≡◌, ◌≢◌, ◌≤◌, sym, Option, none, some, List}
use mathlib.Core.Path.{subst}
use atmega_a.Packet.{IsPacket}
use atmega_a.Register.{Register}
use atmega_a.Mesh.{Mesh, State, Callback, rejoin_finished, max_repeat_cache_size}
use atmega_a.Mesh.Valid.{IsValid}

-- The node is valid, at most two responses wait, and a rejoin under way has an operation to go back to.
pub record IsSafe (m : Mesh) : Type 0 where
  pub valid : IsValid m
  pub few : m.response_repeat_cache_size ≤ max_repeat_cache_size
  pub resumed : m.operation_callback ≡ some rejoin_finished → m.pending_operation_callback ≢ none

-- The fields that this speaks of.
pub record Core : Type 0 where
  pub packet_cache : List ℕ
  pub pending_request_cache : List ℕ
  pub registers : List Register
  pub num_registers : ℕ
  pub register_cache : Register
  pub node_id : ℕ
  pub unique_id : ℕ
  pub target_node_id : ℕ
  pub pending_target_node_id : ℕ
  pub sequence_num : ℕ
  pub presence_table : List ℕ
  pub handled_packet_cache : List (List ℕ)
  pub last_handled_packet_index : ℕ
  pub repeat_cache : List (List ℕ)
  pub repeat_cache_start : ℕ
  pub repeat_cache_end : ℕ
  pub repeat_cache_size : ℕ
  pub response_repeat_cache : List (List ℕ)
  pub response_repeat_cache_start : ℕ
  pub response_repeat_cache_end : ℕ
  pub response_repeat_cache_size : ℕ
  pub state : State
  pub operation_callback : Option Callback
  pub pending_operation_callback : Option Callback

abbrev pub core : Mesh → Core
core m = record {
  packet_cache = m.packet_cache;
  pending_request_cache = m.pending_request_cache;
  registers = m.registers;
  num_registers = m.num_registers;
  register_cache = m.register_cache;
  node_id = m.node_id;
  unique_id = m.unique_id;
  target_node_id = m.target_node_id;
  pending_target_node_id = m.pending_target_node_id;
  sequence_num = m.sequence_num;
  presence_table = m.presence_table;
  handled_packet_cache = m.handled_packet_cache;
  last_handled_packet_index = m.last_handled_packet_index;
  repeat_cache = m.repeat_cache;
  repeat_cache_start = m.repeat_cache_start;
  repeat_cache_end = m.repeat_cache_end;
  repeat_cache_size = m.repeat_cache_size;
  response_repeat_cache = m.response_repeat_cache;
  response_repeat_cache_start = m.response_repeat_cache_start;
  response_repeat_cache_end = m.response_repeat_cache_end;
  response_repeat_cache_size = m.response_repeat_cache_size;
  state = m.state;
  operation_callback = m.operation_callback;
  pending_operation_callback = m.pending_operation_callback;
}

-- A node with the core of another and else as it is.
abbrev fill : Core → Mesh → Mesh
fill c m = record m {
  packet_cache = c.packet_cache;
  pending_request_cache = c.pending_request_cache;
  registers = c.registers;
  num_registers = c.num_registers;
  register_cache = c.register_cache;
  node_id = c.node_id;
  unique_id = c.unique_id;
  target_node_id = c.target_node_id;
  pending_target_node_id = c.pending_target_node_id;
  sequence_num = c.sequence_num;
  presence_table = c.presence_table;
  handled_packet_cache = c.handled_packet_cache;
  last_handled_packet_index = c.last_handled_packet_index;
  repeat_cache = c.repeat_cache;
  repeat_cache_start = c.repeat_cache_start;
  repeat_cache_end = c.repeat_cache_end;
  repeat_cache_size = c.repeat_cache_size;
  response_repeat_cache = c.response_repeat_cache;
  response_repeat_cache_start = c.response_repeat_cache_start;
  response_repeat_cache_end = c.response_repeat_cache_end;
  response_repeat_cache_size = c.response_repeat_cache_size;
  state = c.state;
  operation_callback = c.operation_callback;
  pending_operation_callback = c.pending_operation_callback;
}

refilled : (c : Core) (m r : Mesh) → IsSafe (fill c m) → IsSafe (fill c r)
refilled c m r s = record {
  valid = record {
    packet = s.valid.packet;
    pending = s.valid.pending;
    registers_there = s.valid.registers_there;
    registers_valid = s.valid.registers_valid;
    register_valid = s.valid.register_valid;
    num_registers_byte = s.valid.num_registers_byte;
    node_byte = s.valid.node_byte;
    unique_word = s.valid.unique_word;
    target_byte = s.valid.target_byte;
    pending_target_byte = s.valid.pending_target_byte;
    seq_nibble = s.valid.seq_nibble;
    presence_size = s.valid.presence_size;
    presence_bytes = s.valid.presence_bytes;
    handled_size = s.valid.handled_size;
    handled_entries = s.valid.handled_entries;
    handled_index = s.valid.handled_index;
    repeat_size = s.valid.repeat_size;
    repeat_packets = s.valid.repeat_packets;
    repeat_ring = s.valid.repeat_ring;
    response_size = s.valid.response_size;
    response_entries = s.valid.response_entries;
    response_ring = s.valid.response_ring;
    callback_there = s.valid.callback_there;
  };
  few = s.few;
  resumed = s.resumed;
}

-- A change outside of those fields.
pub IsSafe-same : {m : Mesh} (r : Mesh) → IsSafe m → core r ≡ core m → IsSafe r
IsSafe-same {m} r s e = subst (λ c. IsSafe (fill c r)) (sym e) (refilled (core m) m r s)

pub IsSafe-packet :
    {m : Mesh} → IsSafe m → {p : List ℕ} → IsPacket p → IsSafe (record m { packet_cache = p })
IsSafe-packet s p = record {
  valid = record {
    packet = p;
    pending = s.valid.pending;
    registers_there = s.valid.registers_there;
    registers_valid = s.valid.registers_valid;
    register_valid = s.valid.register_valid;
    num_registers_byte = s.valid.num_registers_byte;
    node_byte = s.valid.node_byte;
    unique_word = s.valid.unique_word;
    target_byte = s.valid.target_byte;
    pending_target_byte = s.valid.pending_target_byte;
    seq_nibble = s.valid.seq_nibble;
    presence_size = s.valid.presence_size;
    presence_bytes = s.valid.presence_bytes;
    handled_size = s.valid.handled_size;
    handled_entries = s.valid.handled_entries;
    handled_index = s.valid.handled_index;
    repeat_size = s.valid.repeat_size;
    repeat_packets = s.valid.repeat_packets;
    repeat_ring = s.valid.repeat_ring;
    response_size = s.valid.response_size;
    response_entries = s.valid.response_entries;
    response_ring = s.valid.response_ring;
    callback_there = s.valid.callback_there;
  };
  few = s.few;
  resumed = s.resumed;
}
