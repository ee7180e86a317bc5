-- ===== src/Mesh/Changed.antt =====
-- A node that keeps its invariant with some of its fields changed: libraries/a7105_mesh/a7105_mesh.cpp.
use atmega_a.Prelude.{ℕ, ◌≡◌, ◌≤◌, ◌<◌, List, length, All}
use atmega_a.Packet.{IsPacket}
use atmega_a.Mesh.{Mesh, max_repeat_cache_size, response_cache_size, handled_packet_cache_length}
use atmega_a.Mesh.Valid.{IsEntry, IsRing}
use atmega_a.Mesh.Safe.{IsSafe}

-- The cache of packets to repeat.
pub IsSafe-repeats :
    {m : Mesh}
    → IsSafe m
    → {cache : List (List ℕ)} {start end size : ℕ} → length cache ≡ max_repeat_cache_size
    → All IsPacket cache
    → IsRing max_repeat_cache_size start end size
    → IsSafe (record m {
      repeat_cache = cache;
      repeat_cache_start = start;
      repeat_cache_end = end;
      repeat_cache_size = size;
    })
IsSafe-repeats s sized packets ring = record {
  valid = record {
    packet = s.valid.packet;
    pending = s.valid.pending;
    registers_there = s.valid.registers_there;
    registers_valid = s.valid.registers_valid;
    register_valid = s.valid.register_valid;
    num_registers_byte = s.valid.num_registers_byte;
    node_byte = s.valid.node_byte;
    unique_word = s.valid.unique_word;
    target_byte = s.valid.target_byte;
    pending_target_byte = s.valid.pending_target_byte;
    seq_nibble = s.valid.seq_nibble;
    presence_size = s.valid.presence_size;
    presence_bytes = s.valid.presence_bytes;
    handled_size = s.valid.handled_size;
    handled_entries = s.valid.handled_entries;
    handled_index = s.valid.handled_index;
    repeat_size = sized;
    repeat_packets = packets;
    repeat_ring = ring;
    response_size = s.valid.response_size;
    response_entries = s.valid.response_entries;
    response_ring = s.valid.response_ring;
    callback_there = s.valid.callback_there;
  };
  few = s.few;
  resumed = s.resumed;
}

-- The cache of responses.
pub IsSafe-responses :
    {m : Mesh}
    → IsSafe m
    → {cache : List (List ℕ)} {start end size : ℕ} → length cache ≡ response_cache_size
    → All IsEntry cache
    → IsRing response_cache_size start end size
    → size ≤ max_repeat_cache_size
    → IsSafe (record m {
      response_repeat_cache = cache;
      response_repeat_cache_start = start;
      response_repeat_cache_end = end;
      response_repeat_cache_size = size;
    })
IsSafe-responses s sized entries ring few = record {
  valid = record {
    packet = s.valid.packet;
    pending = s.valid.pending;
    registers_there = s.valid.registers_there;
    registers_valid = s.valid.registers_valid;
    register_valid = s.valid.register_valid;
    num_registers_byte = s.valid.num_registers_byte;
    node_byte = s.valid.node_byte;
    unique_word = s.valid.unique_word;
    target_byte = s.valid.target_byte;
    pending_target_byte = s.valid.pending_target_byte;
    seq_nibble = s.valid.seq_nibble;
    presence_size = s.valid.presence_size;
    presence_bytes = s.valid.presence_bytes;
    handled_size = s.valid.handled_size;
    handled_entries = s.valid.handled_entries;
    handled_index = s.valid.handled_index;
    repeat_size = s.valid.repeat_size;
    repeat_packets = s.valid.repeat_packets;
    repeat_ring = s.valid.repeat_ring;
    response_size = sized;
    response_entries = entries;
    response_ring = ring;
    callback_there = s.valid.callback_there;
  };
  few = few;
  resumed = s.resumed;
}

-- The cache of handled requests.
pub IsSafe-handled :
    {m : Mesh}
    → IsSafe m
    → {cache : List (List ℕ)} {i : ℕ} → length cache ≡ handled_packet_cache_length
    → All IsEntry cache
    → i < handled_packet_cache_length
    → IsSafe (record m { handled_packet_cache = cache; last_handled_packet_index = i })
IsSafe-handled s sized entries inside = record {
  valid = record {
    packet = s.valid.packet;
    pending = s.valid.pending;
    registers_there = s.valid.registers_there;
    registers_valid = s.valid.registers_valid;
    register_valid = s.valid.register_valid;
    num_registers_byte = s.valid.num_registers_byte;
    node_byte = s.valid.node_byte;
    unique_word = s.valid.unique_word;
    target_byte = s.valid.target_byte;
    pending_target_byte = s.valid.pending_target_byte;
    seq_nibble = s.valid.seq_nibble;
    presence_size = s.valid.presence_size;
    presence_bytes = s.valid.presence_bytes;
    handled_size = sized;
    handled_entries = entries;
    handled_index = inside;
    repeat_size = s.valid.repeat_size;
    repeat_packets = s.valid.repeat_packets;
    repeat_ring = s.valid.repeat_ring;
    response_size = s.valid.response_size;
    response_entries = s.valid.response_entries;
    response_ring = s.valid.response_ring;
    callback_there = s.valid.callback_there;
  };
  few = s.few;
  resumed = s.resumed;
}
