-- ===== src/Mesh/Valid.antt =====
-- The representation invariant of `struct A7105_Mesh`.
use atmega_a.Prelude.{ℕ, ◌+◌, ◌%◌, ◌^◌, ◌≤◌, ◌<◌, ◌≡◌, ◌≢◌, ap, List, length, All, none}
use atmega_a.Packet.{IsByte, IsPacket}
use atmega_a.Register.{IsRegister}
use atmega_a.World.{World}
use atmega_a.Mesh.{
  Mesh, State, not_joined, max_repeat_cache_size, handled_packet_cache_length, response_cache_size,
}

-- An entry of the handled packet cache or of the response cache: four bytes.
abbrev pub IsEntry : List ℕ → Type 0
IsEntry e = (length e ≡ 4) × All IsByte e

-- The indices of a ring of `cap` entries.
pub record IsRing (cap start end size : ℕ) : Type 0 where
  pub start_in : start < cap
  pub end_in : end < cap
  pub size_in : size ≤ cap
  pub end_is : end ≡ (start + size) % cap

-- The arrays have their sizes, hold bytes, and every index lies within its array; no operation
-- that is under way lacks a callback.
pub record IsValid (m : Mesh) : Type 0 where
  pub packet : IsPacket m.packet_cache
  pub pending : IsPacket m.pending_request_cache
  pub registers_there : m.num_registers ≤ length m.registers
  pub registers_valid : All IsRegister m.registers
  pub register_valid : IsRegister m.register_cache
  pub num_registers_byte : m.num_registers < 256
  pub node_byte : m.node_id < 256
  pub unique_word : m.unique_id < 2 ^ 16
  pub target_byte : m.target_node_id < 256
  pub pending_target_byte : m.pending_target_node_id < 256
  pub seq_nibble : m.sequence_num < 16
  pub presence_size : length m.presence_table ≡ 32
  pub presence_bytes : All IsByte m.presence_table
  pub handled_size : length m.handled_packet_cache ≡ handled_packet_cache_length
  pub handled_entries : All IsEntry m.handled_packet_cache
  pub handled_index : m.last_handled_packet_index < handled_packet_cache_length
  pub repeat_size : length m.repeat_cache ≡ max_repeat_cache_size
  pub repeat_packets : All IsPacket m.repeat_cache
  pub repeat_ring :
      IsRing max_repeat_cache_size m.repeat_cache_start m.repeat_cache_end m.repeat_cache_size
  pub response_size : length m.response_repeat_cache ≡ response_cache_size
  pub response_entries : All IsEntry m.response_repeat_cache
  pub response_ring :
      IsRing response_cache_size m.response_repeat_cache_start m.response_repeat_cache_end
        m.response_repeat_cache_size
  pub callback_there : m.state ≢ not_joined → m.operation_callback ≢ none

-- A node whose state is known, with that state written out.
pub in_state : (m : Mesh) {s : State} → m.state ≡ s → m ≡ record m { state = s }
in_state m e = ap (λ s. record m { state = s }) e

-- A node stays valid in another state and with another packet, if a callback is set.
pub IsValid-with :
    {m : Mesh}
    → IsValid m
    → (s : State) {p : List ℕ} → IsPacket p
    → m.operation_callback ≢ none
    → IsValid (record m { state = s; packet_cache = p })
IsValid-with v s p c = record {
  packet = p;
  pending = v.pending;
  registers_there = v.registers_there;
  registers_valid = v.registers_valid;
  register_valid = v.register_valid;
  num_registers_byte = v.num_registers_byte;
  node_byte = v.node_byte;
  unique_word = v.unique_word;
  target_byte = v.target_byte;
  pending_target_byte = v.pending_target_byte;
  seq_nibble = v.seq_nibble;
  presence_size = v.presence_size;
  presence_bytes = v.presence_bytes;
  handled_size = v.handled_size;
  handled_entries = v.handled_entries;
  handled_index = v.handled_index;
  repeat_size = v.repeat_size;
  repeat_packets = v.repeat_packets;
  repeat_ring = v.repeat_ring;
  response_size = v.response_size;
  response_entries = v.response_entries;
  response_ring = v.response_ring;
  callback_there = λ _. c;
}

-- Nor does it matter what the world around the node is.
pub IsValid-world : {m : Mesh} → IsValid m → (w : World) → IsValid (record m { world = w })
IsValid-world v w = record {
  packet = v.packet;
  pending = v.pending;
  registers_there = v.registers_there;
  registers_valid = v.registers_valid;
  register_valid = v.register_valid;
  num_registers_byte = v.num_registers_byte;
  node_byte = v.node_byte;
  unique_word = v.unique_word;
  target_byte = v.target_byte;
  pending_target_byte = v.pending_target_byte;
  seq_nibble = v.seq_nibble;
  presence_size = v.presence_size;
  presence_bytes = v.presence_bytes;
  handled_size = v.handled_size;
  handled_entries = v.handled_entries;
  handled_index = v.handled_index;
  repeat_size = v.repeat_size;
  repeat_packets = v.repeat_packets;
  repeat_ring = v.repeat_ring;
  response_size = v.response_size;
  response_entries = v.response_entries;
  response_ring = v.response_ring;
  callback_there = v.callback_there;
}
