-- ===== src/Tests/Operations.antt =====
-- The theorems on operations, on the repeat cache and on acknowledgements at a concrete node.
use atmega_a.Prelude.{
  ℕ, ◌≤◌, ◌<◌, arith, List, ◌≡◌, ◌≢◌, ◌⊎◌, refl, true, false, none, some, [], ◌∷◌, ◌++◌, ◌==◌,
  if◌then◌else◌, get_or, byte_at,
}
use atmega_a.Packet.{
  at_type, at_node_id, at_err_msg_start, pkt_join, pkt_get_register, pkt_set_register,
  get_packet_hop, set_packet_hop, get_pkt_unique_id, is_same_packet_sans_hop, get_packet_seq,
}
use atmega_a.Codec.{no_register}
use atmega_a.Codec.Names.{HasName}
use atmega_a.Mesh.{
  Mesh, Status, pinging, getting_register, setting_register, mesh_busy, timeout,
  invalid_register_value, auto_set_register, is_off_mesh, max_repeat_cache_size, max_hop_count,
}
use atmega_a.Repeater.{append_repeat, pop_repeat, is_repeatable}
use atmega_a.Repeater.Ring.{IsQueue, queued, append_repeat_lem, pop_repeat_lem}
use atmega_a.Repeater.{cache_packet_for_repeat}
use atmega_a.Repeater.Echo.{cached_packet_not_repeatable}
use atmega_a.Repeater.Choice.{is_repeatable_sound}
use atmega_a.Repeater.Responses.{IsResponseQueue, responses, append_response_repeat_lem}
use atmega_a.Send.{response_entry, append_response_repeat}
use atmega_a.Ping.{ping}
use atmega_a.Query.{get_num_registers, get_register_name}
use atmega_a.Values.{get_register, set_register}
use atmega_a.Values.Started.{request_packet, Begun, operations_refused, operations-Begun}
use atmega_a.Serve.{judge, acknowledge}
use atmega_a.Serve.Judged.{acknowledge-judge}
use atmega_a.Tests.{node, node-IsValid, letter, silent}

-- The node while it pings.
abbrev pinger : Mesh
pinger = record node { state = pinging }

operations_refused_example :
    let r : Status × Mesh = (mesh_busy, pinger) in
    (ping none pinger ≡ r)
    × (get_num_registers 2 0 none pinger ≡ r)
    × (get_register_name 2 1 0 none pinger ≡ r)
    × (get_register letter none pinger ≡ r)
    × (set_register letter none pinger ≡ r)
operations_refused_example = operations_refused none 2 0 1 letter pinger refl

operations-Begun_example :
    let (s, r) = get_register letter none node in
    let (t, q) = set_register letter none node in
    Begun node r s getting_register
      (request_packet node pkt_get_register letter false)
      letter.name_len
      letter.data_len
      false
    × Begun node q t setting_register
        (request_packet node pkt_set_register letter true)
        letter.name_len
        letter.data_len
        true
operations-Begun_example = operations-Begun node letter none refl

node-IsQueue : IsQueue node
node-IsQueue = record {
  size = node-IsValid.repeat_size;
  packets = node-IsValid.repeat_packets;
  ring = node-IsValid.repeat_ring;
}

append_repeat_lem_example :
    (queued (append_repeat node) ≡ (
      if node.repeat_cache_size == max_repeat_cache_size
      then queued node
      else queued node ++ node.packet_cache ∷ []))
    × IsQueue (append_repeat node)
append_repeat_lem_example = append_repeat_lem node node-IsQueue node-IsValid.packet

-- The node with one packet in line.
abbrev waiting : Mesh
waiting = append_repeat node

pop_repeat_lem_example :
    let (found, r) = pop_repeat waiting in
    (found ≡ none → (queued waiting ≡ []) × (r ≡ waiting))
    × ((i : ℕ) → found ≡ some i → queued waiting ≡ get_or r.repeat_cache i [] ∷ queued r)
    × IsQueue r
pop_repeat_lem_example = pop_repeat_lem waiting append_repeat_lem_example.1

is_repeatable_sound_example :
    let p = node.packet_cache in
    (is_off_mesh node.state ≡ false)
    × (byte_at p at_node_id ≡ node.node_id → get_pkt_unique_id p ≢ node.unique_id)
    × (get_packet_hop p < max_hop_count)
    × ((byte_at p at_type ≡ pkt_get_register) ⊎ (byte_at p at_type ≡ pkt_set_register)
        → (i : ℕ) → i < node.num_registers
        → ¬ HasName p (get_or node.registers i no_register))
    × (byte_at p at_type ≢ pkt_join
        → (i : ℕ) → i < max_repeat_cache_size
        → set_packet_hop p 0 ≢ set_packet_hop (get_or node.repeat_cache i []) 0)
unfolding is_repeatable get_packet_hop is_same_packet_sans_hop get_packet_seq
is_repeatable_sound_example = is_repeatable_sound node node-IsValid refl

acknowledge-judge_example :
    (timeout ≢ invalid_register_value
      → timeout ≢ auto_set_register
      → byte_at (acknowledge (judge timeout node)).packet_cache at_err_msg_start ≡ 0)
    × (node.register_cache.error_set ≡ 0
        → byte_at (acknowledge (judge invalid_register_value node)).packet_cache at_err_msg_start
          ≡ b'U')
acknowledge-judge_example = acknowledge-judge node timeout node-IsValid

node-IsResponseQueue : IsResponseQueue node
node-IsResponseQueue = record {
  size = node-IsValid.response_size;
  ring = node-IsValid.response_ring;
}

append_response_repeat_lem_example :
    let r = append_response_repeat node in
    (responses r ≡ (
      if node.response_repeat_cache_size == max_repeat_cache_size
      then responses node
      else responses node
        ++ response_entry node (get_or node.response_repeat_cache node.response_repeat_cache_end [])
          ∷ []))
    × (r.response_repeat_cache_size ≤ max_repeat_cache_size)
    × IsResponseQueue r
append_response_repeat_lem_example =
    append_response_repeat_lem node node-IsResponseQueue (omega arith)

-- The node with one response to repeat.
abbrev answering : Mesh
answering = append_response_repeat node

-- Three responses, repeated 4, 2 and 3 times.
abbrev repeated : List (List ℕ)
repeated =
    (5 ∷ 4 ∷ 0 ∷ 0 ∷ []) ∷ (7 ∷ 2 ∷ 0 ∷ 0 ∷ []) ∷ (5 ∷ 3 ∷ 1 ∷ 0 ∷ []) ∷ (0 ∷ 0 ∷ 0 ∷ 0 ∷ []) ∷ []

cached_packet_not_repeatable_example :
    is_repeatable
      (record (cache_packet_for_repeat node) { packet_cache = set_packet_hop node.packet_cache 3 })
    ≡ false
unfolding is_repeatable get_packet_hop is_same_packet_sans_hop get_packet_seq
cached_packet_not_repeatable_example =
    cached_packet_not_repeatable node 3 node-IsValid (omega arith) refl (λ e. omega arith)
      (omega arith)
