-- ===== src/Repeater.antt =====
-- The three repeaters of a node, of received packets, of its responses and of its request:
-- libraries/a7105_mesh/a7105_mesh.cpp.
pub mod Ring
pub mod Responses
pub mod Choice
pub mod Echo
pub mod Prepared
pub mod Safe
use atmega_a.Prelude.{
  ℕ, zero, suc, ◌+◌, ◌-◌, ◌%◌, Bool, true, false, not, ◌&&◌, ◌||◌, Option, none, some, List, [],
  ltb, leb, ◌==◌, if◌then◌else◌, length, get_or, set, byte_at, memcpy,
}
use atmega_a.World.{Io}
use atmega_a.Packet.{
  packet_size, at_type, at_node_id, at_target_id, at_data_start, pkt_join, pkt_get_num_registers,
  pkt_num_registers, pkt_get_register_name, pkt_register_name, pkt_get_register, pkt_register_value,
  pkt_set_register, pkt_set_register_ack, set_packet_seq, get_packet_hop, set_packet_hop,
  get_pkt_unique_id, is_same_packet_sans_hop,
}
use atmega_a.Register.{Register}
use atmega_a.Codec.{no_register, register_to_packet, set_register_index, does_packet_have_register}
use atmega_a.Mesh.{
  State, not_joined, idle, getting_num_registers, getting_register_name, Mesh,
  max_repeat_cache_size, response_cache_size, max_hop_count, response_max_repeat,
  request_max_repeat, is_off_mesh, same_state, now, is_past, renew_random_delay,
}
use atmega_a.Send.{
  entry_op, entry_rep_count, entry_seq, entry_data, prep_packet_header, transmit,
  await_transmission, listen, pop_response_repeat,
}

-- `_A7105_Mesh_Append_Repeat`
unfoldable pub append_repeat : Mesh → Mesh
append_repeat m = if m.repeat_cache_size == max_repeat_cache_size then m else record m {
  repeat_cache =
      set m.repeat_cache m.repeat_cache_end
        (memcpy (get_or m.repeat_cache m.repeat_cache_end []) 0 m.packet_cache 0 packet_size);
  repeat_cache_end = (m.repeat_cache_end + 1) % max_repeat_cache_size;
  repeat_cache_size = (m.repeat_cache_size + 1) % 256;
}

-- `_A7105_Mesh_Pop_Repeat`: the index of the packet that it returns a pointer to; `none` is NULL.
unfoldable pub pop_repeat : Mesh → Option ℕ × Mesh
pop_repeat m = if m.repeat_cache_size == 0 then (none, m) else (
  some m.repeat_cache_start,
  record m {
    repeat_cache_start = (m.repeat_cache_start + 1) % max_repeat_cache_size;
    repeat_cache_size = m.repeat_cache_size - 1;
  },
)

-- The packet is a response to the node's directed request of the given state.
abbrev pub is_directed_response : State → ℕ → Mesh → Bool
is_directed_response s packet_type m =
    same_state m.state s
    && byte_at m.packet_cache at_type == packet_type
    && byte_at m.packet_cache at_node_id == m.target_node_id
    && (m.target_unique_id == 0 || get_pkt_unique_id m.packet_cache == m.target_unique_id)

-- The loop over the node's registers, with `n` rounds left at `x`.
unfoldable pub serves_from : List ℕ → List Register → ℕ → ℕ → Bool
serves_from packet registers zero x = false
serves_from packet registers (suc n) x =
    if does_packet_have_register packet (get_or registers x no_register)
    then true
    else serves_from packet registers n (suc x)

-- The loop over the repeat cache, with `n` rounds left at `x`.
unfoldable pub was_repeated_from : List ℕ → List (List ℕ) → ℕ → ℕ → Bool
was_repeated_from packet cache zero x = false
was_repeated_from packet cache (suc n) x =
    if not (byte_at packet at_type == pkt_join)
      && is_same_packet_sans_hop packet (get_or cache x [])
    then true
    else was_repeated_from packet cache n (suc x)

-- The tests of `_A7105_Mesh_Cache_Packet_For_Repeat`, in its order.
unfoldable pub is_repeatable : Mesh → Bool
unfolding serves_from was_repeated_from
is_repeatable m =
    let packet = m.packet_cache in
    let packet_type = byte_at packet at_type in
    if is_off_mesh m.state
    then false
    else if byte_at packet at_node_id == m.node_id && get_pkt_unique_id packet == m.unique_id
    then false
    else if (packet_type == pkt_get_num_registers
          || packet_type == pkt_set_register_ack
          || packet_type == pkt_get_register_name)
        && byte_at packet at_target_id == m.node_id
    then false
    else if is_directed_response getting_num_registers pkt_num_registers m
    then false
    else if is_directed_response getting_register_name pkt_register_name m
    then false
    else if (packet_type == pkt_get_register || packet_type == pkt_set_register)
        && serves_from packet m.registers m.num_registers 0
    then false
    else if was_repeated_from packet m.repeat_cache max_repeat_cache_size 0
    then false
    else if leb max_hop_count (get_packet_hop packet)
    then false
    else true

-- `_A7105_Mesh_Cache_Packet_For_Repeat`
unfoldable pub cache_packet_for_repeat : Mesh → Mesh
cache_packet_for_repeat m = if is_repeatable m then append_repeat m else m

-- The loop of `_A7105_Mesh_Update_Response_Repeats` that picks the entry with the fewest repeats:
-- `n` rounds left at `x`, with `best` found so far.
unfoldable pub fewest_from : List (List ℕ) → ℕ → ℕ → ℕ → ℕ → ℕ
fewest_from cache start zero x best = best
fewest_from cache start (suc n) x best =
    let index = (start + x) % response_cache_size in
    fewest_from cache start n (suc x) (
      if ltb (byte_at (get_or cache index []) entry_rep_count)
        (byte_at (get_or cache best []) entry_rep_count)
      then index
      else best)

-- The body of the packet that `_A7105_Mesh_Response_Repeat_Cache_Packet_Prep` makes. Behind the
-- registers there is none to put in; what the code makes of the memory there is not modelled.
unfoldable pub fill_response : Mesh → ℕ → ℕ → List ℕ → List ℕ
fill_response m op item packet =
    if op == pkt_num_registers
    then set packet at_data_start m.num_registers
    else if op == pkt_register_name
    then (set_register_index
        (register_to_packet packet (get_or m.registers item no_register) false).1 item).1
    else if op == pkt_register_value
    then (register_to_packet packet (get_or m.registers item no_register) true).1
    else if op == pkt_set_register_ack
    then set packet at_target_id item
    else packet

-- The entry stands for a register that the node does not have: the code takes the memory behind the
-- array for a register there.
abbrev pub is_past_registers : Mesh → ℕ → ℕ → Bool
is_past_registers m op item =
    (op == pkt_register_name || op == pkt_register_value) && leb (length m.registers) item

-- `_A7105_Mesh_Response_Repeat_Cache_Packet_Prep`. Once it has read behind the registers, the model
-- says nothing of the program.
unfoldable pub response_repeat_cache_packet_prep : ℕ → Mesh → Mesh
unfolding fill_response
response_repeat_cache_packet_prep index m =
    let entry = get_or m.response_repeat_cache index [] in
    let op = byte_at entry entry_op in
    let headed = prep_packet_header m op in
    record headed {
      packet_cache =
          fill_response m op (byte_at entry entry_data)
            (set_packet_seq headed.packet_cache (byte_at entry entry_seq));
      world = record headed.world {
        stuck = headed.world.stuck || is_past_registers m op (byte_at entry entry_data);
      };
    }

module _ ⦃io : Io⦄ where
  -- The sending of a packet taken from the ring at `i`: its hop count goes up in the ring.
  unfoldable pub repeat_at : ℕ → Mesh → Mesh
  repeat_at i m =
      let packet = get_or m.repeat_cache i [] in
      let hopped = set_packet_hop packet (get_packet_hop packet + 1) in
      let (t, timed) =
        now (transmit hopped (record m { repeat_cache = set m.repeat_cache i hopped })) in
      listen (await_transmission (record timed { last_repeat_sent_time = t }))

  unfoldable pub repeat_popped : Option ℕ × Mesh → Mesh
  repeat_popped (none, m) = m
  repeat_popped (some i, m) = repeat_at i m

  -- `_A7105_Mesh_Update_Repeats`
  unfoldable pub update_repeats : Mesh → Mesh
  unfolding repeat_at repeat_popped
  update_repeats m =
      if not (is_off_mesh m.state) && ltb 0 m.repeat_cache_size
      then (let (due, m₁) = is_past m.last_repeat_sent_time m.random_delay m in
          if due then repeat_popped (pop_repeat (renew_random_delay m₁)) else m₁)
      else m

  -- The end of `_A7105_Mesh_Update_Response_Repeats`, for the entry at `chosen`.
  unfoldable pub repeat_response : ℕ → Mesh → Mesh
  repeat_response chosen m =
      let prepared = response_repeat_cache_packet_prep chosen m in
      let (t, timed) = now prepared in
      let entry = get_or timed.response_repeat_cache chosen [] in
      let counted = record timed {
        last_response_repeat_sent_time = t;
        response_repeat_cache =
            set timed.response_repeat_cache chosen
              (set entry entry_rep_count ((byte_at entry entry_rep_count + 1) % 256));
      } in
      let sent = await_transmission (transmit counted.packet_cache counted) in
      let first = get_or sent.response_repeat_cache sent.response_repeat_cache_start [] in
      listen (
        if leb response_max_repeat (byte_at first entry_rep_count)
        then pop_response_repeat sent
        else sent)

  -- `_A7105_Mesh_Update_Response_Repeats`
  unfoldable pub update_response_repeats : Mesh → Mesh
  unfolding repeat_response fewest_from
  update_response_repeats m =
      if not (same_state m.state not_joined) && ltb 0 m.response_repeat_cache_size
      then (let (due, m₁) = is_past m.last_response_repeat_sent_time m.random_delay m in
          if due
          then (let m₂ = renew_random_delay m₁ in
              repeat_response
                (fewest_from m₂.response_repeat_cache m₂.response_repeat_cache_start
                  (m₂.response_repeat_cache_size - 1) 1 m₂.response_repeat_cache_start)
                m₂)
          else m₁)
      else m

  -- `_A7105_Mesh_Update_Request_Repeats`
  unfoldable pub update_request_repeats : Mesh → Mesh
  update_request_repeats m =
      if not (is_off_mesh m.state)
        && not (same_state m.state idle)
        && ltb m.request_repeat_count request_max_repeat
      then (let (due, m₁) = is_past m.last_request_repeat_sent_time m.random_delay m in
          if due
          then (let (t, m₂) = now (renew_random_delay m₁) in
              let counted = record m₂ {
                last_request_repeat_sent_time = t;
                request_repeat_count = (m₂.request_repeat_count + 1) % 256;
              } in
              listen (await_transmission (transmit counted.pending_request_cache counted)))
          else m₁)
      else m
