-- ===== src/Setup.antt =====
-- The initialisation of a node and the seed of its random numbers, and the two setters of its client's
-- data: libraries/a7105_mesh/a7105_mesh.cpp.
pub mod Fresh
use atmega_a.Prelude.{
  ℕ, zero, suc, ◌+◌, ◌*◌, ◌%◌, ◌^◌, Bool, true, false, not, none, List, ◌==◌, if◌then◌else◌,
  replicate, bit_or,
}
use atmega_a.World.{Io, World, M, ◌>>=◌, ◌>>◌, pure, seed, emit, random, analog}
use atmega_a.Packet.{packet_size}
use atmega_a.Register.{Register}
use atmega_a.Radio.{A7105, StatusCode, init_error, calibration_error, invalid_channel}
use atmega_a.Radio.Setup.{easy_setup_radio}
use atmega_a.Mesh.{
  not_joined, Status, ok, no_status, radio_init_error, radio_calibration_error,
  radio_invalid_channel, Mesh, on_radio, max_repeat_cache_size, handled_packet_cache_length,
  response_cache_size, min_join_retransmit_delay, max_join_retransmit_delay, calculate_random_delay,
}
use atmega_a.Send.{listen}
use atmega_a.Handled.{handled_header_size}

-- `A7105_MESH_RESPONSE_REPEAT_ITEM_SIZE`
abbrev pub response_repeat_item_size : ℕ
response_repeat_item_size = 4

module _ ⦃io : Io⦄ where
  -- The loop of `_A7105_Bit_out`, with `n` rounds left, the last value read, and the bit so far.
  bit_from : ℕ → ℕ → ℕ → Bool → M Bool
  bit_from pin zero prev bit1 = pure bit1
  bit_from pin (suc n) prev bit1 = analog pin >>= λ first. analog pin >>= λ second.
      let changed = not (prev == first) in
      let changed_again = not (first == second) in
      elim (if changed then changed_again else not changed_again) [
        | true ↦ bit_from pin n first changed
        | false ↦ pure changed
      ]

  -- `_A7105_Bit_out`
  unfoldable pub bit_out : ℕ → M ℕ
  unfolding bit_from
  bit_out pin = do
    prev ← analog pin
    bit1 ← bit_from pin 99 prev false
    pure (if bit1 then 1 else 0)

  -- The loop of `A7105_Mesh_Get_Random_Seed`, with `n` rounds left.
  seed_from : ℕ → ℕ → ℕ → M ℕ
  unfolding bit_out
  seed_from pin zero s = pure s
  seed_from pin (suc n) s = bit_out pin >>= λ bit. seed_from pin n (bit_or (s * 2 % 2 ^ 32) bit)

  -- `A7105_Mesh_Get_Random_Seed`
  unfoldable pub get_random_seed : ℕ → ℕ → M ℕ
  unfolding seed_from
  get_random_seed no_of_bits analog_pin = seed_from analog_pin no_of_bits 0

  -- The random numbers that the initialisation draws: the unique id, the random delay, and the delay
  -- between JOIN packets.
  unfoldable pub draw : ℕ → ℕ → M (ℕ × ℕ × ℕ)
  draw data_rate unconnected_analog_pin = do
    s ← get_random_seed 31 unconnected_analog_pin
    emit (seed s)
    id ← random 0 0xFFFF
    delay ← calculate_random_delay data_rate
    retransmit ← random min_join_retransmit_delay max_join_retransmit_delay
    pure ((id + 1) % 2 ^ 16, delay, retransmit % 2 ^ 16)

-- The status of a node for that of its radio.
unfoldable pub status_of : StatusCode → Status
status_of init_error = radio_init_error
status_of calibration_error = radio_calibration_error
status_of invalid_channel = radio_invalid_channel
status_of _ = ok

-- The fields that `A7105_Mesh_Initialize` sets, for the random numbers drawn; it leaves the others.
unfoldable pub cleared : ℕ → ℕ → ℕ → Mesh → Mesh
cleared unique_id random_delay join_retransmit_delay m = record m {
  state = not_joined;
  unique_id = unique_id;
  random_delay = random_delay;
  request_sent_time = 0;
  target_node_id = 0;
  target_unique_id = 0;
  sequence_num = 0;
  last_handled_packet_index = 0;
  handled_packet_cache = replicate handled_packet_cache_length (replicate handled_header_size 0);
  join_retransmit_delay = join_retransmit_delay;
  join_first_tx_time = 0;
  presence_table = replicate 32 0;
  repeat_cache_start = 0;
  repeat_cache_end = 0;
  repeat_cache_size = 0;
  last_repeat_sent_time = 0;
  repeat_cache = replicate max_repeat_cache_size (replicate packet_size 0);
  response_repeat_cache_start = 0;
  response_repeat_cache_end = 0;
  response_repeat_cache_size = 0;
  last_response_repeat_sent_time = 0;
  response_repeat_cache = replicate response_cache_size (replicate response_repeat_item_size 0);
  client_context_obj = 0;
  num_registers_cache = 0;
  packet_cache = replicate packet_size 0;
  operation_callback = none;
  blocking_operation_status = no_status;
  pending_operation = false;
  last_request_repeat_sent_time = 0;
  request_repeat_count = 0;
  register_value_broadcast_callback = none;
  broadcast_cache = none;
}

-- `A7105_Mesh_Initialize`
unfoldable pub mesh_initialize : ⦃io : Io⦄ → ℕ → ℕ → ℕ → ℕ → ℕ → ℕ → ℕ → Mesh → Status × Mesh
unfolding draw status_of cleared
mesh_initialize chip_select_pin wtr_pin mesh_id data_rate channel power unconnected_analog_pin m =
    let ((code, radio), w) =
      easy_setup_radio m.radio chip_select_pin wtr_pin mesh_id data_rate channel power true true
        m.world in
    let ((unique_id, random_delay, retransmit), w') = draw data_rate unconnected_analog_pin w in
    (
      status_of code,
      listen (cleared unique_id random_delay retransmit (record m { radio = radio; world = w' })),
    )

-- `A7105_Mesh_Set_Context` and `A7105_Mesh_Set_Node_Registers`
unfoldable pub set_context : ℕ → Mesh → Mesh
set_context context_obj m = record m { client_context_obj = context_obj }

unfoldable pub set_node_registers : List Register → ℕ → Mesh → Mesh
set_node_registers regs num_regs m = record m { registers = regs; num_registers = num_regs }
