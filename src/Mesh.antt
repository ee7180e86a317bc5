-- ===== src/Mesh.antt =====
-- `struct A7105_Mesh`, its states and statuses, and what the client plugs in:
-- libraries/a7105_mesh/a7105_mesh.h.
pub mod Valid
pub mod Safe
pub mod Changed
pub mod Started
pub mod Lawful
pub mod Delay
use atmega_a.Prelude.{
  ℕ, zero, suc, ◌+◌, ◌-◌, ◌*◌, ◌%◌, ◌^◌, Bool, true, false, not, ◌||◌, Option, none, some, List,
  ltb, ◌==◌, if◌then◌else◌,
}
use atmega_a.World.{Io, World, M, ◌>>=◌, pure, millis, random}
use atmega_a.Radio.{A7105}
use atmega_a.Register.{Register}

-- `enum A7105_Mesh_State`; the states of the mesh operations carry their operation's name.
pub data State : Type 0 where
  not_joined joining idle pinging : State
  getting_num_registers getting_register_name getting_register setting_register : State

-- `enum A7105_Mesh_Status`
pub data Status : Type 0 where
  no_status ok timeout : Status
  invalid_register_index invalid_register_length invalid_register_returned : Status
  invalid_register_value not_on_mesh mesh_busy mesh_full mesh_already_joining : Status
  radio_init_error radio_calibration_error radio_invalid_channel auto_set_register : Status

-- A pointer to an operation's callback that is not NULL: one of the client's, by its number, or
-- one of the two of the library.
pub data Callback : Type 0 where
  user : ℕ → Callback
  blocking_op_finished rejoin_finished : Callback

abbrev pub max_repeat_cache_size : ℕ
max_repeat_cache_size = 2

abbrev pub handled_packet_cache_length : ℕ
handled_packet_cache_length = 8

abbrev pub handled_packet_cache_seq_expire : ℕ
handled_packet_cache_seq_expire = 3

abbrev pub max_hop_count : ℕ
max_hop_count = 6

abbrev pub join_accept_delay : ℕ
join_accept_delay = 5000

abbrev pub min_join_retransmit_delay : ℕ
min_join_retransmit_delay = 100

abbrev pub max_join_retransmit_delay : ℕ
max_join_retransmit_delay = 600

abbrev pub ping_timeout : ℕ
ping_timeout = 4000

abbrev pub request_timeout : ℕ
request_timeout = 2000

abbrev pub response_cache_size : ℕ
response_cache_size = 4

abbrev pub response_max_repeat : ℕ
response_max_repeat = 6

abbrev pub request_max_repeat : ℕ
request_max_repeat = 4

-- The entries of the two small caches are their bytes, at the offsets of the header files.
pub record Mesh : Type 0 where
  pub radio : A7105
  pub world : World
  pub state : State
  pub unique_id : ℕ  -- uint16_t
  pub node_id : ℕ
  pub random_delay : ℕ  -- uint16_t
  pub registers : List Register
  pub num_registers : ℕ
  pub packet_cache : List ℕ
  pub request_sent_time : ℕ  -- unsigned long
  pub target_node_id : ℕ
  pub target_unique_id : ℕ  -- uint16_t
  pub target_register_index : ℕ
  pub handled_packet_cache : List (List ℕ)
  pub last_handled_packet_index : ℕ
  pub sequence_num : ℕ
  pub join_first_tx_time : ℕ  -- unsigned long
  pub join_retransmit_delay : ℕ  -- uint16_t
  pub presence_table : List ℕ
  pub repeat_cache : List (List ℕ)
  pub repeat_cache_start : ℕ
  pub repeat_cache_end : ℕ
  pub repeat_cache_size : ℕ
  pub last_repeat_sent_time : ℕ  -- unsigned long
  pub client_context_obj : ℕ
  pub num_registers_cache : ℕ
  pub register_cache : Register
  pub responder_node_id : ℕ
  pub responder_unique_id : ℕ  -- uint16_t
  pub operation_callback : Option Callback
  pub blocking_operation_status : Status
  pub register_value_broadcast_callback : Option ℕ
  pub broadcast_cache : Option Register
  pub pending_operation_callback : Option Callback
  pub pending_state : State
  pub pending_target_node_id : ℕ
  pub pending_target_unique_id : ℕ  -- byte
  pub pending_request_cache : List ℕ
  pub pending_operation : Bool
  pub last_request_repeat_sent_time : ℕ  -- unsigned long
  pub request_repeat_count : ℕ
  pub response_repeat_cache : List (List ℕ)
  pub response_repeat_cache_start : ℕ
  pub response_repeat_cache_end : ℕ
  pub response_repeat_cache_size : ℕ
  pub last_response_repeat_sent_time : ℕ  -- unsigned long

-- The client's functions, by their numbers. Each gets the node, which it may change as it likes;
-- a register of the node is given by its index.
pub record Client : Type 0 where
  pub finished : ℕ → Status → Mesh → Mesh
  pub on_set_register : ℕ → ℕ → Mesh → Status × Mesh
  pub on_get_register : ℕ → ℕ → Mesh → Mesh
  pub on_broadcast : ℕ → Mesh → Mesh

-- A test of the node's state.
abbrev pub is_off_mesh : State → Bool
is_off_mesh not_joined = true
is_off_mesh joining = true
is_off_mesh _ = false

abbrev pub same_state : State → State → Bool
same_state not_joined not_joined = true
same_state joining joining = true
same_state idle idle = true
same_state pinging pinging = true
same_state getting_num_registers getting_num_registers = true
same_state getting_register_name getting_register_name = true
same_state getting_register getting_register = true
same_state setting_register setting_register = true
same_state _ _ = false

-- A call of the radio driver by the node.
abbrev pub on_radio : {A : Type 0} → (A7105 → M A) → Mesh → A × Mesh
on_radio f m = let (a, w) = f m.radio m.world in (a, record m { world = w })

-- `a - b` of two `unsigned long`.
abbrev pub elapsed : ℕ → ℕ → ℕ
elapsed a b = (a + 2 ^ 32 - b) % 2 ^ 32

module _ ⦃io : Io⦄ where
  abbrev pub now : Mesh → ℕ × Mesh
  now = on_radio (λ _. millis)

  -- `millis() - since > delay`
  unfoldable pub is_past : ℕ → ℕ → Mesh → Bool × Mesh
  is_past since delay m = let (t, m') = now m in (ltb delay (elapsed t since), m')

  -- The time that a packet takes at a data rate.
  unfoldable pub transmit_time : ℕ → ℕ
  transmit_time data_rate =
      if data_rate == 0x01
      then 4
      else if data_rate == 0x03
      then 8
      else if data_rate == 0x04
      then 10
      else if data_rate == 0x09
      then 20
      else if data_rate == 0x13
      then 40
      else if data_rate == 0x31
      then 100
      else if data_rate == 0xF9
      then 494
      else 0

  -- `_A7105_Mesh_Calculate_Random_Delay`
  unfoldable pub calculate_random_delay : ℕ → M ℕ
  unfolding transmit_time
  calculate_random_delay data_rate w =
      let (r, w') = random (2 * transmit_time data_rate) (41 * transmit_time data_rate) w in
      (r % 2 ^ 16, w')

  -- `node->random_delay = _A7105_Mesh_Calculate_Random_Delay(...)`
  unfoldable pub renew_random_delay : Mesh → Mesh
  renew_random_delay m =
      let (d, w) = calculate_random_delay m.radio.data_rate m.world in
      record m { random_delay = d; world = w }
