-- ===== src/Values/Started.antt =====
-- When the operations of a node start, and when they refuse: `A7105_Mesh_Ping`,
-- `A7105_Mesh_GetNumRegisters`, `A7105_Mesh_GetRegisterName`, `A7105_Mesh_GetRegister` and
-- `A7105_Mesh_SetRegister` of libraries/a7105_mesh/a7105_mesh.cpp.
use atmega_a.Prelude.{
  ℕ, ◌+◌, ◌%◌, ◌≡◌, ◌∙◌, refl, sym, ap, Bool, true, false, Bool-cases, inl, inr, if◌then◌else◌,
  Option, none, some, List,
}
use atmega_a.World.{Io, millis}
use atmega_a.Packet.{packet_size, pkt_get_register, pkt_set_register}
use atmega_a.Radio.Transfer.{transfers, packet_sent}
use atmega_a.Register.{Register}
use atmega_a.Codec.{is_sendable, register_to_packet}
use atmega_a.Codec.Send.{
  FitsPacket, is_sendable_iff, register_to_packet_done, register_to_packet_refused,
}
use atmega_a.Mesh.{
  State, not_joined, joining, idle, pinging, getting_num_registers, getting_register_name,
  getting_register, setting_register, Status, ok, not_on_mesh, mesh_busy, invalid_register_length,
  Callback, Mesh, is_off_mesh, same_state,
}
use atmega_a.Send.{send_request, prep_packet_header, packet_header}
use atmega_a.Send.Frame.{send_request-Kept}
use atmega_a.Send.Bus.{EndsWith, EndsWith-same, is_refusing, send_request-EndsWith}
use atmega_a.Join.{prep_finishing_callback}
use atmega_a.Ping.{is_node_idle, ping}
use atmega_a.Query.{get_num_registers, get_register_name}
use atmega_a.Mesh.Valid.{in_state}
use atmega_a.Values.{get_register, set_register}

-- What an operation gives that is not started.
abbrev pub refusal : State → Status
refusal s = if is_off_mesh s then not_on_mesh else mesh_busy

module _ ⦃io : Io⦄ (callback : Option Callback) (node_id unique_id index : ℕ) (reg : Register) where
  -- The five operations, on one node.
  abbrev pub Operations : Mesh → (Mesh → Status × Mesh) → Type 0
  Operations m r =
      (ping callback m ≡ r m)
      × (get_num_registers node_id unique_id callback m ≡ r m)
      × (get_register_name node_id index unique_id callback m ≡ r m)
      × (get_register reg callback m ≡ r m)
      × (set_register reg callback m ≡ r m)

  refused_in :
      (m : Mesh) (s : State)
      → same_state s idle ≡ false
      → Operations (record m { state = s }) (λ n. (refusal s, n))
  unfolding ping get_num_registers get_register_name get_register set_register is_node_idle
  refused_in m not_joined h = (refl, refl, refl, refl, refl)
  refused_in m joining h = (refl, refl, refl, refl, refl)
  refused_in m idle h = cc
  refused_in m pinging h = (refl, refl, refl, refl, refl)
  refused_in m getting_num_registers h = (refl, refl, refl, refl, refl)
  refused_in m getting_register_name h = (refl, refl, refl, refl, refl)
  refused_in m getting_register h = (refl, refl, refl, refl, refl)
  refused_in m setting_register h = (refl, refl, refl, refl, refl)

-- On a node that is not idle, each of the five operations is refused, with NOT_ON_MESH before the
-- node has joined and with BUSY while another operation is under way, and the node stays as it
-- was: no packet is sent.
pub operations_refused :
    ⦃io : Io⦄ (callback : Option Callback) (node_id unique_id index : ℕ) (reg : Register) (m : Mesh)
    → same_state m.state idle ≡ false
    → let r : Status × Mesh = ((if is_off_mesh m.state then not_on_mesh else mesh_busy), m) in
      (ping callback m ≡ r)
      × (get_num_registers node_id unique_id callback m ≡ r)
      × (get_register_name node_id index unique_id callback m ≡ r)
      × (get_register reg callback m ≡ r)
      × (set_register reg callback m ≡ r)
operations_refused callback node_id unique_id index reg m h =
    refused_in callback node_id unique_id index reg m m.state h

-- The packet of a request for a register: the header that the node gives it, and the register.
abbrev pub request_packet : Mesh → ℕ → Register → Bool → List ℕ
request_packet m packet_type reg value =
    (register_to_packet (packet_header packet_type m.sequence_num m.node_id m.unique_id 0) reg
      value).1

module _ ⦃io : Io⦄ where
  -- What GET_REGISTER and SET_REGISTER leave of an idle node, with the packet of the request, by whether
  -- the register fits a packet.
  pub record Begun (m r : Mesh) (s : Status) (under_way : State) (packet : List ℕ)
      (name_len data_len : ℕ) (value : Bool) : Type 0 where
    pub state : r.state ≡ under_way
    pub sent :
        FitsPacket name_len data_len value
        → (s ≡ ok) × (r.sequence_num ≡ (m.sequence_num + 1) % 16) × (r.packet_cache ≡ packet)
    pub on_bus :
        FitsPacket name_len data_len value
        → is_refusing m.radio (millis m.world).1 ≡ false
        → EndsWith
            (packet_sent packet packet_size (transfers m.world.events))
            (transfers r.world.events)
    pub refused :
        ¬ FitsPacket name_len data_len value
        → (s ≡ invalid_register_length) × (r.sequence_num ≡ m.sequence_num) × (r.world ≡ m.world)

  not_fitting :
      (reg : Register) (value : Bool)
      → is_sendable reg value ≡ false
      → ¬ FitsPacket reg.name_len reg.data_len value
  not_fitting reg value e f = cc ((is_sendable_iff reg value).1 f)

  Begun-refused :
      {m r : Mesh} {under_way : State} {packet : List ℕ} {name_len data_len : ℕ} {value : Bool}
      → ¬ FitsPacket name_len data_len value
      → r.state ≡ under_way
      → r.sequence_num ≡ m.sequence_num
      → r.world ≡ m.world
      → Begun m r invalid_register_length under_way packet name_len data_len value
  Begun-refused n a b c = record {
    state = a;
    sent = λ f. absurd (n f);
    on_bus = λ f. absurd (n f);
    refused = λ _. (refl, b, c);
  }

  -- `b` is the node with the request put together.
  Begun-sent :
      {m : Mesh} (b : Mesh) {under_way : State} {packet : List ℕ} {name_len data_len : ℕ}
      {value : Bool}
      → FitsPacket name_len data_len value
      → b.state ≡ under_way
      → b.sequence_num ≡ m.sequence_num
      → b.radio ≡ m.radio
      → b.world ≡ m.world
      → b.packet_cache ≡ packet
      → Begun m (send_request b) ok under_way packet name_len data_len value
  Begun-sent {m} b {packet = packet} f a c same_radio same_world same =
      let k = send_request-Kept b in
      record {
        state = k.0.state ∙ a;
        sent = λ _. (refl, k.1 ∙ ap (λ n. (n + 1) % 16) c, k.0.packet ∙ same);
        on_bus = λ _ free.
            EndsWith-same
              (send_request-EndsWith b (
                ap (λ r. is_refusing r (millis b.world).1) same_radio
                ∙ ap (λ w. is_refusing m.radio (millis w).1) same_world
                ∙ free))
              (ap (λ p. packet_sent p packet_size (transfers b.world.events)) same
                ∙ ap (λ w. packet_sent packet packet_size (transfers w.events)) same_world);
        refused = λ n. absurd (n f);
      }

  get_register_idle :
      (m : Mesh) (reg : Register) (callback : Option Callback)
      → let n = record m { state = idle } in
        let r = get_register reg callback n in
        Begun n r.1 r.0 getting_register
          (request_packet m pkt_get_register reg false)
          reg.name_len
          reg.data_len
          false
  unfolding get_register is_node_idle prep_finishing_callback prep_packet_header
  get_register_idle m reg none = elim (Bool-cases (is_sendable reg false)) [
    | inl e ↦ rw (register_to_packet_done _ reg false e) (
        Begun-sent _ ((is_sendable_iff reg false).0 e) refl refl refl refl
          (sym (ap (λ t. t.1) (register_to_packet_done _ reg false e))))
    | inr e ↦
        rw (register_to_packet_refused _ reg false e)
          (Begun-refused (not_fitting reg false e) refl refl refl)
  ]
  get_register_idle m reg (some c) = elim (Bool-cases (is_sendable reg false)) [
    | inl e ↦ rw (register_to_packet_done _ reg false e) (
        Begun-sent _ ((is_sendable_iff reg false).0 e) refl refl refl refl
          (sym (ap (λ t. t.1) (register_to_packet_done _ reg false e))))
    | inr e ↦
        rw (register_to_packet_refused _ reg false e)
          (Begun-refused (not_fitting reg false e) refl refl refl)
  ]

  set_register_idle :
      (m : Mesh) (reg : Register) (callback : Option Callback)
      → let n = record m { state = idle } in
        let r = set_register reg callback n in
        Begun n r.1 r.0 setting_register
          (request_packet m pkt_set_register reg true)
          reg.name_len
          reg.data_len
          true
  unfolding set_register is_node_idle prep_finishing_callback prep_packet_header
  set_register_idle m reg none = elim (Bool-cases (is_sendable reg true)) [
    | inl e ↦ rw (register_to_packet_done _ reg true e) (
        Begun-sent _ ((is_sendable_iff reg true).0 e) refl refl refl refl
          (sym (ap (λ t. t.1) (register_to_packet_done _ reg true e))))
    | inr e ↦
        rw (register_to_packet_refused _ reg true e)
          (Begun-refused (not_fitting reg true e) refl refl refl)
  ]
  set_register_idle m reg (some c) = elim (Bool-cases (is_sendable reg true)) [
    | inl e ↦ rw (register_to_packet_done _ reg true e) (
        Begun-sent _ ((is_sendable_iff reg true).0 e) refl refl refl refl
          (sym (ap (λ t. t.1) (register_to_packet_done _ reg true e))))
    | inr e ↦
        rw (register_to_packet_refused _ reg true e)
          (Begun-refused (not_fitting reg true e) refl refl refl)
  ]

  -- An idle node that is asked to get or to set a register is busy afterwards. If the register fits a
  -- packet, the status is that of success, and the request takes a sequence number: a packet of
  -- type GET_REGISTER with the name put in, or of type SET_REGISTER with name and value, stands in the
  -- packet cache, and unless the driver refuses the write since the counter of its WTR pin tells of a
  -- transmission under way, that packet goes over the bus with the order to send. If the register
  -- does not fit, the status is INVALID_REGISTER_LENGTH and nothing is sent, but the node is left in the
  -- state of the operation all the same.
  pub operations-Begun :
      (m : Mesh) (reg : Register) (callback : Option Callback)
      → m.state ≡ idle
      → let (s, r) = get_register reg callback m in
        let (t, q) = set_register reg callback m in
        Begun m r s getting_register
          (request_packet m pkt_get_register reg false)
          reg.name_len
          reg.data_len
          false
        × Begun m q t setting_register
            (request_packet m pkt_set_register reg true)
            reg.name_len
            reg.data_len
            true
  operations-Begun m reg callback h =
      rw (in_state m h) (get_register_idle m reg callback, set_register_idle m reg callback)
