-- ===== src/Blocking/Operations.antt =====
-- The operations keep the invariant of the node, up to the wait of a blocking call: `A7105_Mesh_Ping` and so
-- on of libraries/a7105_mesh/a7105_mesh.cpp.
use atmega_a.Prelude.{
  ℕ, ◌<◌, ◌≢◌, refl, arith, Bool, true, false, Bool-cases, inl, inr, Option, none, some,
  All-replicate, ◌∙◌, length-memcpy, All-memcpy,
}
use atmega_a.World.{Io}
use atmega_a.Packet.{
  IsByte, at_target_id, at_reg_index, pkt_ping, pkt_get_num_registers, pkt_get_register_name,
  pkt_get_register, pkt_set_register,
}
use atmega_a.Register.{Register, IsRegister, register_copy}
use atmega_a.Codec.{register_to_packet}
use atmega_a.Codec.Send.{register_to_packet_bounds}
use atmega_a.Send.{prep_packet_header}
use atmega_a.Mesh.{
  Mesh, State, idle, pinging, getting_num_registers, getting_register_name, getting_register,
  setting_register, Callback, blocking_op_finished, rejoin_finished, is_off_mesh, same_state,
}
use atmega_a.Mesh.Safe.{IsSafe, IsSafe-same, IsSafe-packet}
use atmega_a.Mesh.Started.{IsSafe-operation, IsSafe-presence, IsSafe-register_cache}
use atmega_a.Send.Safe.{prep_packet_header-IsSafe, send_request-IsSafe}
use atmega_a.Join.{prep_finishing_callback}
use atmega_a.Ping.{is_node_idle, ping}
use atmega_a.Query.{get_num_registers, get_register_name}
use atmega_a.Query.Safe.{with_byte-IsSafe}
use atmega_a.Values.{get_register, set_register}

-- An operation that is set up, with its callback or that of a blocking call.
begun-IsSafe :
    {m : Mesh} (state : State) (target unique_id : ℕ) (callback : Option Callback)
    → callback ≢ some rejoin_finished
    → target < 256
    → IsSafe m
    → IsSafe (
        prep_finishing_callback callback
          (some blocking_op_finished)
          (record m { state = state; target_node_id = target; target_unique_id = unique_id }))
unfolding prep_finishing_callback
begun-IsSafe {m} state target unique_id none other l s =
    IsSafe-same _
      (IsSafe-operation s {state = state} {callback = some blocking_op_finished}
        {waiting = m.pending_operation_callback} s.valid.node_byte l s.valid.pending_target_byte
        (λ _ e. cc) (λ e. cc))
      refl
begun-IsSafe {m} state target unique_id (some c) other l s =
    IsSafe-same _
      (IsSafe-operation s {state = state} {callback = some c}
        {waiting = m.pending_operation_callback} s.valid.node_byte l s.valid.pending_target_byte
        (λ _ e. cc) (λ e. absurd (other e)))
      refl

module _ ⦃io : Io⦄ where
  pub ping-IsSafe :
      {m : Mesh} (callback : Option Callback)
      → callback ≢ some rejoin_finished
      → IsSafe m
      → IsSafe (ping callback m).1
  unfolding ping is_node_idle
  ping-IsSafe {m} callback other s = elim (Bool-cases (is_off_mesh m.state)) [
    | inl e ↦ rw (e, ping) s
    | inr e ↦ elim (Bool-cases (same_state m.state idle)) [
      | inl f ↦
          rw (e, f, ping)
            (send_request-IsSafe (
              prep_packet_header-IsSafe pkt_ping
                (IsSafe-presence (begun-IsSafe pinging 0 0 callback other (omega arith) s) refl
                  (All-replicate IsByte 32 0 (omega arith)))
                (omega arith)))
      | inr f ↦ rw (e, f, ping) s
    ]
  ]

  pub get_num_registers-IsSafe :
      {m : Mesh} (node_id unique_id : ℕ) (callback : Option Callback)
      → callback ≢ some rejoin_finished
      → node_id < 256
      → IsSafe m
      → IsSafe (get_num_registers node_id unique_id callback m).1
  unfolding get_num_registers is_node_idle
  get_num_registers-IsSafe {m} node_id unique_id callback other l s =
      elim (Bool-cases (is_off_mesh m.state)) [
        | inl e ↦ rw (e, get_num_registers) s
        | inr e ↦ elim (Bool-cases (same_state m.state idle)) [
          | inl f ↦
              rw (e, f, get_num_registers)
                (send_request-IsSafe (
                  with_byte-IsSafe at_target_id node_id
                    (prep_packet_header-IsSafe pkt_get_num_registers
                      (begun-IsSafe getting_num_registers node_id unique_id callback other l s)
                      (omega arith))
                    l))
          | inr f ↦ rw (e, f, get_num_registers) s
        ]
      ]

  pub get_register_name-IsSafe :
      {m : Mesh} (node_id reg_index unique_id : ℕ) (callback : Option Callback)
      → callback ≢ some rejoin_finished
      → node_id < 256
      → reg_index < 256
      → IsSafe m
      → IsSafe (get_register_name node_id reg_index unique_id callback m).1
  unfolding get_register_name is_node_idle
  get_register_name-IsSafe {m} node_id reg_index unique_id callback other l k s =
      elim (Bool-cases (is_off_mesh m.state)) [
        | inl e ↦ rw (e, get_register_name) s
        | inr e ↦ elim (Bool-cases (same_state m.state idle)) [
          | inl f ↦
              let indexed : IsSafe (record m { target_register_index = reg_index }) =
                IsSafe-same _ s refl in
              rw (e, f, get_register_name)
                (send_request-IsSafe (
                  with_byte-IsSafe at_reg_index reg_index
                    (with_byte-IsSafe at_target_id node_id
                      (prep_packet_header-IsSafe pkt_get_register_name
                        (begun-IsSafe getting_register_name node_id unique_id callback other l
                          indexed)
                        (omega arith))
                      l)
                    k))
          | inr f ↦ rw (e, f, get_register_name) s
        ]
      ]

  -- The register of a request, put in its packet.
  filled-IsSafe :
      {m : Mesh} (state : State) (packet_type : ℕ) (callback : Option Callback) (reg : Register)
      (include_value : Bool)
      → callback ≢ some rejoin_finished
      → packet_type < 256
      → IsRegister reg
      → IsSafe m
      → let started = record m { state = state; target_node_id = 0; target_unique_id = 0 } in
        let headed =
          prep_packet_header
            (prep_finishing_callback callback (some blocking_op_finished) started)
            packet_type in
        IsSafe (record headed {
          packet_cache = (register_to_packet headed.packet_cache reg include_value).1;
        })
  filled-IsSafe state packet_type callback reg include_value other l r s =
      let headed =
        prep_packet_header-IsSafe packet_type
          (begun-IsSafe state 0 0 callback other (omega arith) s) l in
      IsSafe-packet headed (register_to_packet_bounds _ reg include_value headed.valid.packet r).4

  copied-IsRegister :
      {dest src : Register} → IsRegister dest → IsRegister src → IsRegister (register_copy dest src)
  unfolding register_copy
  copied-IsRegister {dest} {src} d r = record {
    size = length-memcpy dest.contents 0 src.contents 0 57 ∙ d.size;
    bytes = All-memcpy IsByte dest.contents 0 src.contents 0 57 d.bytes r.bytes (omega arith);
    name_fits = r.name_fits;
    data_fits = r.data_fits;
  }

  pub get_register-IsSafe :
      {m : Mesh} (reg : Register) (callback : Option Callback)
      → callback ≢ some rejoin_finished
      → IsRegister reg
      → IsSafe m
      → IsSafe (get_register reg callback m).1
  unfolding get_register is_node_idle
  get_register-IsSafe {m} reg callback other r s =
      let filled =
        filled-IsSafe getting_register pkt_get_register callback reg false other (omega arith) r
          s in
      let started = record m {
        state = getting_register;
        target_node_id = 0;
        target_unique_id = 0;
      } in
      let headed =
        prep_packet_header (prep_finishing_callback callback (some blocking_op_finished) started)
          pkt_get_register in
      elim (Bool-cases (is_off_mesh m.state)) [
        | inl e ↦ rw (e, get_register) s
        | inr e ↦ elim (Bool-cases (same_state m.state idle)) [
          | inl f ↦ elim (Bool-cases (register_to_packet headed.packet_cache reg false).0) [
            | inl g ↦
                rw (e, f, g, get_register)
                  (send_request-IsSafe (
                    IsSafe-register_cache filled (copied-IsRegister filled.valid.register_valid r)))
            | inr g ↦ rw (e, f, g, get_register) filled
          ]
          | inr f ↦ rw (e, f, get_register) s
        ]
      ]

  pub set_register-IsSafe :
      {m : Mesh} (reg : Register) (callback : Option Callback)
      → callback ≢ some rejoin_finished
      → IsRegister reg
      → IsSafe m
      → IsSafe (set_register reg callback m).1
  unfolding set_register is_node_idle
  set_register-IsSafe {m} reg callback other r s =
      let filled =
        filled-IsSafe setting_register pkt_set_register callback reg true other (omega arith) r s in
      let started = record m {
        state = setting_register;
        target_node_id = 0;
        target_unique_id = 0;
      } in
      let headed =
        prep_packet_header (prep_finishing_callback callback (some blocking_op_finished) started)
          pkt_set_register in
      elim (Bool-cases (is_off_mesh m.state)) [
        | inl e ↦ rw (e, set_register) s
        | inr e ↦ elim (Bool-cases (same_state m.state idle)) [
          | inl f ↦ elim (Bool-cases (register_to_packet headed.packet_cache reg true).0) [
            | inl g ↦ rw (e, f, g, set_register) (send_request-IsSafe filled)
            | inr g ↦ rw (e, f, g, set_register) filled
          ]
          | inr f ↦ rw (e, f, set_register) s
        ]
      ]
