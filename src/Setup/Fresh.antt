-- ===== src/Setup/Fresh.antt =====
-- A node that was just initialised.
use atmega_a.Prelude.{
  ℕ, ◌%◌, ◌^◌, ◌≤◌, ◌<◌, ◌≡◌, ◌≢◌, ◌∙◌, refl, sym, ap, arith, true, List, ◌∷◌, length, replicate,
  All, All-replicate,
}
use atmega_a.World.{Io, World, random, emit, seed}
use atmega_a.Packet.{IsByte, IsPacket}
use atmega_a.Register.{Register, IsRegister}
use atmega_a.Radio.{StatusCode, init_error, calibration_error, invalid_channel}
use atmega_a.Radio.Setup.{easy_setup_radio}
use atmega_a.Mesh.{
  Mesh, ok, not_joined, radio_init_error, radio_calibration_error, radio_invalid_channel,
}
use atmega_a.Mesh.Valid.{IsValid, IsEntry, IsRing}
use atmega_a.Mesh.Delay.{IsRandom}
use atmega_a.Send.{listen}
use atmega_a.Send.Header.{zero-IsPacket}
use atmega_a.Setup.{draw, get_random_seed, status_of, cleared, mesh_initialize, set_node_registers}

pub zero-IsEntry : IsEntry (replicate 4 0)
zero-IsEntry = (refl, All-replicate IsByte 4 0 (omega arith))

empty-IsRing : (cap : ℕ) → 0 < cap → (0 ≡ 0 % cap) → IsRing cap 0 0 0
empty-IsRing cap h e = record { start_in = h; end_in = h; size_in = omega arith; end_is = e }

-- The fields that the initialisation leaves as the client's memory held them.
pub record IsMemory (m : Mesh) : Type 0 where
  pub pending : IsPacket m.pending_request_cache
  pub register_valid : IsRegister m.register_cache
  pub node_byte : m.node_id < 256
  pub pending_target_byte : m.pending_target_node_id < 256

status_of_lem :
    (c : StatusCode)
    → status_of c ≡ ok
    → (c ≢ init_error) × (c ≢ calibration_error) × (c ≢ invalid_channel)
unfolding status_of
status_of_lem c h = (
  λ e. let bad : radio_init_error ≡ ok = ap status_of (sym e) ∙ h in cc,
  λ e. let bad : radio_calibration_error ≡ ok = ap status_of (sym e) ∙ h in cc,
  λ e. let bad : radio_invalid_channel ≡ ok = ap status_of (sym e) ∙ h in cc,
)

module _ ⦃io : Io⦄ where
  cleared-IsValid :
      (m : Mesh) (u d j : ℕ) (regs : List Register) (num_regs : ℕ)
      → IsMemory m
      → u < 2 ^ 16
      → All IsRegister regs
      → num_regs ≤ length regs
      → num_regs < 256
      → IsValid (set_node_registers regs num_regs (listen (cleared u d j m)))
  unfolding cleared listen set_node_registers
  cleared-IsValid m u d j regs num_regs v hu hr hn hb = record {
    packet = zero-IsPacket;
    pending = v.pending;
    registers_there = hn;
    registers_valid = hr;
    register_valid = v.register_valid;
    num_registers_byte = hb;
    node_byte = v.node_byte;
    unique_word = hu;
    target_byte = omega arith;
    pending_target_byte = v.pending_target_byte;
    seq_nibble = omega arith;
    presence_size = refl;
    presence_bytes = All-replicate IsByte 32 0 (omega arith);
    handled_size = refl;
    handled_entries = All-replicate IsEntry 8 (replicate 4 0) zero-IsEntry;
    handled_index = omega arith;
    repeat_size = refl;
    repeat_packets = All-replicate IsPacket 2 (replicate 64 0) zero-IsPacket;
    repeat_ring = empty-IsRing 2 (omega arith) refl;
    response_size = refl;
    response_entries = All-replicate IsEntry 4 (replicate 4 0) zero-IsEntry;
    response_ring = empty-IsRing 4 (omega arith) refl;
    callback_there = λ ne. absurd (ne refl);
  }

  draw_unique_id :
      (data_rate pin : ℕ) (w : World)
      → IsRandom io
      → (1 ≤ (draw data_rate pin w).0.0) × ((draw data_rate pin w).0.0 < 2 ^ 16)
  unfolding draw random emit
  draw_unique_id data_rate pin w lawful =
      let r =
        lawful (seed (get_random_seed 31 pin w).0 ∷ (get_random_seed 31 pin w).1.events) 0 0xFFFF
          (omega arith) in
      (omega (arith, r), omega (arith, r))

  -- With a lawful random number generator, a node that was initialised, whatever the radio answered,
  -- and that was given its registers, each of the library and no more than 255, is valid, has a unique
  -- id other than 0, and has not joined; the memory that the initialisation does not write must have
  -- been in order. The status is that of success only if the setup of the
  -- radio gave none of its three errors.
  pub mesh_initialize-IsValid :
      (cs wtr mesh_id data_rate channel power pin : ℕ) (m : Mesh) (regs : List Register)
      (num_regs : ℕ)
      → IsRandom io
      → IsMemory m
      → All IsRegister regs
      → num_regs ≤ length regs
      → num_regs < 256
      → let (s, r) = mesh_initialize cs wtr mesh_id data_rate channel power pin m in
        let code =
          (easy_setup_radio m.radio cs wtr mesh_id data_rate channel power true true m.world).0.0 in
        IsValid (set_node_registers regs num_regs r)
        × (1 ≤ r.unique_id)
        × (r.state ≡ not_joined)
        × (s ≡ ok → (code ≢ init_error) × (code ≢ calibration_error) × (code ≢ invalid_channel))
  unfolding mesh_initialize cleared listen
  mesh_initialize-IsValid cs wtr mesh_id data_rate channel power pin m regs num_regs lawful v hr hn
        hb =
      let setup =
        easy_setup_radio m.radio cs wtr mesh_id data_rate channel power true true m.world in
      let u = draw_unique_id data_rate pin setup.1 lawful in
      (
        cleared-IsValid (record m { radio = setup.0.1; world = (draw data_rate pin setup.1).1 }) _ _
            _ regs num_regs
            (record {
              pending = v.pending;
              register_valid = v.register_valid;
              node_byte = v.node_byte;
              pending_target_byte = v.pending_target_byte;
            })
            u.1 hr hn hb,
        u.0,
        refl,
        status_of_lem setup.0.0,
      )
