-- ===== src/Send/Outgoing.antt =====
-- What sending a packet does with the world: `_A7105_Mesh_Send_Response` and
-- `_A7105_Mesh_Send_Request` of libraries/a7105_mesh/a7105_mesh.cpp.
use atmega_a.Prelude.{ℕ, ◌≡◌, ◌∙◌, refl, false, Bool-cases, inl, inr, List, ◌==◌, byte_at}
use atmega_a.World.{Io, World, millis}
use atmega_a.Radio.{A7105, write_data, wait_tx_finished, easy_listen_for_packets}
use atmega_a.Packet.{at_type, packet_size, pkt_join}
use atmega_a.Mesh.{Mesh, max_repeat_cache_size}
use atmega_a.Send.{
  append_response_repeat, is_response_type, send_response, send_request, transmit,
  await_transmission, listen,
}
use atmega_a.Send.Frame.{push, request_of, send_response_lem, send_request_lem}

module _ ⦃io : Io⦄ where
  -- What sending a packet does with the world, apart from the look at the clock before.
  unfoldable pub sending : A7105 → List ℕ → World → World
  sending r p w =
      (easy_listen_for_packets r packet_size
        (millis (wait_tx_finished r (write_data r p packet_size w).1).1).1).1

  response_world : (m : Mesh) → (send_response m).world ≡ sending m.radio m.packet_cache m.world
  unfolding push append_response_repeat transmit await_transmission listen sending
  response_world m =
      rw (send_response_lem m)
        (elim (Bool-cases (is_response_type (byte_at m.packet_cache at_type))) [
          | inl e ↦ elim (Bool-cases (m.response_repeat_cache_size == max_repeat_cache_size)) [
            | inl f ↦ rw (e, f) refl
            | inr f ↦ rw (e, f) refl
          ]
          | inr e ↦ rw e refl
        ])

  request_before :
      (m : Mesh)
      → sending (request_of m).radio (request_of m).packet_cache (request_of m).world
        ≡ sending m.radio m.packet_cache (millis m.world).1
  unfolding request_of
  request_before m = elim (Bool-cases (byte_at m.packet_cache at_type == pkt_join)) [
    | inl e ↦ rw e refl
    | inr e ↦ rw e refl
  ]

  -- A request looks at the clock, and then its packet is sent.
  pub request_world :
      (m : Mesh) → (send_request m).world ≡ sending m.radio m.packet_cache (millis m.world).1
  request_world m = rw (send_request_lem m) (response_world (request_of m) ∙ request_before m)

  -- A request that is not a response joins no response to the cache of those.
  pub request_keeps_responses :
      (m : Mesh)
      → is_response_type (byte_at m.packet_cache at_type) ≡ false
      → ((send_request m).radio ≡ m.radio)
        × ((send_request m).response_repeat_cache_size ≡ m.response_repeat_cache_size)
  unfolding push request_of
  request_keeps_responses m e =
      rw (send_request_lem m, send_response_lem (request_of m))
        (elim (Bool-cases (byte_at m.packet_cache at_type == pkt_join)) [
          | inl j ↦ rw (j, e) (refl, refl)
          | inr j ↦ rw (j, e) (refl, refl)
        ])
