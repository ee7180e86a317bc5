-- ===== src/Blocking/Going.antt =====
-- A node whose waits for the radio all end: what the last steps of `A7105_Mesh_Update` and the sending of a
-- request of libraries/a7105_mesh/a7105_mesh.cpp keep, with a chip that ends its transmissions in time.
use atmega_a.Prelude.{
  ℕ, ◌≡◌, ◌∙◌, refl, sym, ap, arith, Bool, true, false, not, ◌&&◌, Bool-cases, inl, inr,
  if◌then◌else◌, Option, none, some, List, ◌==◌, ltb, byte_at,
}
use mathlib.Core.Path.{subst}
use atmega_a.World.{Io, World, millis, random}
use atmega_a.Packet.{at_type, packet_size}
use atmega_a.Radio.{A7105, write_data}
use atmega_a.Radio.Prompt.{IsPrompt, write_data-stuck, listen-stuck, wait-stuck}
use atmega_a.Mesh.{
  idle, not_joined, Mesh, is_off_mesh, same_state, is_past, renew_random_delay,
  calculate_random_delay, request_max_repeat,
}
use atmega_a.Send.{transmit, await_transmission, listen, is_response_type, send_request}
use atmega_a.Send.Outgoing.{sending, request_world, request_keeps_responses}
use atmega_a.Repeater.{
  pop_repeat, repeat_at, repeat_popped, update_repeats, update_response_repeats,
  update_request_repeats,
}

module _ ⦃io : Io⦄ where
  -- The chip ends each transmission in time, no response waits to be repeated, and no wait has run out
  -- of patience.
  pub record Going (m : Mesh) : Type 0 where
    pub prompt : IsPrompt m.radio
    pub empty : m.response_repeat_cache_size ≡ 0
    pub free : m.world.stuck ≡ false

  pub Going-step :
      {m : Mesh} (after : Mesh)
      → Going m
      → after.radio ≡ m.radio
      → after.response_repeat_cache_size ≡ m.response_repeat_cache_size
      → after.world.stuck ≡ m.world.stuck
      → Going after
  Going-step after g a b c = record {
    prompt = subst IsPrompt (sym a) g.prompt;
    empty = b ∙ g.empty;
    free = c ∙ g.free;
  }

  either : (t : Bool) {a b : Mesh} → Going a → Going b → Going (if t then a else b)
  either true g h = g
  either false g h = h

  looked : {m : Mesh} (since delay : ℕ) → Going m → Going (is_past since delay m).1
  unfolding is_past millis
  looked since delay g = Going-step _ g refl refl refl

  renewed : {m : Mesh} → Going m → Going (renew_random_delay m)
  unfolding renew_random_delay calculate_random_delay random
  renewed g = Going-step _ g refl refl refl

  popped : {m : Mesh} → Going m → Going (pop_repeat m).1
  unfolding pop_repeat
  popped {m} g = elim (Bool-cases (m.repeat_cache_size == 0)) [
    | inl e ↦ rw e g
    | inr e ↦ rw e (Going-step _ g refl refl refl)
  ]

  -- The packet of a repeater goes out.
  sent_on : {m : Mesh} (p : List ℕ) → Going m → Going (listen (await_transmission (transmit p m)))
  unfolding listen await_transmission transmit
  sent_on {m} p g =
      Going-step _ g refl refl (
        listen-stuck m.radio _ ∙ wait-stuck m.radio g.prompt _ ∙ write_data-stuck m.radio p m.world)

  repeated : {m : Mesh} (i : ℕ) → Going m → Going (repeat_at i m)
  unfolding repeat_at listen await_transmission transmit millis
  repeated {m} i g =
      Going-step _ g refl refl (
        listen-stuck m.radio _ ∙ wait-stuck m.radio g.prompt _ ∙ write_data-stuck m.radio _ m.world)

  repeated_popped : (r : Option ℕ × Mesh) → Going r.1 → Going (repeat_popped r)
  unfolding repeat_popped
  repeated_popped (none, m) g = g
  repeated_popped (some i, m) g = repeated i g

  repeats-Going : {m : Mesh} → Going m → Going (update_repeats m)
  unfolding update_repeats
  repeats-Going {m} g =
      let due = is_past m.last_repeat_sent_time m.random_delay m in
      let seen : Going due.1 = looked m.last_repeat_sent_time m.random_delay g in
      either (not (is_off_mesh m.state) && ltb 0 m.repeat_cache_size)
        (either due.0
          (repeated_popped (pop_repeat (renew_random_delay due.1)) (popped (renewed seen))) seen)
        g

  responses-Going : {m : Mesh} → Going m → Going (update_response_repeats m)
  unfolding update_response_repeats
  responses-Going {m} g =
      let nothing : (not (same_state m.state not_joined) && ltb 0 m.response_repeat_cache_size)
          ≡ false =
        ground (arith, g.empty) in
      rw nothing g

  requests-Going : {m : Mesh} → Going m → Going (update_request_repeats m)
  unfolding update_request_repeats millis
  requests-Going {m} g =
      let due = is_past m.last_request_repeat_sent_time m.random_delay m in
      let seen : Going due.1 = looked m.last_request_repeat_sent_time m.random_delay g in
      either
        (not (is_off_mesh m.state)
          && not (same_state m.state idle)
          && ltb m.request_repeat_count request_max_repeat)
        (either due.0 (sent_on _ (Going-step _ (renewed seen) refl refl refl)) seen) g

  pub repeaters-Going :
      {m : Mesh}
      → Going m
      → Going (update_request_repeats (update_response_repeats (update_repeats m)))
  repeaters-Going g = requests-Going (responses-Going (repeats-Going g))

  sending-stuck :
      (r : A7105) (p : List ℕ) (w : World) → IsPrompt r → (sending r p w).stuck ≡ w.stuck
  unfolding sending millis
  sending-stuck r p w h =
      listen-stuck r _ ∙ wait-stuck r h (write_data r p packet_size w).1 ∙ write_data-stuck r p w

  -- A request that goes out.
  pub send_request-Going :
      {m : Mesh}
      → is_response_type (byte_at m.packet_cache at_type) ≡ false
      → Going m
      → Going (send_request m)
  unfolding millis
  send_request-Going {m} e g =
      let (a, b) = request_keeps_responses m e in
      Going-step _ g a b (
        ap (λ w. w.stuck) (request_world m)
        ∙ sending-stuck m.radio m.packet_cache (millis m.world).1 g.prompt)
