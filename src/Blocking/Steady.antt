-- ===== src/Blocking/Steady.antt =====
-- What the repeaters leave as it was while a blocking operation waits: the last three steps of
-- `A7105_Mesh_Update`, libraries/a7105_mesh/a7105_mesh.cpp.
use atmega_a.Prelude.{
  ℕ, ◌+◌, ◌%◌, ◌≡◌, ◌∙◌, refl, Bool, true, false, not, ◌&&◌, Bool-cases, inl, inr, if◌then◌else◌,
  Option, none, some, [], ◌==◌, ltb, leb, byte_at, get_or, set,
}
use atmega_a.World.{Io}
use atmega_a.Mesh.{
  idle, not_joined, Mesh, is_off_mesh, same_state, is_past, now, renew_random_delay,
  response_max_repeat, request_max_repeat,
}
use atmega_a.Send.{
  transmit, await_transmission, listen, pop_response_repeat, prep_packet_header, entry_rep_count,
}
use atmega_a.Repeater.{
  pop_repeat, repeat_at, repeat_popped, update_repeats, response_repeat_cache_packet_prep,
  repeat_response, update_response_repeats, update_request_repeats,
}

-- The fields that a blocking operation waits by.
pub record Steady (m after : Mesh) : Type 0 where
  pub state : after.state ≡ m.state
  pub callback : after.operation_callback ≡ m.operation_callback
  pub status : after.blocking_operation_status ≡ m.blocking_operation_status
  pub sent_time : after.request_sent_time ≡ m.request_sent_time
  pub presence : after.presence_table ≡ m.presence_table

pub Steady-refl : (m : Mesh) → Steady m m
Steady-refl m = record {
  state = refl;
  callback = refl;
  status = refl;
  sent_time = refl;
  presence = refl;
}

pub Steady-trans : {a b c : Mesh} → Steady a b → Steady b c → Steady a c
Steady-trans k l = record {
  state = l.state ∙ k.state;
  callback = l.callback ∙ k.callback;
  status = l.status ∙ k.status;
  sent_time = l.sent_time ∙ k.sent_time;
  presence = l.presence ∙ k.presence;
}

steady :
    {m after : Mesh}
    → after.state ≡ m.state
    → after.operation_callback ≡ m.operation_callback
    → after.blocking_operation_status ≡ m.blocking_operation_status
    → after.request_sent_time ≡ m.request_sent_time
    → after.presence_table ≡ m.presence_table
    → Steady m after
steady a b c d e = record { state = a; callback = b; status = c; sent_time = d; presence = e }

either : (t : Bool) {m a b : Mesh} → Steady m a → Steady m b → Steady m (if t then a else b)
either true s s' = s
either false s s' = s'

module _ ⦃io : Io⦄ where
  renewed : (m : Mesh) → Steady m (renew_random_delay m)
  unfolding renew_random_delay
  renewed m = steady refl refl refl refl refl

  looked : (since delay : ℕ) (m : Mesh) → Steady m (is_past since delay m).1
  unfolding is_past
  looked since delay m = steady refl refl refl refl refl

  popped : (m : Mesh) → Steady m (pop_repeat m).1
  unfolding pop_repeat
  popped m = elim (Bool-cases (m.repeat_cache_size == 0)) [
    | inl e ↦ rw e (Steady-refl m)
    | inr e ↦ rw e (steady refl refl refl refl refl)
  ]

  repeated : (i : ℕ) (m : Mesh) → Steady m (repeat_at i m)
  unfolding repeat_at transmit await_transmission listen
  repeated i m = steady refl refl refl refl refl

  repeated_popped : (r : Option ℕ × Mesh) → Steady r.1 (repeat_popped r)
  unfolding repeat_popped
  repeated_popped (none, m) = Steady-refl m
  repeated_popped (some i, m) = repeated i m

  repeats-Steady : (m : Mesh) → Steady m (update_repeats m)
  unfolding update_repeats
  repeats-Steady m =
      let due = is_past m.last_repeat_sent_time m.random_delay m in
      let ready : Mesh = renew_random_delay due.1 in
      either (not (is_off_mesh m.state) && ltb 0 m.repeat_cache_size)
        (either due.0
          (Steady-trans (looked m.last_repeat_sent_time m.random_delay m) (
            Steady-trans (renewed due.1)
              (Steady-trans (popped ready) (repeated_popped (pop_repeat ready)))))
          (looked m.last_repeat_sent_time m.random_delay m))
        (Steady-refl m)

  response_popped : (m : Mesh) → Steady m (pop_response_repeat m)
  unfolding pop_response_repeat
  response_popped m =
      either (m.response_repeat_cache_size == 0) (Steady-refl m) (steady refl refl refl refl refl)

  -- The response that is repeated, once it was sent.
  sent_response : ℕ → Mesh → Mesh
  unfolding transmit await_transmission
  sent_response chosen m =
      let (t, timed) = now (response_repeat_cache_packet_prep chosen m) in
      let entry = get_or timed.response_repeat_cache chosen [] in
      let counted = record timed {
        last_response_repeat_sent_time = t;
        response_repeat_cache =
            set timed.response_repeat_cache chosen
              (set entry entry_rep_count ((byte_at entry entry_rep_count + 1) % 256));
      } in
      await_transmission (transmit counted.packet_cache counted)

  sent_response-Steady : (chosen : ℕ) (m : Mesh) → Steady m (sent_response chosen m)
  unfolding sent_response response_repeat_cache_packet_prep prep_packet_header
  sent_response-Steady chosen m = steady refl refl refl refl refl

  listen-Steady : (m : Mesh) → Steady m (listen m)
  unfolding listen
  listen-Steady m = steady refl refl refl refl refl

  response_repeated : (chosen : ℕ) (m : Mesh) → Steady m (repeat_response chosen m)
  unfolding repeat_response sent_response
  response_repeated chosen m =
      let sent : Mesh = sent_response chosen m in
      let first = get_or sent.response_repeat_cache sent.response_repeat_cache_start [] in
      Steady-trans (sent_response-Steady chosen m) (
        Steady-trans
          (either (leb response_max_repeat (byte_at first entry_rep_count)) (response_popped sent)
            (Steady-refl sent))
          (listen-Steady _))

  responses-Steady : (m : Mesh) → Steady m (update_response_repeats m)
  unfolding update_response_repeats
  responses-Steady m =
      let due = is_past m.last_response_repeat_sent_time m.random_delay m in
      either (not (same_state m.state not_joined) && ltb 0 m.response_repeat_cache_size)
        (either due.0
          (Steady-trans (looked m.last_response_repeat_sent_time m.random_delay m)
            (Steady-trans (renewed due.1) (response_repeated _ (renew_random_delay due.1))))
          (looked m.last_response_repeat_sent_time m.random_delay m))
        (Steady-refl m)

  requests-Steady : (m : Mesh) → Steady m (update_request_repeats m)
  unfolding update_request_repeats renew_random_delay transmit await_transmission listen
  requests-Steady m =
      let due = is_past m.last_request_repeat_sent_time m.random_delay m in
      either
        (not (is_off_mesh m.state)
          && not (same_state m.state idle)
          && ltb m.request_repeat_count request_max_repeat)
        (either due.0
          (Steady-trans (looked m.last_request_repeat_sent_time m.random_delay m)
            (steady refl refl refl refl refl))
          (looked m.last_request_repeat_sent_time m.random_delay m))
        (Steady-refl m)

  -- The three repeaters in a row, as they end `A7105_Mesh_Update`.
  pub repeaters-Steady :
      (m : Mesh) → Steady m (update_request_repeats (update_response_repeats (update_repeats m)))
  repeaters-Steady m = Steady-trans (repeats-Steady m) (
      Steady-trans (responses-Steady (update_repeats m))
        (requests-Steady (update_response_repeats (update_repeats m))))
