-- ===== src/Console/Char.antt =====
-- One character of a command: what a round of the loop of `get_serial_cmd` does with it.
use atmega_a.Prelude.{
  ℕ, zero, suc, ◌+◌, ◌%◌, ◌^◌, ◌<◌, ◌≡◌, ◌∙◌, refl, arith, Bool, true, false, List, [], ◌∷◌, ◌++◌,
  length, set, ltb, ◌==◌,
}
use mathlib.Core.List.{append_assoc}
use atmega_a.World.{Io, Event, available, read_byte, millis, clock, serial_read, serial_available}
use atmega_a.Host.{Host, H, pure, print, update_node}
use atmega_a.Console.{wait_serial, cased, is_terminator, is_return, read_char, read_chars}
use atmega_a.Host.Steps.{on, off, bind_eq}

-- The host `h` without echo, with other bytes in its buffer, other events and other bytes that wait.
abbrev pub at : Host → List ℕ → List Event → List ℕ → Host
at h buffer events inbox = record h {
  echo = false;
  ascii_buffer = buffer;
  node = record (h.node) { world = record (h.node.world) { events = events; inbox = inbox } };
}

pub not_empty : (n : ℕ) → (suc n == 0) ≡ false
not_empty n = ground arith

module _ ⦃io : Io⦄ (uppercase : Bool) (h : Host) where
  -- A wait ends at once where something has come in.
  pub wait_ready :
      (body : H (Unit {0})) (now n d : ℕ) (buffer : List ℕ) (events : List Event) (more : List ℕ)
      → 0 < n
      → wait_serial body now n (at h buffer events (d ∷ more))
        ≡ (tt, at h buffer (serial_available ∷ events) (d ∷ (more ++ io.serial_in events)))
  unfolding wait_serial available
  wait_ready body now zero d buffer events more patient = absurd (omega arith)
  wait_ready body now (suc n) d buffer events more patient =
      off (suc (length (more ++ io.serial_in events)) == 0) (not_empty _) _ _ _

  -- A character of a field, where more have come in.
  read_char_plain :
      (index c d : ℕ) (buffer : List ℕ) (events : List Event) (more : List ℕ)
      → 0 < io.patience
      → is_terminator (cased uppercase c) ≡ false
      → is_return (cased uppercase c) ≡ false
      → (events' : List Event) × (late : List ℕ) × (read_char uppercase index
            (at h buffer events (c ∷ d ∷ more))
          ≡ (
            (true, index + 1),
            at h
                (set (set buffer index (cased uppercase c)) (index + 1) 0)
                events'
                (d ∷ (more ++ late)),
          ))
  unfolding read_char available read_byte millis print
  read_char_plain index c d buffer events more patient going plain =
      let read : List Event = clock ∷ serial_read ∷ events in
      let first : List ℕ = io.serial_in read in
      let second : List ℕ = io.serial_in (serial_available ∷ read) in
      (
        serial_available ∷ serial_available ∷ read,
        first ++ second,
        rw
            (
              going,
              plain,
              wait_ready update_node (io.millis_at (serial_read ∷ events) % 2 ^ 32) io.patience d
                  (set (set buffer index (cased uppercase c)) (index + 1) 0) read more patient,
              not_empty (length ((more ++ first) ++ second)),
              append_assoc more first second,
            )
            refl,
      )

  -- The character that ends a field, which stays out of the buffer.
  pub read_char_end :
      (index c : ℕ) (buffer : List ℕ) (events : List Event) (more : List ℕ)
      → is_terminator (cased uppercase c) ≡ true
      → read_char uppercase index (at h buffer events (c ∷ more)) ≡ (
        (false, index),
        at h (set (set buffer index (cased uppercase c)) index 0) (serial_read ∷ events) more,
      )
  unfolding read_char read_byte print
  read_char_end index c buffer events more ends = rw ends refl

  -- One round of the loop that goes on, and one that ends it.
  pub go_on :
      (n index next : ℕ) (g g' : Host)
      → ltb index 63 ≡ true
      → read_char uppercase index g ≡ ((true, next), g')
      → read_chars uppercase (suc n) index g ≡ read_chars uppercase n next g'
  unfolding read_chars
  go_on n index next g g' room e =
      on (ltb index 63) room _ _ g
      ∙ bind_eq (read_char uppercase index)
          (λ r. elim (r.0) [ true ↦ read_chars uppercase n (r.1) | false ↦ pure (r.1) ]) g g' _ e

  pub stop :
      (n index next : ℕ) (g g' : Host)
      → ltb index 63 ≡ true
      → read_char uppercase index g ≡ ((false, next), g')
      → read_chars uppercase (suc n) index g ≡ (next, g')
  unfolding read_chars
  stop n index next g g' room e =
      on (ltb index 63) room _ _ g
      ∙ bind_eq (read_char uppercase index)
          (λ r. elim (r.0) [ true ↦ read_chars uppercase n (r.1) | false ↦ pure (r.1) ]) g g' _ e

  pub read_char_field :
      (index x c : ℕ) (buffer : List ℕ) (events : List Event) (s rest : List ℕ)
      → 0 < io.patience
      → is_terminator (cased uppercase x) ≡ false
      → is_return (cased uppercase x) ≡ false
      → (events' : List Event) × (late : List ℕ) × (read_char uppercase index
            (at h buffer events (x ∷ (s ++ (c ∷ rest))))
          ≡ (
            (true, index + 1),
            at h
                (set (set buffer index (cased uppercase x)) (index + 1) 0)
                events'
                (s ++ (c ∷ (rest ++ late))),
          ))
  read_char_field index x c buffer events [] rest patient going plain =
      read_char_plain index x c buffer events rest patient going plain
  read_char_field index x c buffer events (y ∷ s) rest patient going plain =
      let (events', late, e) =
        read_char_plain index x y buffer events (s ++ (c ∷ rest)) patient going plain in
      (events', late, rw (append_assoc s (c ∷ rest) late) at e)
