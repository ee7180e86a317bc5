-- ===== src/Console/Field.antt =====
-- A field of a command that has come in is read whole, and nothing else happens.
use atmega_a.Prelude.{
  ℕ, zero, suc, ◌+◌, ◌%◌, ◌^◌, ◌<◌, ◌≡◌, ◌∙◌, sym, ap, arith, Bool, true, false, List, [], ◌∷◌,
  ◌++◌, map, length, set, byte_at, leb, ◌==◌, length-set,
}
use mathlib.Core.List.{append_assoc, append-nil}
use atmega_a.World.{Io, Event, available, millis, clock, serial_read, serial_available}
use atmega_a.Text.{c_string}
use atmega_a.Text.Strings.{IsText, c_string_lem}
use atmega_a.Host.{Host, H, ◌>>◌, pure}
use atmega_a.Console.{
  wait_serial, nothing, cased, is_terminator, read_chars, skip_line, get_serial_cmd,
}
use atmega_a.Host.Steps.{off, bind_eq}
use atmega_a.Console.Char.{at, wait_ready, read_char_end, go_on, stop, read_char_field, not_empty}
use atmega_a.Console.Written.{
  add_nothing, add_one_more, Written, Written-end, Written-next, length-map, IsField,
}

-- What a read of the field `s` before `rest` leaves of the host: the text in the buffer, and behind
-- `rest` what came in late.
record HasRead (h : Host) (before : List ℕ) (index : ℕ) (s rest : List ℕ) (r : ℕ × Host)
    : Type 0 where
  pub buffer : List ℕ
  pub events : List Event
  pub late : List ℕ
  pub written : Written before index s buffer
  pub result : r ≡ (index + length s, at h buffer events (rest ++ late))

module _ ⦃io : Io⦄ (uppercase : Bool) (h : Host) (patient : 0 < io.patience) where
  read_chars_field :
      (n index c : ℕ) (buffer : List ℕ) (events : List Event) (s rest : List ℕ)
      → length s < n
      → length buffer ≡ 64
      → index + length s < 63
      → IsField uppercase s
      → is_terminator (cased uppercase c) ≡ true
      → HasRead h buffer index
          (map (cased uppercase) s)
          rest
          (read_chars uppercase n index (at h buffer events (s ++ (c ∷ rest))))
  read_chars_field zero index c buffer events s rest fuel size room field ends =
      absurd (omega arith)
  read_chars_field (suc n) index c buffer events [] rest fuel size room field ends = record {
    buffer = set (set buffer index (cased uppercase c)) index 0;
    events = serial_read ∷ events;
    late = [];
    written = Written-end buffer index (cased uppercase c) (omega arith);
    result =
        stop uppercase h n index index _ _ (ground arith)
          (read_char_end uppercase h index c buffer events rest ends)
        ∙ λ i. (
          add_nothing index i,
          at h (set (set buffer index (cased uppercase c)) index 0) (serial_read ∷ events)
              (sym (append-nil rest) i),
        );
  }
  read_chars_field (suc n) index c buffer events (x ∷ s) rest fuel size room field ends =
      let (events', late, e) =
        read_char_field uppercase h index x c buffer events s rest patient (field.0).0
          (field.0).1 in
      let next : List ℕ = set (set buffer index (cased uppercase x)) (index + 1) 0 in
      let tail =
        read_chars_field n (index + 1) c next events' s (rest ++ late) (omega arith)
          (length-set (set buffer index (cased uppercase x)) (index + 1) 0
            ∙ length-set buffer index (cased uppercase x)
            ∙ size)
          (omega arith) field.1 ends in
      record {
        buffer = tail.buffer;
        events = tail.events;
        late = late ++ tail.late;
        written =
            Written-next buffer tail.buffer index (cased uppercase x) (map (cased uppercase) s)
              (omega arith) tail.written;
        result = go_on uppercase h n index (index + 1) _ _ (ground arith) e ∙ tail.result ∙ λ i. (
          add_one_more index (length (map (cased uppercase) s)) i,
          at h tail.buffer tail.events (append_assoc rest late tail.late i),
        );
      }

  wait_field :
      (body : H (Unit {0})) (now n c : ℕ) (buffer : List ℕ) (events : List Event) (s rest : List ℕ)
      → 0 < n
      → wait_serial body now n (at h buffer events (s ++ (c ∷ rest)))
        ≡ (tt, at h buffer (serial_available ∷ events) (s ++ (c ∷ (rest ++ io.serial_in events))))
  wait_field body now n c buffer events [] rest fuel =
      wait_ready uppercase h body now n c buffer events rest fuel
  wait_field body now n c buffer events (y ∷ s) rest fuel =
      rw (append_assoc s (c ∷ rest) (io.serial_in events)) at
        (wait_ready uppercase h body now n y buffer events (s ++ (c ∷ rest)) fuel)

  something_waits : (s : List ℕ) (c : ℕ) (rest : List ℕ) → (length (s ++ (c ∷ rest)) == 0) ≡ false
  something_waits [] c rest = not_empty (length rest)
  something_waits (y ∷ s) c rest = not_empty (length (s ++ (c ∷ rest)))

  get_serial_cmd-at :
      (c : ℕ) (buffer : List ℕ) (events : List Event) (s rest : List ℕ)
      → length s < io.patience
      → length buffer ≡ 64
      → length s < 63
      → IsField uppercase s
      → is_terminator (cased uppercase c) ≡ true
      → HasRead h buffer 0
          (map (cased uppercase) s)
          rest
          (get_serial_cmd uppercase (at h buffer events (s ++ (c ∷ rest))))
  unfolding get_serial_cmd available millis
  get_serial_cmd-at c buffer events s rest fuel size room field ends =
      let began : List Event = clock ∷ events in
      let first : List ℕ = io.serial_in began in
      let second : List ℕ = io.serial_in (serial_available ∷ began) in
      let short : leb 63 (0 + length (map (cased uppercase) s)) ≡ false =
        ground (arith, length-map (cased uppercase) s) in
      let tail =
        read_chars_field io.patience 0 c (set buffer 0 0)
          (serial_available ∷ serial_available ∷ began) s ((rest ++ first) ++ second) fuel
          (length-set buffer 0 0 ∙ size) (omega arith) field ends in
      record {
        buffer = tail.buffer;
        events = tail.events;
        late = first ++ (second ++ tail.late);
        written = (
          tail.written.0 ∙ length-set buffer 0 0,
          λ k l. absurd (omega arith),
          tail.written.2,
          tail.written.3,
        );
        result =
            rw
              (
                wait_field nothing (io.millis_at events % 2 ^ 32) io.patience c (set buffer 0 0)
                    began s rest patient,
                append_assoc s (c ∷ (rest ++ first)) second,
                something_waits s c ((rest ++ first) ++ second),
              )
              (bind_eq (read_chars uppercase io.patience 0)
                  (λ index. elim (leb 63 index) [
                    | true ↦ skip_line io.patience >> pure index
                    | false ↦ pure index
                  ])
                  _ _ _ tail.result
                ∙ off (leb 63 (0 + length (map (cased uppercase) s))) short (pure _)
                    (skip_line io.patience >> pure _) _
                ∙ λ i. (
                  0 + length (map (cased uppercase) s),
                  at h tail.buffer tail.events (
                      (append_assoc (rest ++ first) second tail.late
                          ∙ append_assoc rest first (second ++ tail.late))
                        i),
                ));
      }

-- The field `s` was read: ASCII_BUFFER has 64 bytes and holds it as a string, its length is the result,
-- what waits is `rest` and what came in late, and apart from events nothing else happened.
pub record FieldRead (h : Host) (s rest : List ℕ) (r : ℕ × Host) : Type 0 where
  pub buffer : List ℕ
  pub events : List Event
  pub late : List ℕ
  pub size : length buffer ≡ 64
  pub text : c_string buffer ≡ s
  pub result : r ≡ (length s, at h buffer events (rest ++ late))

HasRead-FieldRead :
    (h : Host) (before s rest : List ℕ) (r : ℕ × Host)
    → length before ≡ 64
    → length s < 63
    → IsText s
    → HasRead h before 0 s rest r
    → FieldRead h s rest r
HasRead-FieldRead h before s rest r size room chars got =
    let (kept, _, same, end) = got.written in
    record {
      buffer = got.buffer;
      events = got.events;
      late = got.late;
      size = kept ∙ size;
      text =
          c_string_lem got.buffer s chars (omega (arith, kept ∙ size))
            (λ k l. ap (byte_at got.buffer) (zero-add' k) ∙ same k l)
            (ap (byte_at got.buffer) (zero-add' (length s)) ∙ end);
      result = got.result ∙ λ i.
          (sym (zero-add' (length s)) i, at h got.buffer got.events (rest ++ got.late));
    }
  where
    zero-add' : (k : ℕ) → k ≡ 0 + k
    zero-add' k = omega arith

-- What waits at the serial port starts with a field of less than 63 characters, none of them NUL, and
-- the comma or the end of line behind it; the field's capitals are read if `uppercase` is set.
pub record Waits ⦃io : Io⦄ (uppercase : Bool) (h : Host) (s rest : List ℕ) : Type 0 where
  pub terminator : ℕ
  pub ends : is_terminator (cased uppercase terminator) ≡ true
  pub there : h.node.world.inbox ≡ s ++ (terminator ∷ rest)
  pub plain : IsField uppercase s
  pub chars : IsText (map (cased uppercase) s)
  pub short : length s < 63
  pub patient : length s < io.patience

-- With ECHO off and a buffer of 64 bytes, a field that waits whole at the serial port is read as it
-- stands, in capitals if that is asked for, whatever comes in behind it, and the node does nothing.
pub get_serial_cmd_field :
    ⦃io : Io⦄ (uppercase : Bool) (h : Host) (s rest : List ℕ)
    → h.echo ≡ false
    → length h.ascii_buffer ≡ 64
    → Waits uppercase h s rest
    → FieldRead h (map (cased uppercase) s) rest (get_serial_cmd uppercase h)
get_serial_cmd_field uppercase h s rest quiet size w = rw whole (
    HasRead-FieldRead h h.ascii_buffer (map (cased uppercase) s) rest _ size
      (omega (arith, length-map (cased uppercase) s, w.short)) w.chars
      (get_serial_cmd-at uppercase h (omega (arith, w.patient)) w.terminator h.ascii_buffer
        h.node.world.events s rest w.patient size w.short w.plain w.ends))
  where
    whole :
        get_serial_cmd uppercase h
        ≡ get_serial_cmd uppercase
            (at h h.ascii_buffer h.node.world.events (s ++ (w.terminator ∷ rest)))
    whole i = get_serial_cmd uppercase (record h {
      echo = quiet i;
      node = record (h.node) { world = record (h.node.world) { inbox = w.there i } };
    })
