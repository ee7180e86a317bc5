-- ===== src/Commands/Values/Given.antt =====
-- The register that a line of SET_REGISTER or VALUE_BROADCAST gives: its name, format and value.
use atmega_a.Prelude.{
  ℕ, ◌≤◌, ◌<◌, ◌≡◌, ◌≢◌, ◌∙◌, refl, ap, arith, Bool, true, false, List, [], ◌∷◌, ◌++◌, map, length,
  if◌then◌else◌,
}
use mathlib.Core.List.{append_assoc}
use atmega_a.World.{Io, Event}
use atmega_a.Register.{Register, set_register_name_str}
use atmega_a.Text.{c_string, to_upper}
use atmega_a.Text.Strings.{IsText}
use atmega_a.Host.{Host, ◌>>=◌, ◌>>◌, pure, reg_buffer, set_reg_buffer, output_quoted}
use atmega_a.Console.{
  Format, fmt_error, fmt_string, fmt_binary, fmt_uint32, cased, is_bad_length, format_of,
  get_serial_cmd, read_reg_format,
}
use atmega_a.Console.Char.{at}
use atmega_a.Host.Steps.{off, bind_eq}
use atmega_a.Console.Written.{IsField, length-map}
use atmega_a.Console.Field.{FieldRead, get_serial_cmd_field}
use atmega_a.Commands.Values.{
  store_name, store_text, answer_taken, read_name_and_format, answer_format, read_given, read_value,
  read_register,
}

-- A field of the line, read in capitals or as it stands.
abbrev pub IsPart : Bool → List ℕ → Type 0
IsPart uppercase s = IsField uppercase s × IsText (map (cased uppercase) s) × (length s < 63)

-- A whole line <name>,<format>,<value> waits at the serial port, ECHO is off, and the loop that reads
-- characters has the rounds for each field.
pub record Line ⦃io : Io⦄ (h : Host) (name format value rest : List ℕ) : Type 0 where
  pub there : h.node.world.inbox ≡ name ++ (b',' ∷ (format ++ (b',' ∷ (value ++ (b'\n' ∷ rest)))))
  pub name_part : IsPart false name
  pub format_part : IsPart true format
  pub value_part : IsPart false value
  pub named : 1 ≤ length name
  pub formatted : 1 ≤ length format
  pub patient : 63 ≤ io.patience
  pub quiet : h.echo ≡ false
  pub size : length h.ascii_buffer ≡ 64

as_it_stands : (s : List ℕ) → map (cased false) s ≡ s
as_it_stands [] = refl
as_it_stands (c ∷ s) = ap (λ t. c ∷ t) (as_it_stands s)

-- REG_BUFFER of the host `h` with a name set.
abbrev pub with_name : Host → List ℕ → Register
with_name h name = (set_register_name_str (reg_buffer h) name).1

module _ ⦃io : Io⦄ (h : Host) (name format value rest : List ℕ)
    (line : Line h name format value rest) where
  name_read :
      FieldRead h name (format ++ (b',' ∷ (value ++ (b'\n' ∷ rest)))) (get_serial_cmd false h)
  name_read = rw (as_it_stands name) at (
      get_serial_cmd_field false h name (format ++ (b',' ∷ (value ++ (b'\n' ∷ rest)))) line.quiet
        line.size
        (record {
          terminator = b',';
          ends = refl;
          there = line.there;
          plain = line.name_part.0;
          chars = line.name_part.1;
          short = line.name_part.2;
          patient = omega (arith, line.patient, line.name_part.2);
        }))

  -- The host once the name is in REG_BUFFER.
  abbrev h₁ : Host
  h₁ =
      at (set_reg_buffer (with_name h name) h) name_read.buffer name_read.events
        ((format ++ (b',' ∷ (value ++ (b'\n' ∷ rest)))) ++ name_read.late)

  format_read :
      FieldRead h₁
        (map (cased true) format)
        ((value ++ (b'\n' ∷ rest)) ++ name_read.late)
        (get_serial_cmd true h₁)
  format_read =
      get_serial_cmd_field true h₁ format ((value ++ (b'\n' ∷ rest)) ++ name_read.late) refl
        name_read.size
        (record {
          terminator = b',';
          ends = refl;
          there = append_assoc format (b',' ∷ (value ++ (b'\n' ∷ rest))) name_read.late;
          plain = line.format_part.0;
          chars = line.format_part.1;
          short = line.format_part.2;
          patient = omega (arith, line.patient, line.format_part.2);
        })

  abbrev h₂ : Host
  h₂ =
      at (set_reg_buffer (with_name h name) h) format_read.buffer format_read.events
        (((value ++ (b'\n' ∷ rest)) ++ name_read.late) ++ format_read.late)

  value_read :
      FieldRead h₂ value ((rest ++ name_read.late) ++ format_read.late) (get_serial_cmd false h₂)
  value_read = rw (as_it_stands value) at (
      get_serial_cmd_field false h₂ value ((rest ++ name_read.late) ++ format_read.late) refl
        format_read.size
        (record {
          terminator = b'\n';
          ends = refl;
          there =
              ap (λ s. s ++ format_read.late) (append_assoc value (b'\n' ∷ rest) name_read.late)
              ∙ append_assoc value (b'\n' ∷ (rest ++ name_read.late)) format_read.late;
          plain = line.value_part.0;
          chars = line.value_part.1;
          short = line.value_part.2;
          patient = omega (arith, line.patient, line.value_part.2);
        }))

  fits : (s : List ℕ) → 1 ≤ length s → length s < 63 → is_bad_length (length s) ≡ false
  fits s some_there short = ground arith

  format_given : (f : Format) → format_of (map to_upper format) ≡ f → read_reg_format h₁ ≡ (f, h₂)
  unfolding read_reg_format
  format_given f e =
      bind_eq (get_serial_cmd true)
        (λ n g. (if is_bad_length n then fmt_error else format_of (c_string g.ascii_buffer), g)) h₁
        h₂ _ format_read.result
      ∙ λ i. (chosen i, h₂)
    where
      capitals : length (map (cased true) format) ≡ length format
      capitals = length-map (cased true) format

      chosen :
          (if is_bad_length (length (map (cased true) format))
            then fmt_error
            else format_of (c_string format_read.buffer))
          ≡ f
      chosen = rw (capitals, fits format line.formatted line.format_part.2, format_read.text) e

  answered : (f : Format) → f ≢ fmt_error → (g : Host) → answer_format f g ≡ (f, g)
  unfolding answer_format
  answered fmt_error good g = absurd (good refl)
  answered fmt_string good g = refl
  answered fmt_binary good g = refl
  answered fmt_uint32 good g = refl

  name_and_format_given :
      (f : Format)
      → format_of (map to_upper format) ≡ f
      → f ≢ fmt_error
      → read_name_and_format h ≡ (f, h₂)
  unfolding read_name_and_format store_name
  name_and_format_given f e good =
      bind_eq (get_serial_cmd false)
        (λ n. elim (is_bad_length n) [
          | true ↦ output_quoted ",Invalid Register Name: \"" >> pure fmt_error
          | false ↦ (λ g. (tt, store_name g)) >> (read_reg_format >>= answer_format)
        ])
        h _ _ name_read.result
      ∙ off (is_bad_length (length name)) (fits name line.named line.name_part.2)
          ((λ g. (tt, store_name g)) >> (read_reg_format >>= answer_format))
          (output_quoted ",Invalid Register Name: \"" >> pure fmt_error) _
      ∙ ap
          (λ s. (read_reg_format >>= answer_format) (
            set_reg_buffer (with_name h s) (
              at h name_read.buffer name_read.events
                ((format ++ (b',' ∷ (value ++ (b'\n' ∷ rest)))) ++ name_read.late))))
          name_read.text
      ∙ bind_eq read_reg_format answer_format h₁ h₂ f (format_given f e)
      ∙ answered f good h₂

  gone_on : (f : Format) → f ≢ fmt_error → (g : Host) → read_given f g ≡ read_value f g
  unfolding read_given
  gone_on fmt_error good g = absurd (good refl)
  gone_on fmt_string good g = refl
  gone_on fmt_binary good g = refl
  gone_on fmt_uint32 good g = refl

  value_given :
      (f : Format)
      → read_value f h₂
        ≡ answer_taken (store_text f (length value) (with_name h name) value_read.buffer) (
            at
              (set_reg_buffer (with_name h name) h)
              value_read.buffer
              value_read.events
              (((rest ++ name_read.late) ++ format_read.late) ++ value_read.late))
  unfolding read_value
  value_given f =
      bind_eq (get_serial_cmd false)
        (λ n g. answer_taken (store_text f n (reg_buffer g) g.ascii_buffer) g) h₂ _ _
        value_read.result

  -- Of a whole line, with a format of the three, the name is given to REG_BUFFER's register and the
  -- value, in that format, is stored behind it or refused; the node does nothing else meanwhile.
  pub read_register_line :
      (f : Format)
      → format_of (map to_upper format) ≡ f
      → f ≢ fmt_error
      → (buffer : List ℕ) × (events : List Event) × (late : List ℕ) × (c_string buffer ≡ value)
        × (read_register h
            ≡ answer_taken
                (store_text f (length value) (with_name h name) buffer)
                (at (set_reg_buffer (with_name h name) h) buffer events (rest ++ late)))
  unfolding read_register
  read_register_line f e good = (
    value_read.buffer,
    value_read.events,
    name_read.late ++ (format_read.late ++ value_read.late),
    value_read.text,
    bind_eq read_name_and_format read_given h h₂ f (name_and_format_given f e good)
        ∙ gone_on f good h₂
        ∙ value_given f
        ∙ ap
            (λ s.
              answer_taken (store_text f (length value) (with_name h name) value_read.buffer)
                (at (set_reg_buffer (with_name h name) h) value_read.buffer value_read.events s))
            (append_assoc (rest ++ name_read.late) format_read.late value_read.late
              ∙ append_assoc rest name_read.late (format_read.late ++ value_read.late)),
  )
