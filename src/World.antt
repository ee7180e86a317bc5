-- ===== src/World.antt =====
-- What the code asks of the Arduino core, the SPI library and the chip: each call is an event, and
-- what it gives back is a function of all events before it, which the environment chooses.
use atmega_a.Prelude.{
  ℕ, ◌+◌, ◌%◌, ◌^◌, Bool, true, List, [], ◌∷◌, ◌++◌, ltb, if◌then◌else◌, length, set, byte_at,
}
use atmega_a.Register.{Register}

-- The calls that leave the program, and the accesses to the volatile interrupt counters.
pub data Event : Type 0 where
  spi_begin : Event
  pin_output pin_input : ℕ → Event
  write_low write_high : ℕ → Event
  begin_transaction end_transaction : Event
  transfer : ℕ → Event
  delay_us : ℕ → Event
  clock : Event
  random_between : ℕ → ℕ → Event
  seed : ℕ → Event
  analog_read : ℕ → Event
  attach detach : ℕ → Event
  count_access : ℕ → Event
  serial_print : ℕ → Event
  serial_available serial_read : Event
  serial_write : List ℕ → Event

-- The environment. `interrupts` are the pins whose interrupts ran before an access to the
-- counters: the handler touches nothing else, so it may as well run only there. `serial_in` are the
-- bytes that came in on the serial port since the last look at it. `patience` bounds the loops that
-- wait for the chip or for the serial port.
pub record Io : Type 0 where
  pub miso : List Event → ℕ
  pub millis_at : List Event → ℕ
  pub random_at : List Event → ℕ → ℕ → ℕ
  pub analog_at : List Event → ℕ → ℕ
  pub interrupts : List Event → List ℕ
  pub serial_in : List Event → List ℕ
  pub patience : ℕ

-- The events so far, the newest first; `_A7105_INTERRUPT_COUNTS`; whether a loop that waits has run
-- out of patience, or a register was read behind the array of the node: from there on the state is not
-- one of the program; the bytes of the serial port
-- that wait to be read; and the register values that the broadcast callback of the serial interface
-- was called with, for which its own state, that stands outside of the node, is still to change.
pub record World : Type 0 where
  pub events : List Event
  pub counts : List ℕ
  pub stuck : Bool
  pub inbox : List ℕ
  pub told : List Register

abbrev pub M : Type 0 → Type 0
M A = World → A × World

infixl 5 ◌>>=◌ ◌>>◌
abbrev pub ◌>>=◌ : {A B : Type 0} → M A → (A → M B) → M B
◌>>=◌ m f w = let (a, w') = m w in f a w'

abbrev pub ◌>>◌ : {B : Type 0} → M (Unit {0}) → M B → M B
m >> k = m >>= λ _. k

abbrev pub pure : {A : Type 0} → A → M A
pure a w = (a, w)

-- `A7105_INT_IGNORE_ONE`, `A7105_INT_NULL`, `A7105_INT_TRIGGERED`
abbrev pub int_ignore_one : ℕ
int_ignore_one = 0

abbrev pub int_null : ℕ
int_null = 1

abbrev pub int_triggered : ℕ
int_triggered = 2

-- `_A7105_Pin_Interrupt_Callback`, for the pin in `PCintPort::arduinoPin`.
unfoldable pub pin_interrupt_callback : ℕ → List ℕ → List ℕ
pin_interrupt_callback pin counts =
    if ltb (byte_at counts pin) int_triggered
    then set counts pin ((byte_at counts pin + 1) % 256)
    else counts

unfoldable pub run_interrupts : List ℕ → List ℕ → List ℕ
run_interrupts [] counts = counts
run_interrupts (pin ∷ pins) counts = run_interrupts pins (pin_interrupt_callback pin counts)

unfoldable pub emit : Event → M (Unit {0})
emit e w = (tt, record w { events = e ∷ w.events })

module _ ⦃io : Io⦄ where
  -- `SPI.transfer`
  unfoldable pub spi_transfer : ℕ → M ℕ
  spi_transfer b w =
      (io.miso (transfer b ∷ w.events) % 256, record w { events = transfer b ∷ w.events })

  -- `millis`, an `unsigned long` of 32 bits.
  unfoldable pub millis : M ℕ
  millis w = (io.millis_at w.events % 2 ^ 32, record w { events = clock ∷ w.events })

  -- `random(low, high)`
  unfoldable pub random : ℕ → ℕ → M ℕ
  random low high w =
      (io.random_at w.events low high, record w { events = random_between low high ∷ w.events })

  -- `analogRead`, an `uint16_t` here.
  unfoldable pub analog : ℕ → M ℕ
  analog pin w =
      (io.analog_at w.events pin % 2 ^ 16, record w { events = analog_read pin ∷ w.events })

  -- The counter of a pin, read after the interrupts that came before.
  unfoldable pub read_count : ℕ → M ℕ
  read_count pin w =
      let counts = run_interrupts (io.interrupts w.events) w.counts in
      (byte_at counts pin, record w { counts = counts; events = count_access pin ∷ w.events })

  unfoldable pub write_count : ℕ → ℕ → M (Unit {0})
  write_count pin v w = (
    tt,
    record w {
      counts = set (run_interrupts (io.interrupts w.events) w.counts) pin v;
      events = count_access pin ∷ w.events;
    },
  )

module _ ⦃io : Io⦄ where
  -- `Serial.available()`
  unfoldable pub available : M ℕ
  available w =
      let waiting = w.inbox ++ io.serial_in w.events in
      (length waiting, record w { inbox = waiting; events = serial_available ∷ w.events })

-- The first byte that waits, if any, and the others.
abbrev next_byte : List ℕ → ℕ × List ℕ
next_byte [] = (0xFF, [])
next_byte (b ∷ rest) = (b, rest)

-- `Serial.read()`, as a byte. It gives -1 if nothing waits.
unfoldable pub read_byte : M ℕ
read_byte w =
    let (b, rest) = next_byte w.inbox in
    (b, record w { inbox = rest; events = serial_read ∷ w.events })

-- What is printed on the serial port.
unfoldable pub write_text : List ℕ → M (Unit {0})
write_text s = emit (serial_write s)

-- A loop that waits for the chip has run out of patience.
unfoldable pub give_up : M (Unit {0})
give_up w = (tt, record w { stuck = true })
