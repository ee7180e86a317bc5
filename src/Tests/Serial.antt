-- ===== src/Tests/Serial.antt =====
-- Runs of the serial interface.
use atmega_a.Prelude.{ℕ, ◌≡◌, ◌≢◌, refl, arith, map, true, false, some, List, [], ◌∷◌, replicate}
use atmega_a.Register.{Register}
use atmega_a.Text.{codes, hex_from}
use atmega_a.Broadcasts.{Cache, zero_register}
use atmega_a.Host.{Host}
use atmega_a.Console.{cased, is_terminator, is_return, get_serial_cmd}
use atmega_a.Console.Field.{FieldRead, Waits, get_serial_cmd_field}
use atmega_a.Commands.Values.{read_register}
use atmega_a.Commands.Values.Given.{IsPart, Line}
use atmega_a.Commands.Values.Stored.{Takes, Stores, string_given, binary_given}
use atmega_a.Tests.{node, letter}
use atmega_a.Tests.Blocking.{ticking}

abbrev no_broadcasts : Cache
no_broadcasts = record {
  ending = 0;
  start = 0;
  size = 0;
  overflow = 0;
  slots = replicate 4 zero_register;
}

-- The serial interface of an idle node with bytes that wait at the serial port.
abbrev pub host : List ℕ → Host
host s = record {
  node = record node {
    broadcast_cache = some letter;
    register_value_broadcast_callback = some 0;
    world = record (node.world) { inbox = s };
  };
  host_listening = false;
  echo = false;
  broadcasts = no_broadcasts;
  ascii_buffer = replicate 64 0;
}

-- A word of four small letters and what is behind it.
echo_Waits : Waits true (host (codes "echo,x")) (codes "echo") (codes "x")
echo_Waits = record {
  terminator = b',';
  ends = refl;
  there = refl;
  plain = ((refl, refl), ((refl, refl), ((refl, refl), ((refl, refl), tt))));
  chars =
      ((λ e. omega arith), ((λ e. omega arith), ((λ e. omega arith), ((λ e. omega arith), tt))));
  short = omega arith;
  patient = omega arith;
}

get_serial_cmd_field_example :
    FieldRead
      (host (codes "echo,x"))
      (map (cased true) (codes "echo"))
      (codes "x")
      (get_serial_cmd true (host (codes "echo,x")))
get_serial_cmd_field_example =
    get_serial_cmd_field true (host (codes "echo,x")) (codes "echo") (codes "x") refl refl
      echo_Waits

string-IsPart : IsPart true (codes "string")
string-IsPart = (
  (
    (refl, refl),
    ((refl, refl), ((refl, refl), ((refl, refl), ((refl, refl), ((refl, refl), tt))))),
  ),
  (
    (λ e. omega arith),
    (
      (λ e. omega arith),
      ((λ e. omega arith), ((λ e. omega arith), ((λ e. omega arith), ((λ e. omega arith), tt)))),
    ),
  ),
  omega arith,
)

-- A part of one character.
one-IsPart :
    (c : ℕ) → c ≢ 0 → (is_terminator c ≡ false) × (is_return c ≡ false) → IsPart false (c ∷ [])
one-IsPart c c_there plain = ((plain, tt), (c_there, tt), omega arith)

string-Line : Line (host (codes "A,string,H\n")) (codes "A") (codes "string") (codes "H") []
string-Line = record {
  there = refl;
  name_part = one-IsPart b'A' (λ e. omega arith) (refl, refl);
  format_part = string-IsPart;
  value_part = one-IsPart b'H' (λ e. omega arith) (refl, refl);
  named = omega arith;
  formatted = omega arith;
  patient = omega arith;
  quiet = refl;
  size = refl;
}

string_given_example :
    (reg : Register) × Takes
      (host (codes "A,string,H\n"))
      []
      reg
      (read_register (host (codes "A,string,H\n")))
    × Stores reg (codes "A") (codes "H") 2
string_given_example =
    string_given (host (codes "A,string,H\n")) (codes "A") (codes "string") (codes "H") []
      string-Line refl refl (omega arith) (omega arith)

binary-IsPart : IsPart true (codes "BINARY")
binary-IsPart = (
  (
    (refl, refl),
    ((refl, refl), ((refl, refl), ((refl, refl), ((refl, refl), ((refl, refl), tt))))),
  ),
  (
    (λ e. omega arith),
    (
      (λ e. omega arith),
      ((λ e. omega arith), ((λ e. omega arith), ((λ e. omega arith), ((λ e. omega arith), tt)))),
    ),
  ),
  omega arith,
)

binary-Line : Line (host (codes "A,BINARY,0F\n")) (codes "A") (codes "BINARY") (codes "0F") []
binary-Line = record {
  there = refl;
  name_part = one-IsPart b'A' (λ e. omega arith) (refl, refl);
  format_part = binary-IsPart;
  value_part = (
    ((refl, refl), ((refl, refl), tt)),
    ((λ e. omega arith), ((λ e. omega arith), tt)),
    omega arith,
  );
  named = omega arith;
  formatted = omega arith;
  patient = omega arith;
  quiet = refl;
  size = refl;
}

binary_given_example :
    (reg : Register) × Takes
      (host (codes "A,BINARY,0F\n"))
      []
      reg
      (read_register (host (codes "A,BINARY,0F\n")))
    × Stores reg (codes "A") (15 ∷ []) 1
unfolding hex_from
binary_given_example =
    binary_given (host (codes "A,BINARY,0F\n")) (codes "A") (codes "BINARY") (codes "0F") []
      binary-Line (15 ∷ []) refl (omega arith, tt) refl refl (omega arith) (omega arith)
