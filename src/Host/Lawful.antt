-- ===== src/Host/Lawful.antt =====
-- The serial interface is a client that keeps the invariant of its node: atmega_a7105.ino.
use atmega_a.Prelude.{refl}
use atmega_a.Mesh.Safe.{IsSafe-same}
use atmega_a.Mesh.Lawful.{IsLawful}
use atmega_a.Host.{serial_client}

pub serial_client-IsLawful : IsLawful serial_client
serial_client-IsLawful = record {
  finished = λ k status m s. s;
  on_set = λ k i m s. s;
  on_get = λ k i m s. s;
  on_broadcast = λ k m s. IsSafe-same _ s refl;
}
