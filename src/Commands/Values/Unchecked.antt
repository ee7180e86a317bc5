-- ===== src/Commands/Values/Unchecked.antt =====
-- The lengths and digits of the values of SET_REGISTER and VALUE_BROADCAST that are not looked at.
use atmega_a.Prelude.{Bool, true, false}
use atmega_a.Register.{Register}
use atmega_a.Commands.Values.{Outcome, taken}

-- Whether the command answers a value by an error, of whichever kind.
pub is_refused : Outcome → Bool
is_refused (taken _) = false
is_refused _ = true
