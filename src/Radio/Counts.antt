-- ===== src/Radio/Counts.antt =====
-- The counter of interrupts on a WTR pin: `_A7105_Pin_Interrupt_Callback` of
-- libraries/a7105/a7105.cpp.
use atmega_a.Prelude.{
  ℕ, ◌+◌, ◌%◌, ◌≤◌, ◌<◌, ◌≡◌, ◌∙◌, refl, arith, Bool-cases, inl, inr, List, [], ◌∷◌, ltb, ◌==◌,
  if◌then◌else◌, length, byte_at, min, length-set, get_or-set,
}
use atmega_a.World.{int_triggered, pin_interrupt_callback, run_interrupts}

-- How often a pin stands in a list.
pub times : ℕ → List ℕ → ℕ
times pin [] = 0
times pin (p ∷ pins) = if p == pin then times pin pins + 1 else times pin pins

length-pin_interrupt_callback :
    (p : ℕ) (counts : List ℕ) → length (pin_interrupt_callback p counts) ≡ length counts
unfolding pin_interrupt_callback
length-pin_interrupt_callback p counts = elim (Bool-cases (ltb (byte_at counts p) int_triggered)) [
  | inl e ↦ rw e (length-set counts p ((byte_at counts p + 1) % 256))
  | inr e ↦ rw e refl
]

-- One interrupt on the pin counts up to 2, one on another pin does not count.
counted_once :
    (p pin : ℕ) (counts : List ℕ)
    → pin < length counts
    → byte_at counts pin ≤ int_triggered
    → byte_at (pin_interrupt_callback p counts) pin
      ≡ (if p == pin then min int_triggered (byte_at counts pin + 1) else byte_at counts pin)
unfolding pin_interrupt_callback
counted_once p pin counts h l = elim (Bool-cases (p == pin)) [
  | inl e ↦
      let same : p ≡ pin = ground arith in
      rw same (ground (arith, get_or-set counts pin pin ((byte_at counts pin + 1) % 256) 0))
  | inr e ↦ ground (arith, get_or-set counts p pin ((byte_at counts p + 1) % 256) 0)
]

-- Interrupts in any order take the counter of a pin that is at most 2 up by one for each interrupt on
-- that pin, and stop at 2; interrupts on other pins leave it. So a transmission, which sets the
-- counter to 0, needs two interrupts before a packet counts as received.
pub run_interrupts_lem :
    (pins counts : List ℕ) (pin : ℕ)
    → pin < length counts
    → byte_at counts pin ≤ int_triggered
    → byte_at (run_interrupts pins counts) pin
      ≡ min int_triggered (byte_at counts pin + times pin pins)
unfolding run_interrupts times
run_interrupts_lem [] counts pin h l = ground arith
run_interrupts_lem (p ∷ pins) counts pin h l =
    let once = counted_once p pin counts h l in
    let bound : byte_at (pin_interrupt_callback p counts) pin ≤ int_triggered =
      ground (arith, once) in
    let rest =
      run_interrupts_lem pins (pin_interrupt_callback p counts) pin
        (omega (arith, length-pin_interrupt_callback p counts)) bound in
    rest ∙ ground (arith, once)
