-- ===== src/Host/Steps.antt =====
-- Steps of the serial interface in a row, and a branch on a test that is known.
use atmega_a.Prelude.{◌≡◌, refl, ap, Bool, true, false}
use atmega_a.Host.{Host, H, ◌>>=◌}

pub off :
    {A : Type 0} (b : Bool)
    → b ≡ false
    → (x y : H A) (h : Host) → (let f : H A = elim b [ false ↦ x | true ↦ y ] in f h) ≡ x h
off false e x y h = refl
off true e x y h = absurd (cc)

pub on :
    {A : Type 0} (b : Bool)
    → b ≡ true
    → (x y : H A) (h : Host) → (let f : H A = elim b [ false ↦ x | true ↦ y ] in f h) ≡ y h
on true e x y h = refl
on false e x y h = absurd (cc)

-- A step whose result is known, before others.
pub bind_eq :
    {A B : Type 0} (m : H A) (f : A → H B) (g g' : Host) (a : A)
    → m g ≡ (a, g')
    → (m >>= f) g ≡ f a g'
bind_eq m f g g' a e = ap (λ r. f (r.0) (r.1)) e
