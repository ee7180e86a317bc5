-- ===== src/Mesh/Delay.antt =====
-- The random delay between repeats: `_A7105_Mesh_Calculate_Random_Delay` of
-- libraries/a7105_mesh/a7105_mesh.cpp.
use atmega_a.Prelude.{ℕ, ◌*◌, ◌≤◌, ◌<◌, ◌≡◌, arith, Bool, true, List, ◌||◌, ◌==◌}
use atmega_a.World.{Event, Io, World, random}
use atmega_a.Mesh.{transmit_time, calculate_random_delay}

-- Arduino's `random(low, high)`: at least `low`, less than `high`.
abbrev pub IsRandom : Io → Type 0
IsRandom io =
    (events : List Event) (low high : ℕ)
    → low < high
    → (low ≤ io.random_at events low high) × (io.random_at events low high < high)

-- The values of `enum A7105_DataRate`.
abbrev pub is_data_rate : ℕ → Bool
is_data_rate r =
    r == 0x01 || r == 0x03 || r == 0x04 || r == 0x09 || r == 0x13 || r == 0x31 || r == 0xF9

time_range :
    ⦃io : Io⦄ (r : ℕ) → is_data_rate r ≡ true → (4 ≤ transmit_time r) × (transmit_time r ≤ 494)
unfolding transmit_time
time_range r h = ground arith

-- With a lawful random number generator and one of the seven data rates, the delay is at least the time
-- of two packets and less than that of 41: nothing is lost in the 16 bits that hold it.
pub calculate_random_delay_range :
    ⦃io : Io⦄ (data_rate : ℕ) (w : World)
    → IsRandom io
    → is_data_rate data_rate ≡ true
    → let (d, _) = calculate_random_delay data_rate w in
      (2 * transmit_time data_rate ≤ d) × (d < 41 * transmit_time data_rate)
unfolding calculate_random_delay random
calculate_random_delay_range data_rate w lawful h =
    let t = time_range data_rate h in
    let range =
      lawful w.events (2 * transmit_time data_rate) (41 * transmit_time data_rate)
        (omega (arith, t)) in
    omega (arith, t, range)
