-- ===== src/Radio/Setup.antt =====
-- `A7105_SetPower` and `A7105_Easy_Setup_Radio` of libraries/a7105/a7105.cpp.
use atmega_a.Prelude.{
  ℕ, zero, suc, ◌+◌, ◌-◌, ◌*◌, ◌%◌, ◌^◌, Bool, true, false, not, ltb, ◌==◌, if◌then◌else◌, bit_and,
  bit_or,
}
use atmega_a.World.{
  Io, M, ◌>>=◌, ◌>>◌, pure, pin_input, attach, int_null, emit, millis, write_count, give_up,
}
use atmega_a.Radio.{
  A7105, StatusCode, status_ok, init_error, calibration_error, invalid_channel, strobe_standby,
  strobe_pll, strobe, write_reg, write_reg_u32, read_reg, initialize,
}

abbrev pub highest_channel : ℕ
highest_channel = 0xA8

abbrev pub calibration_timeout : ℕ
calibration_timeout = 500

-- The two fields of the TX test register for a power setting.
unfoldable pub power_fields : ℕ → ℕ × ℕ
power_fields power =
    if power == 0
    then (0, 0)
    else if power == 1
    then (0, 1)
    else if power == 2
    then (0, 2)
    else if power == 3
    then (0, 4)
    else if power == 4
    then (1, 5)
    else if power == 5
    then (2, 7)
    else if power == 6
    then (3, 7)
    else if power == 7
    then (3, 7)
    else (0, 0)

-- The value of the code register: a fixed part, and a bit each for CRC and FEC.
unfoldable pub code_value : Bool → Bool → ℕ
code_value use_crc use_fec =
    let with_crc = if use_crc then bit_or 0x07 0x08 else 0x07 in
    if use_fec then bit_or with_crc 0x10 else with_crc

module _ ⦃io : Io⦄ where
  -- `A7105_SetPower`
  unfoldable pub set_power : A7105 → ℕ → M (Unit {0})
  set_power radio power =
      write_reg radio 0x28 (bit_or ((power_fields power).0 * 2 ^ 3) (power_fields power).1 % 256)

  -- The loop that waits for the calibration, for at most `n` tests: whether it ended in time.
  calibrate_from : A7105 → ℕ → ℕ → M Bool
  calibrate_from radio ms zero = give_up >> pure false
  calibrate_from radio ms (suc n) = millis >>= λ now.
      elim (ltb ((now + 2 ^ 32 - ms) % 2 ^ 32) calibration_timeout) [
        | false ↦ pure false
        | true ↦ read_reg radio 0x02 >>= λ calc. elim (bit_and calc 0x07 == 0) [
          | true ↦ pure true
          | false ↦ calibrate_from radio ms n
        ]
      ]

  -- The registers written between the check of the chip and that of the channel.
  configure : A7105 → ℕ → Bool → Bool → M A7105
  configure radio data_rate use_crc use_fec = do
    write_reg radio 0x0E data_rate
    write_reg radio 0x15 0x2b
    write_reg radio 0x18 0x62
    write_reg radio 0x19 0x80
    write_reg radio 0x1C 0x0A
    write_reg radio 0x1F (code_value use_crc use_fec)
    write_reg radio 0x20 0x17
    write_reg radio 0x29 0x47
    pure (record radio { data_rate = data_rate; use_crc = use_crc; use_fec = use_fec })

  -- What follows a successful calibration.
  finish_setup : A7105 → ℕ → ℕ → M (StatusCode × A7105)
  finish_setup radio power wtr_pin = do
    set_power radio power
    strobe radio strobe_standby
    if ltb 0 wtr_pin
        then (do write_count wtr_pin int_null; emit (pin_input wtr_pin); emit (attach wtr_pin))
        else pure tt
    pure (status_ok, record radio { interrupt_pin = wtr_pin })

  -- The three failure bits of the calibration, each read only if those before are clear.
  check_calibration : A7105 → M Bool
  check_calibration radio = do
    if_filter ← read_reg radio 0x22
    if bit_and if_filter 0x10 == 0x10 then pure false else (do
      vco_current ← read_reg radio 0x24
      if bit_and vco_current 0x10 == 0x10
          then pure false
          else (do vco_band ← read_reg radio 0x25; pure (not (bit_and vco_band 0x80 == 0x80))))

  calibrate : A7105 → ℕ → ℕ → ℕ → M (StatusCode × A7105)
  calibrate radio channel power wtr_pin = do
    write_reg radio 0x0F channel
    write_reg radio 0x22 0x00
    strobe radio strobe_pll
    write_reg radio 0x02 0x07
    ms ← millis
    in_time ← calibrate_from radio ms io.patience
    if not in_time then pure (calibration_error, radio) else (do
      good ← check_calibration radio
      if not good then pure (calibration_error, radio) else finish_setup radio power wtr_pin)

  -- `A7105_Easy_Setup_Radio`: the status and the radio structure.
  unfoldable pub easy_setup_radio :
      A7105 → ℕ → ℕ → ℕ → ℕ → ℕ → ℕ → Bool → Bool → M (StatusCode × A7105)
  unfolding calibrate_from configure finish_setup check_calibration calibrate
  easy_setup_radio radio cs_pin wtr_pin radio_id data_rate channel power use_crc use_fec = do
    selected ← initialize radio cs_pin
    write_reg_u32 selected 0x06 radio_id
    write_reg selected 0x01 0x63
    write_reg selected 0x03 0x0f
    write_reg selected 0x04 0x00
    write_reg selected 0x0D 0x05
    readback ← read_reg selected 0x0D
    if not (readback == 0x05) then pure (init_error, selected) else (do
      configured ← configure selected data_rate use_crc use_fec
      if ltb highest_channel channel
          then pure (invalid_channel, configured)
          else calibrate configured channel power wtr_pin)
