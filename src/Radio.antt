-- ===== src/Radio.antt =====
-- The radio driver, libraries/a7105/a7105.h and libraries/a7105/a7105.cpp, without
-- `A7105_Easy_Setup_Radio`, which is in Radio/Setup.antt.
pub mod Setup
pub mod Counts
pub mod Transfer
pub mod Answers
pub mod Receipt
pub mod Prompt
use atmega_a.Prelude.{
  ℕ, zero, suc, ◌+◌, ◌-◌, ◌*◌, ◌/◌, ◌%◌, ◌^◌, Bool, true, false, not, ◌&&◌, ◌||◌, List, [], ◌∷◌,
  ltb, ◌==◌, if◌then◌else◌, set, byte_at, bit_and, bit_or,
}
use atmega_a.World.{
  Event, spi_begin, pin_output, write_low, write_high, begin_transaction, end_transaction, delay_us,
  attach, detach, Io, World, M, ◌>>=◌, ◌>>◌, pure, int_ignore_one, int_null, int_triggered, emit,
  spi_transfer, read_count, write_count, give_up,
}

-- `enum A7105_Status_Code`
pub data StatusCode : Type 0 where
  status_ok init_error calibration_error invalid_channel invalid_fifo_length : StatusCode
  rx_data_waiting rx_data_integrity_error no_data no_wtr_interrupt_set busy : StatusCode

-- `struct A7105`. A pin of the source that is not positive, which stands for no pin, is 0.
pub record A7105 : Type 0 where
  pub cs_pin : ℕ
  pub interrupt_pin : ℕ
  pub use_crc : Bool
  pub use_fec : Bool
  pub data_rate : ℕ

-- `enum A7105_State`, the strobe commands.
abbrev pub strobe_standby : ℕ
strobe_standby = 0xA0

abbrev pub strobe_pll : ℕ
strobe_pll = 0xB0

abbrev pub strobe_rx : ℕ
strobe_rx = 0xC0

abbrev pub strobe_tx : ℕ
strobe_tx = 0xD0

abbrev pub strobe_rst_wrptr : ℕ
strobe_rst_wrptr = 0xE0

abbrev pub strobe_rst_rdptr : ℕ
strobe_rst_rdptr = 0xF0

-- The registers of the chip that the functions below use.
abbrev pub reg_mode : ℕ
reg_mode = 0x00

abbrev pub reg_fifo_i : ℕ
reg_fifo_i = 0x03

abbrev pub reg_fifo_data : ℕ
reg_fifo_data = 0x05

abbrev pub reg_gpio1_pin : ℕ
reg_gpio1_pin = 0x0B

abbrev pub reg_gpio2_pin : ℕ
reg_gpio2_pin = 0x0C

abbrev pub crc_check_mask : ℕ
crc_check_mask = 0x20

abbrev pub fec_check_mask : ℕ
fec_check_mask = 0x40

abbrev pub max_fifo_size : ℕ
max_fifo_size = 64

-- The lengths that `A7105_WriteData` and `A7105_Easy_Listen_For_Packets` accept.
abbrev pub is_fifo_length : ℕ → Bool
is_fifo_length len =
    not (not (len == 1) && not (len == 8) && not (len == 16) && not (len == 32) && not (len == 64))

-- `for (int i = 0; i < len; i++) SPI.transfer(dpbuffer[i])`, with `n` rounds left.
send_from : ⦃io : Io⦄ → List ℕ → ℕ → ℕ → M (Unit {0})
send_from buffer zero i = pure tt
send_from buffer (suc n) i = spi_transfer (byte_at buffer i) >>= λ _. send_from buffer n (suc i)

module _ ⦃io : Io⦄ (radio : A7105) where
  -- The frame round every exchange with the chip.
  unfoldable pub select : M (Unit {0})
  select = emit (write_low radio.cs_pin) >> emit begin_transaction

  unfoldable pub release : M (Unit {0})
  release = emit end_transaction >> emit (write_high radio.cs_pin)

  -- `A7105_Strobe`
  unfoldable pub strobe : ℕ → M (Unit {0})
  strobe state = do select; _ ← spi_transfer state; release

  -- `A7105_WriteReg` of a byte
  unfoldable pub write_reg : ℕ → ℕ → M (Unit {0})
  write_reg address value = do select; _ ← spi_transfer address; _ ← spi_transfer value; release

  -- `A7105_WriteReg` of an `uint32_t`
  unfoldable pub write_reg_u32 : ℕ → ℕ → M (Unit {0})
  write_reg_u32 addr value = do
    select
    _ ← spi_transfer addr
    _ ← spi_transfer (value / 2 ^ 24 % 256)
    _ ← spi_transfer (value / 2 ^ 16 % 256)
    _ ← spi_transfer (value / 2 ^ 8 % 256)
    _ ← spi_transfer (value % 256)
    release

  -- `A7105_ReadReg`
  unfoldable pub read_reg : ℕ → M ℕ
  read_reg addr = do
    select
    _ ← spi_transfer (bit_or addr 0x40)
    read_byte ← spi_transfer 0x00
    release
    pure read_byte

  -- `A7105_Reset`
  unfoldable pub reset : M (Unit {0})
  reset = do write_reg 0x00 0x00; emit (delay_us 1000)

  -- The write of the packet itself in `A7105_WriteData`.
  unfoldable pub fill_fifo : List ℕ → ℕ → M (Unit {0})
  unfolding send_from
  fill_fifo dpbuffer len = do
    write_reg reg_fifo_i ((len - 1) % 256)
    strobe strobe_rst_wrptr
    select
    _ ← spi_transfer reg_fifo_data
    send_from dpbuffer len 0
    release
    strobe strobe_tx

  send_now : List ℕ → ℕ → M StatusCode
  send_now dpbuffer len = do fill_fifo dpbuffer len; pure status_ok

  -- With a WTR pin: refuse while a transmission is under way, else expect its interrupt.
  claim_and_send : List ℕ → ℕ → M StatusCode
  unfolding send_now
  claim_and_send dpbuffer len = do
    count ← read_count radio.interrupt_pin
    if count == int_ignore_one
        then pure busy
        else (do write_count radio.interrupt_pin int_ignore_one; send_now dpbuffer len)

  -- `A7105_WriteData`
  unfoldable pub write_data : List ℕ → ℕ → M StatusCode
  unfolding send_now claim_and_send
  write_data dpbuffer len = if not (is_fifo_length len) then pure invalid_fifo_length else (do
    strobe strobe_standby
    if ltb 0 radio.interrupt_pin then claim_and_send dpbuffer len else send_now dpbuffer len)

  -- `for(int i = 0; i < len; i++) dpbuffer[i] = A7105_ReadReg(radio, A7105_05_FIFO_DATA)`, with `n`
  -- rounds left.
  pub read_from : List ℕ → ℕ → ℕ → M (List ℕ)
  read_from dpbuffer zero i = pure dpbuffer
  read_from dpbuffer (suc n) i =
      read_reg reg_fifo_data >>= λ b. read_from (set dpbuffer i b) n (suc i)

  -- The bits of the mode register that tell of damaged data.
  abbrev pub is_damaged : ℕ → Bool
  is_damaged mode = not (bit_and mode crc_check_mask == 0) || not (bit_and mode fec_check_mask == 0)

  -- The check of CRC and FEC that `A7105_ReadData` and `A7105_CheckRXWaiting` make.
  unfoldable pub check_integrity : StatusCode → M StatusCode
  check_integrity good =
      if radio.use_crc || radio.use_fec
      then (do
        mode ← read_reg reg_mode
        pure (if is_damaged mode then rx_data_integrity_error else good))
      else pure good

  read_now : List ℕ → ℕ → M (StatusCode × List ℕ)
  unfolding read_from
  read_now dpbuffer len = do
    write_count radio.interrupt_pin int_null
    strobe strobe_rst_rdptr
    filled ← read_from dpbuffer len 0
    status ← check_integrity status_ok
    pure (status, filled)

  -- `A7105_ReadData`: the status and the buffer. Where no pin is set the code writes a counter too,
  -- at index -1 or 0; both are entry 0 here, which is no pin's.
  unfoldable pub read_data : List ℕ → ℕ → M (StatusCode × List ℕ)
  unfolding read_now
  read_data dpbuffer len =
      if ltb max_fifo_size len
      then pure (invalid_fifo_length, dpbuffer)
      else (if ltb 0 radio.interrupt_pin
          then (do
            count ← read_count radio.interrupt_pin
            if not (count == int_triggered)
                then pure (no_data, dpbuffer)
                else read_now dpbuffer len)
          else read_now dpbuffer len)

  -- `A7105_CheckTXFinished`
  unfoldable pub check_tx_finished : M StatusCode
  check_tx_finished = do
    mode ← read_reg reg_mode
    pure (if not (bit_and mode 0x01 == 0) then busy else status_ok)

  -- `A7105_CheckRXWaiting`
  unfoldable pub check_rx_waiting : M StatusCode
  check_rx_waiting =
      if ltb 0 radio.interrupt_pin
      then (do
        count ← read_count radio.interrupt_pin
        if not (count == int_triggered) then pure no_data else check_integrity rx_data_waiting)
      else pure no_wtr_interrupt_set

  -- `A7105_Easy_Listen_For_Packets`
  unfoldable pub easy_listen_for_packets : ℕ → M StatusCode
  easy_listen_for_packets len = if not (is_fifo_length len) then pure invalid_fifo_length else (do
    strobe strobe_standby
    if ltb 0 radio.interrupt_pin then write_count radio.interrupt_pin int_null else pure tt
    strobe strobe_rst_wrptr
    write_reg reg_fifo_i ((len - 1) % 256)
    strobe strobe_rx
    pure status_ok)

  -- `while (A7105_CheckTXFinished(&(node->radio)) != A7105_STATUS_OK) { }`, of a7105_mesh.cpp, for
  -- at most `n` tests. Without an end by then the world is stuck, and what follows is not the program's.
  unfoldable pub wait_tx_from : ℕ → M (Unit {0})
  wait_tx_from zero = give_up
  wait_tx_from (suc n) =
      check_tx_finished >>= λ status. elim status [ status_ok ↦ pure tt | _ ↦ wait_tx_from n ]

  unfoldable pub wait_tx_finished : M (Unit {0})
  unfolding wait_tx_from
  wait_tx_finished = wait_tx_from io.patience

  -- `A7105_Pause` and `A7105_Resume`
  unfoldable pub pause : M (Unit {0})
  pause = emit (detach radio.interrupt_pin)

  unfoldable pub resume : M (Unit {0})
  resume = emit (attach radio.interrupt_pin)

-- `A7105_Initialize`, with and without its third argument, which it does not read.
unfoldable pub initialize : ⦃io : Io⦄ → A7105 → ℕ → M A7105
initialize radio chip_select_pin = do
  emit spi_begin
  emit (pin_output chip_select_pin)
  let selected : A7105 = record radio { cs_pin = chip_select_pin }
  emit (write_high chip_select_pin)
  reset selected
  write_reg selected reg_gpio1_pin 0x19
  write_reg selected reg_gpio2_pin 0x01
  pure selected
