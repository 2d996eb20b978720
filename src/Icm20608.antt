-- ===== src/Icm20608.antt =====
-- openedv/linux/stm32mp157/22_spi/icm20608.c and icm20608reg.h: a motion sensor on an SPI bus.
pub mod Decoding
pub mod Setup
pub mod Binding
pub mod Attributes
mod Examples
use learning_kernel.Prelude.{
  ℕ, zero, suc, ◌+◌, ◌-◌, ◌*◌, ◌/◌, ◌%◌, ◌^◌, ℤ, pos, negsuc, List, [], ◌∷◌, Option, none, some,
  ltb, is_nonzero, if◌then◌else◌, Bool,
}
use learning_kernel.Prelude.Bits.{bit_and, bit_or}
use learning_kernel.Kernel.Calls
use learning_kernel.Kernel.Calls.{Kernel}
use learning_kernel.Kernel.Files.{FileOperations, direct}
use learning_kernel.Kernel.Run.{
  World, M, pure, ◌>>=◌, ◌>>◌, modify, run_call, call_status, call_status_bytes, call_object,
  call_number,
}

pub record Icm20608Device : Type 0 where
  pub spi : Option ℕ

-- The registers, by their names without the prefix.
abbrev pub smplrt_div : ℕ
smplrt_div = 0x19

abbrev pub config : ℕ
config = 0x1A

abbrev pub gyro_config : ℕ
gyro_config = 0x1B

abbrev pub accel_config : ℕ
accel_config = 0x1C

abbrev pub accel_config2 : ℕ
accel_config2 = 0x1D

abbrev pub lp_mode_cfg : ℕ
lp_mode_cfg = 0x1E

abbrev pub fifo_en : ℕ
fifo_en = 0x23

abbrev pub accel_xout_h : ℕ
accel_xout_h = 0x3B

abbrev pub temp_out_h : ℕ
temp_out_h = 0x41

abbrev pub pwr_mgmt_1 : ℕ
pwr_mgmt_1 = 0x6B

abbrev pub pwr_mgmt_2 : ℕ
pwr_mgmt_2 = 0x6C

abbrev pub who_am_i : ℕ
who_am_i = 0x75

-- The byte at an index of a buffer.
abbrev pub byte : ℕ → List ℕ → ℕ
byte i [] = 0
byte zero (b ∷ bs) = b % 2 ^ 8
byte (suc i) (b ∷ bs) = byte i bs

-- (signed short) of a 16-bit word
abbrev pub signed16 : ℕ → ℤ
signed16 w = if ltb w (2 ^ 15) then pos w else negsuc (2 ^ 16 - w - 1)

-- (signed short)((high << 8) | low)
abbrev pub joined : ℕ → ℕ → ℤ
joined high low = signed16 (bit_or (high * 2 ^ 8) low)

-- The `buf` that `icm20608_readdata` fills from its `data`.
abbrev pub readings : List ℕ → List ℤ
readings bytes =
    joined (byte 8 bytes) (byte 9 bytes)
    ∷ joined (byte 10 bytes) (byte 11 bytes)
    ∷ joined (byte 12 bytes) (byte 13 bytes)
    ∷ joined (byte 0 bytes) (byte 1 bytes)
    ∷ joined (byte 2 bytes) (byte 3 bytes)
    ∷ joined (byte 4 bytes) (byte 5 bytes)
    ∷ joined (byte 6 bytes) (byte 7 bytes)
    ∷ []

-- A u16 that two bytes are read into, on a little-endian machine, and the same with its bytes
-- swapped.
abbrev pub little_endian : List ℕ → ℕ
little_endian bytes = byte 0 bytes + byte 1 bytes * 2 ^ 8

abbrev pub swapped : ℕ → ℕ
swapped tmp = bit_or (tmp * 2 ^ 8) (tmp / 2 ^ 8) % 2 ^ 16

module _ (k : Kernel) where
  -- The result of the transfer, and what the buffer holds after it.
  unfoldable pub icm20608_read_regs : ℕ → ℕ → M Icm20608Device (ℤ × List ℕ)
  icm20608_read_regs reg len = call_status_bytes k (Calls.spi_write_then_read (bit_or reg 0x80) len)

  -- `reg & ~0x80` is `reg & 0x7F` for a byte.
  sent : ℕ → List ℕ → Option ℕ → M Icm20608Device ℤ
  sent reg buf none = pure (negsuc 0)
  sent reg buf (some txdata) = do
    ret ← call_status k (Calls.spi_write (bit_and reg 0x7F ∷ buf))
    run_call k (Calls.kfree txdata)
    pure ret

  pub icm20608_write_regs : ℕ → List ℕ → M Icm20608Device ℤ
  unfolding sent
  icm20608_write_regs reg buf = do txdata ← call_object k Calls.kmalloc; sent reg buf txdata

  pub icm20608_read_onereg : ℕ → M Icm20608Device ℕ
  unfolding icm20608_read_regs
  icm20608_read_onereg reg = do r ← icm20608_read_regs reg 1; pure (byte 0 r.1)

  -- The result of the transfer is not looked at.
  pub icm20608_write_onereg : ℕ → ℕ → M Icm20608Device (Unit {0})
  unfolding icm20608_write_regs
  icm20608_write_onereg reg value = do icm20608_write_regs reg (value ∷ []); pure tt

  -- The result of the transfer, and the u16 that is stored through `data`.
  pub icm20608_read_temp_data : M Icm20608Device (ℤ × ℕ)
  unfolding icm20608_read_regs
  icm20608_read_temp_data = do
    r ← icm20608_read_regs temp_out_h 2
    pure (r.0, swapped (little_endian r.1))

  -- The number that the attribute prints.
  pub show_temp : M Icm20608Device ℤ
  unfolding icm20608_read_temp_data
  show_temp = do
    r ← icm20608_read_temp_data
    if is_nonzero r.0 then pure (negsuc 0) else pure (pos r.1)

  -- The result of the transfer is not looked at.
  unfoldable pub icm20608_readdata : M Icm20608Device (List ℤ)
  unfolding icm20608_read_regs
  icm20608_readdata = do r ← icm20608_read_regs accel_xout_h 14; pure (readings r.1)

  -- Neither is the result of the copy.
  unfoldable pub icm20608_read : M Icm20608Device ℤ
  unfolding icm20608_readdata
  icm20608_read = do
    buf ← icm20608_readdata
    call_number k (Calls.copy_ints_to_user buf)
    pure (pos 0)

  pub icm20608_reginit : M Icm20608Device (Unit {0})
  unfolding icm20608_write_onereg icm20608_read_onereg
  icm20608_reginit = do
    icm20608_write_onereg pwr_mgmt_1 0x80
    run_call k (Calls.mdelay 50)
    icm20608_write_onereg pwr_mgmt_1 0x01
    run_call k (Calls.mdelay 50)
    icm20608_read_onereg who_am_i
    icm20608_write_onereg smplrt_div 0x00
    icm20608_write_onereg gyro_config 0x18
    icm20608_write_onereg accel_config 0x18
    icm20608_write_onereg config 0x04
    icm20608_write_onereg accel_config2 0x04
    icm20608_write_onereg pwr_mgmt_2 0x00
    icm20608_write_onereg lp_mode_cfg 0x00
    icm20608_write_onereg fifo_en 0x00

  -- The results of misc_register and spi_setup are not looked at.
  pub icm20608_probe : ℕ → M Icm20608Device ℤ
  unfolding icm20608_reginit
  icm20608_probe spi = do
    call_status k Calls.misc_register
    modify (λ d. record d { spi = some spi })
    call_status k Calls.spi_setup
    icm20608_reginit
    run_call k Calls.misc_set_drvdata
    pure (pos 0)

  pub icm20608_remove : M Icm20608Device ℤ
  icm20608_remove = do run_call k Calls.misc_deregister; pure (pos 0)

pub icm20608_open : M Icm20608Device ℤ
icm20608_open = pure (pos 0)

pub icm20608_release : Unit {0} → M Icm20608Device ℤ
icm20608_release _ = pure (pos 0)

unfoldable pub icm20608_ops : Kernel → FileOperations Icm20608Device (Unit {0}) (Unit {0})
unfolding icm20608_open
icm20608_ops k = record {
  open_file = icm20608_open;
  read = direct (λ _. icm20608_read k);
  write = none;
  unlocked_ioctl = none;
  poll = none;
  fasync = none;
  release = direct icm20608_release;
}
