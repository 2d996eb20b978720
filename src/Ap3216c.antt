-- ===== src/Ap3216c.antt =====
-- openedv/linux/stm32mp157/21_iic/ap3216c.c: a light and proximity sensor on an I2C bus.
pub mod Decoding
pub mod Ioctl
pub mod Binding
pub mod Attributes
mod Examples
use learning_kernel.Prelude.{
  ℕ, ◌*◌, ◌^◌, ℤ, pos, negsuc, Option, none, some, not, eqb_ℤ, is_nonzero, if◌then◌else◌, ◌==◌,
  Bool,
}
use learning_kernel.Prelude.Bits.{bit_and, bit_or}
use learning_kernel.Kernel.Calls
use learning_kernel.Kernel.Calls.{Kernel}
use learning_kernel.Kernel.Files.{FileOperations, direct}
use learning_kernel.Kernel.Run.{
  World, M, pure, ◌>>=◌, ◌>>◌, get, modify, run_call, call_status, call_int, call_number,
  call_int_out,
}

-- `ap3216c_dev`: whether its client is set.
pub record Ap3216cDevice : Type 0 where
  pub client : Option ℕ

-- The registers of the three readings.
abbrev pub irdata_low : ℕ
irdata_low = 0x0A

abbrev pub irdata_high : ℕ
irdata_high = 0x0B

abbrev pub alsdata_low : ℕ
alsdata_low = 0x0C

abbrev pub alsdata_high : ℕ
alsdata_high = 0x0D

abbrev pub psdata_low : ℕ
psdata_low = 0x0E

abbrev pub psdata_high : ℕ
psdata_high = 0x0F

-- _IOR('D', 0, unsigned short), _IOR('D', 1, unsigned short) and _IOR('D', 2, unsigned short)
abbrev pub get_ir : ℕ
get_ir = 0x80024400

abbrev pub get_als : ℕ
get_als = 0x80024401

abbrev pub get_ps : ℕ
get_ps = 0x80024402

module _ (k : Kernel) where
  -- The byte, or `none` for -1: both messages have to be transferred.
  pub ap3216c_read_reg : ℕ → M Ap3216cDevice (Option ℕ)
  ap3216c_read_reg reg = do
    r ← call_int_out k (Calls.i2c_read reg)
    if eqb_ℤ r.0 (pos 2) then pure (some r.1) else pure none

  pub ap3216c_write_reg : ℕ → ℕ → M Ap3216cDevice ℤ
  ap3216c_write_reg reg value = do
    n ← call_int k (Calls.i2c_write reg value)
    if eqb_ℤ n (pos 1) then pure (pos 0) else pure (negsuc 0)

  -- The low byte, and then, if it arrived, the high byte.
  with_high : Option ℕ → ℕ → (ℕ → ℕ → Option ℕ) → M Ap3216cDevice (Option ℕ)
  unfolding ap3216c_read_reg
  with_high none high decode = pure none
  with_high (some low) high decode = do
    byte ← ap3216c_read_reg high
    pure (elim byte [ none ↦ none | some h ↦ decode low h ])

  pub read_pair : ℕ → ℕ → (ℕ → ℕ → Option ℕ) → M Ap3216cDevice (Option ℕ)
  unfolding with_high ap3216c_read_reg
  read_pair low high decode = do byte ← ap3216c_read_reg low; with_high byte high decode

  -- What is stored through `data`, or `none` for -1, when nothing is.
  pub ap3216c_read_ir_data : M Ap3216cDevice (Option ℕ)
  unfolding read_pair
  ap3216c_read_ir_data =
      read_pair irdata_low irdata_high (λ l h. some (bit_or (h * 2 ^ 2) (bit_and l 0x3)))

  pub ap3216c_read_als_data : M Ap3216cDevice (Option ℕ)
  unfolding read_pair
  ap3216c_read_als_data = read_pair alsdata_low alsdata_high (λ l h. some (bit_or (h * 2 ^ 8) l))

  pub ap3216c_read_ps_data : M Ap3216cDevice (Option ℕ)
  unfolding read_pair
  ap3216c_read_ps_data = read_pair psdata_low psdata_high (λ l h.
      if not (bit_and l (2 ^ 6) == 0)
      then none
      else some (bit_or (bit_and h 0x3F * 2 ^ 4) (bit_and l 0xF)))

  -- The number that the attribute prints.
  shown : Option ℕ → M Ap3216cDevice ℤ
  shown none = pure (negsuc 0)
  shown (some v) = pure (pos v)

  pub show_ir : M Ap3216cDevice ℤ
  unfolding ap3216c_read_ir_data shown
  show_ir = do r ← ap3216c_read_ir_data; shown r

  pub show_als : M Ap3216cDevice ℤ
  unfolding ap3216c_read_als_data shown
  show_als = do r ← ap3216c_read_als_data; shown r

  pub show_ps : M Ap3216cDevice ℤ
  unfolding ap3216c_read_ps_data shown
  show_ps = do r ← ap3216c_read_ps_data; shown r

  pub ap3216c_init : M Ap3216cDevice ℤ
  unfolding ap3216c_write_reg
  ap3216c_init = do
    reset ← ap3216c_write_reg 0x00 0x04
    if is_nonzero reset then pure (negsuc 0) else do
      run_call k (Calls.mdelay 50)
      enabled ← ap3216c_write_reg 0x00 0x03
      if is_nonzero enabled then pure (negsuc 0) else pure (pos 0)

  -- The `switch` of the ioctl.
  reading : ℕ → M Ap3216cDevice (Option ℕ)
  unfolding ap3216c_read_ir_data ap3216c_read_als_data ap3216c_read_ps_data
  reading cmd =
      if cmd == get_ir
      then ap3216c_read_ir_data
      else if cmd == get_als
      then ap3216c_read_als_data
      else if cmd == get_ps
      then ap3216c_read_ps_data
      else pure none

  -- What the ioctl copies and returns: `data` keeps what it held if there is no reading.
  copied : ℕ → Option ℕ → ℕ × ℤ
  copied junk none = (junk, negsuc 0)
  copied junk (some v) = (v, pos 0)

  -- `junk` is what the local variable `data` happens to hold at first.
  pub ap3216c_ioctl : ℕ → ℕ → M Ap3216cDevice ℤ
  unfolding reading copied
  ap3216c_ioctl junk cmd = do
    r ← reading cmd
    left ← call_number k (Calls.copy_to_user (pos (copied junk r).0))
    if is_nonzero (pos left) then pure (negsuc 0) else pure (copied junk r).1

  -- The result of `misc_register` is not looked at.
  pub ap3216c_probe : ℕ → M Ap3216cDevice ℤ
  unfolding ap3216c_init
  ap3216c_probe client = do
    failed ← ap3216c_init
    if is_nonzero failed then pure (negsuc 0) else do
      call_status k Calls.misc_register
      modify (λ d. record d { client = some client })
      run_call k Calls.misc_set_drvdata
      pure (pos 0)

  pub ap3216c_remove : M Ap3216cDevice ℤ
  ap3216c_remove = do run_call k Calls.misc_deregister; pure (pos 0)

pub ap3216c_open : M Ap3216cDevice ℤ
ap3216c_open = pure (pos 0)

pub ap3216c_release : Unit {0} → M Ap3216cDevice ℤ
ap3216c_release _ = pure (pos 0)

unfoldable pub fops : Kernel → FileOperations Ap3216cDevice (Unit {0}) (Unit {0})
unfolding ap3216c_open
fops k = record {
  open_file = ap3216c_open;
  read = none;
  write = none;
  unlocked_ioctl = direct (λ c. ap3216c_ioctl k c.0 c.1);
  poll = none;
  fasync = none;
  release = direct ap3216c_release;
}
