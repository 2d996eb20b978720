-- ===== src/Ft5x06/Driver.antt =====
-- The rest of openedv/linux/stm32mp157/23_multitouch/ft5x06.c: the transfers, the reset, the
-- interrupt's request, the probe and the remove.
pub mod Lifecycle
pub mod Binding
mod Examples
use learning_kernel.Prelude.{
  ℕ, ℤ, pos, negsuc, Option, none, some, Bool, List, [], ◌∷◌, length, take, is_neg, is_nonzero, not,
  eqb_ℤ, if◌then◌else◌,
}
use learning_kernel.Kernel.Calls
use learning_kernel.Kernel.Calls.{Kernel}
use learning_kernel.Kernel.Errno.{enomem}
use learning_kernel.Kernel.Run.{
  World, M, pure, ◌>>=◌, ◌>>◌, get, modify, run_call, call_status, call_int, call_int_bytes,
  call_object,
}
use learning_kernel.DeviceTree.{is_null}
use learning_kernel.Ft5x06.{Report, edt_ft5426_ts_isr}

pub record EdtFt5426Dev : Type 0 where
  pub input : Option ℕ
  pub reset_gpio : ℤ
  pub irq_gpio : ℤ

abbrev pub devide_mode_reg : ℕ
devide_mode_reg = 0x00

abbrev pub td_status_reg : ℕ
td_status_reg = 0x02

abbrev pub id_g_mode_reg : ℕ
id_g_mode_reg = 0xA4

module _ (k : Kernel) where
  -- `&send_buf[1]` has 5 bytes left.
  pub edt_ft5426_ts_write : ℕ → List ℕ → M EdtFt5426Dev ℤ
  edt_ft5426_ts_write addr buf = do
    run_call k (Calls.memcpy 5 (length buf))
    n ← call_int k (Calls.i2c_write_bytes (addr ∷ buf))
    if not (eqb_ℤ n (pos 1)) then pure (negsuc 0) else pure (pos 0)

  -- What is brought into `buf`, or `none` for -1.
  pub edt_ft5426_ts_read : ℕ → ℕ → M EdtFt5426Dev (Option (List ℕ))
  edt_ft5426_ts_read addr len = do
    r ← call_int_bytes k (Calls.i2c_read_bytes addr len)
    if not (eqb_ℤ r.0 (pos 2)) then pure none else pure (some (take len r.1))

  -- The interrupt with its transfer; the last byte of `rdbuf` stays 0.
  pub interrupt : M EdtFt5426Dev (List Report)
  unfolding edt_ft5426_ts_read
  interrupt = do rdbuf ← edt_ft5426_ts_read td_status_reg 29; pure (edt_ft5426_ts_isr rdbuf)

module _ (k : Kernel) (gpio_is_valid : ℤ → Bool) (gpio_to_irq : ℤ → ℤ) where
  pub edt_ft5426_ts_reset : M EdtFt5426Dev ℤ
  edt_ft5426_ts_reset = do
    gpio ← call_int k (Calls.of_get_named_gpio "reset-gpios")
    modify (λ d. record d { reset_gpio = gpio })
    if not (gpio_is_valid gpio) then pure gpio else do
      ret ← call_status k (Calls.devm_gpio_request_one gpio)
      if is_neg ret then pure ret else do
        run_call k (Calls.msleep 20)
        run_call k (Calls.gpio_set_value gpio 0)
        run_call k (Calls.msleep 5)
        run_call k (Calls.gpio_set_value gpio 1)
        pure (pos 0)

  pub edt_ft5426_ts_irq : M EdtFt5426Dev ℤ
  edt_ft5426_ts_irq = do
    gpio ← call_int k (Calls.of_get_named_gpio "irq-gpios")
    modify (λ d. record d { irq_gpio = gpio })
    if not (gpio_is_valid gpio) then pure gpio else do
      ret ← call_status k (Calls.devm_gpio_request_one gpio)
      if is_neg ret then pure ret else do
        requested ← call_status k (Calls.devm_request_threaded_irq (gpio_to_irq gpio))
        if is_nonzero requested then pure requested else pure (pos 0)

  -- `edt_ft5426_ts_probe` from the test of the input device on.
  pub register_input : Option ℕ → M EdtFt5426Dev ℤ
  register_input none = pure enomem
  register_input (some input) = do
    modify (λ d. record d { input = some input })
    run_call k Calls.input_set_abs_params
    run_call k Calls.input_set_abs_params
    slots ← call_status k Calls.input_mt_init_slots
    if is_nonzero slots then pure enomem else do
      ret ← call_status k (Calls.input_register_device input)
      if is_nonzero ret then pure ret else pure (pos 0)

  pub edt_ft5426_ts_probe : M EdtFt5426Dev ℤ
  unfolding edt_ft5426_ts_reset edt_ft5426_ts_irq edt_ft5426_ts_write register_input
  edt_ft5426_ts_probe = do
    ft5426 ← call_object k Calls.devm_kmalloc
    if is_null ft5426 then pure enomem else do
      reset ← edt_ft5426_ts_reset
      if is_nonzero reset then pure reset else do
        run_call k (Calls.msleep 5)
        edt_ft5426_ts_write k devide_mode_reg (0 ∷ [])
        edt_ft5426_ts_write k id_g_mode_reg (1 ∷ [])
        requested ← edt_ft5426_ts_irq
        if is_nonzero requested
            then pure requested
            else do input ← call_object k Calls.devm_input_allocate_device; register_input input

  pub edt_ft5426_ts_remove : M EdtFt5426Dev ℤ
  edt_ft5426_ts_remove = do
    d ← get
    run_call k (Calls.input_unregister_device d.input)
    pure (pos 0)

  -- The device is bound and, if that went well, unbound again.
  pub bind_unbind : World EdtFt5426Dev → World EdtFt5426Dev
  bind_unbind w =
      let r = edt_ft5426_ts_probe w in if is_nonzero r.0 then r.1 else (edt_ft5426_ts_remove r.1).1
