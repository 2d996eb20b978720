-- ===== src/Keyinput.antt =====
-- openedv/linux/stm32mp157/20_input/keyinput.c: a key that reports to the input subsystem.
pub mod Lifecycle
pub mod Reporting
pub mod Binding
use learning_kernel.Prelude.{
  ℕ, ℤ, pos, Option, none, some, is_neg, is_nonzero, not, eqb_ℤ, if◌then◌else◌,
}
use learning_kernel.Kernel.Calls
use learning_kernel.Kernel.Calls.{Kernel}
use learning_kernel.Kernel.Errno.{einval, enomem}
use learning_kernel.Kernel.Run.{
  World, M, pure, ◌>>=◌, ◌>>◌, get, modify, run_call, call_status, call_int, call_object,
}
use learning_kernel.IrqKeys.{irq_flags}

-- struct key_dev
pub record KeyDev : Type 0 where
  pub iputdev : Option ℕ
  pub gpio : ℤ
  pub irq : ℤ

-- `!value`
abbrev pub negation : ℤ → ℕ
negation value = if is_nonzero value then 0 else 1

module _ (k : Kernel) where
  unfoldable pub key_interrupt_handler : M KeyDev (Unit {0})
  key_interrupt_handler = run_call k Calls.tasklet_schedule

  pub key_parse : M KeyDev ℤ
  key_parse = do
    gpio ← call_int k (Calls.of_get_named_gpio "gpios")
    modify (λ d. record d { gpio = gpio })
    if is_neg gpio then pure einval else do
      irq ← call_int k Calls.irq_of_parse_and_map
      modify (λ d. record d { irq = irq })
      if not (is_nonzero irq) then pure einval else pure (pos 0)

  -- A line whose direction cannot be set stays requested.
  pub key_gpio_init : M KeyDev ℤ
  key_gpio_init = do
    d ← get
    requested ← call_status k (Calls.gpio_request d.gpio)
    if is_neg requested then pure requested else do
      directed ← call_status k (Calls.gpio_direction_input d.gpio)
      if is_neg directed then pure directed else do
        type ← call_int k (Calls.irq_get_trigger_type d.irq)
        ret ← call_status k (Calls.request_irq d.irq (irq_flags type))
        if is_nonzero ret then (do run_call k (Calls.gpio_free d.gpio); pure ret) else pure (pos 0)

  unfoldable pub timer_function : M KeyDev (Unit {0})
  timer_function = do
    d ← get
    value ← call_int k (Calls.gpio_get_value d.gpio)
    run_call k (Calls.input_report_key d.iputdev (negation value))
    run_call k (Calls.input_sync d.iputdev)

  -- msecs_to_jiffies(15) from now.
  unfoldable pub key_irq_tasklet : M KeyDev (Unit {0})
  key_irq_tasklet = run_call k (Calls.mod_timer (pos 15))

  -- The label, with the error.
  pub free_gpio : ℤ → M KeyDev ℤ
  free_gpio ret = do
    d ← get
    run_call k (Calls.free_irq d.irq)
    run_call k (Calls.gpio_free d.gpio)
    run_call k Calls.del_timer_sync
    pure ret

  -- `mykey_probe` from the allocation's test on.
  pub register_input : Option ℕ → M KeyDev ℤ
  unfolding free_gpio
  register_input none = free_gpio enomem
  register_input (some p) = do
    ret ← call_status k (Calls.input_register_device p)
    if is_nonzero ret then free_gpio ret else pure (pos 0)

  pub mykey_probe : M KeyDev ℤ
  unfolding key_parse key_gpio_init register_input
  mykey_probe = do
    parsed ← key_parse
    if is_nonzero parsed then pure parsed else do
      ready ← key_gpio_init
      if is_nonzero ready then pure ready else do
        run_call k Calls.tasklet_init
        run_call k Calls.timer_setup
        iputdev ← call_object k Calls.input_allocate_device
        modify (λ d. record d { iputdev = iputdev })
        register_input iputdev

  pub mykey_remove : M KeyDev ℤ
  mykey_remove = do
    d ← get
    run_call k Calls.del_timer_sync
    run_call k (Calls.free_irq d.irq)
    run_call k (Calls.gpio_free d.gpio)
    run_call k (Calls.input_unregister_device d.iputdev)
    pure (pos 0)

  -- The device is bound and, if that went well, unbound again.
  pub bind_unbind : World KeyDev → World KeyDev
  bind_unbind w = let r = mykey_probe w in if is_nonzero r.0 then r.1 else (mykey_remove r.1).1
