-- ===== src/IrqKeys.antt =====
-- The key drivers with an interrupt, a tasklet and a debouncing timer: 13_irq/keyirq.c,
-- 14_blockio/blockio.c, 15_noblockio/noblockio.c and 16_fasync/fasync.c of openedv/linux/stm32mp157.
-- This file has what they share, read off fasync.c; the children have each driver's own functions.
pub mod Keyirq
pub mod Blockio
pub mod Noblockio
pub mod Fasync
pub mod Sampling
pub mod Reading
pub mod Lifecycle
mod Examples
use learning_kernel.Prelude.{
  ℕ, zero, suc, ℤ, pos, negsuc, Option, Bool, true, false, not, ◌&&◌, is_neg, is_nonzero, eqb_ℤ,
  if◌then◌else◌,
}
use learning_kernel.Kernel.Calls
use learning_kernel.Kernel.Calls.{Kernel}
use learning_kernel.Kernel.Errno.{eio, einval, efault, erestartsys}
use learning_kernel.Kernel.Run.{
  World, M, pure, ◌>>=◌, ◌>>◌, get, modify, zoom, run_call, call_status, call_int, call_number,
}
use learning_kernel.Chrdev.{Chrdev, register_dynamic, unregister}
use learning_kernel.DeviceTree.{check_node}

-- enum key_status
pub data KeyStatus : Type 0 where
  key_press key_release key_none : KeyStatus

abbrev pub code : KeyStatus → ℤ
code key_press = pos 0
code key_release = pos 1
code key_none = pos 2

abbrev pub is_none : KeyStatus → Bool
is_none key_press = false
is_none key_release = false
is_none key_none = true

-- struct key_dev, with the static `last_value` of `timer_function`.
pub record KeyDev : Type 0 where
  pub chr : Chrdev
  pub nd : Option ℕ
  pub key_gpio : ℤ
  pub irq_num : ℤ
  pub status : KeyStatus
  pub last_value : ℤ

abbrev pub on_chr : {A : Type 0} → M Chrdev A → M KeyDev A
on_chr = zoom (λ d. d.chr) (λ c d. record d { chr = c })

-- The status after a sample of the line, and the sample as the new `last_value`.
abbrev pub sampled_status : ℤ → ℤ → KeyStatus
sampled_status cur last =
    if eqb_ℤ (pos 0) cur && not (eqb_ℤ cur last)
    then key_press
    else if eqb_ℤ (pos 1) cur && not (eqb_ℤ cur last)
    then key_release
    else key_none

abbrev pub sampled : ℤ → KeyDev → KeyDev
sampled cur d = record d { status = sampled_status cur d.last_value; last_value = cur }

-- IRQF_TRIGGER_RISING | IRQF_TRIGGER_FALLING, for a line with no trigger type of its own.
abbrev pub irq_flags : ℤ → ℕ
irq_flags (pos zero) = 3
irq_flags (pos (suc n)) = suc n
irq_flags (negsuc n) = 0

module _ (k : Kernel) where
  pub key_parse : M KeyDev ℤ
  unfolding check_node
  key_parse = do
    bad ← check_node k "/key" "alex,key" (λ nd d. record d { nd = nd })
    if is_neg bad then pure bad else do
      gpio ← call_int k (Calls.of_get_named_gpio "gpios")
      modify (λ d. record d { key_gpio = gpio })
      if is_neg gpio then pure einval else do
        irq ← call_int k Calls.irq_of_parse_and_map
        modify (λ d. record d { irq_num = irq })
        if not (is_nonzero irq) then pure einval else pure (pos 0)

  -- From `gpio_request` on, with the call that sets the direction.
  pub key_gpio_init : (ℤ → Calls.Call) → M KeyDev ℤ
  key_gpio_init direction = do
    d ← get
    requested ← call_status k (Calls.gpio_request d.key_gpio)
    if is_neg requested then pure requested else do
      directed ← call_status k (direction d.key_gpio)
      if is_neg directed then pure directed else do
        type ← call_int k (Calls.irq_get_trigger_type d.irq_num)
        ret ← call_status k (Calls.request_irq d.irq_num (irq_flags type))
        if is_nonzero ret
            then (do run_call k (Calls.gpio_free d.key_gpio); pure ret)
            else pure (pos 0)

  pub key_interrupt_handler : M KeyDev (Unit {0})
  key_interrupt_handler = run_call k Calls.tasklet_schedule

  -- msecs_to_jiffies(15) from now.
  pub key_irq_tasklet : M KeyDev (Unit {0})
  key_irq_tasklet = run_call k (Calls.mod_timer (pos 15))

  -- The locked part of `timer_function`.
  unfoldable pub sample : M KeyDev (Unit {0})
  sample = do
    d ← get
    run_call k Calls.spin_lock_irqsave
    cur ← call_int k (Calls.gpio_get_value d.key_gpio)
    modify (sampled cur)
    run_call k Calls.spin_unlock_irqrestore

  -- The locked part of `kery_read`, to its return. sizeof(int) is 4.
  unfoldable pub hand_over : M KeyDev ℤ
  hand_over = do
    run_call k Calls.spin_lock_irqsave
    d ← get
    left ← call_number k (Calls.copy_to_user (code d.status))
    if is_nonzero (pos left) then (do run_call k Calls.spin_unlock_irqrestore; pure efault) else do
      modify (λ d'. record d' { status = key_none })
      run_call k Calls.spin_unlock_irqrestore
      pure (pos 4)

  -- wait_event_interruptible(dev->r_wait, dev->status != KEY_NONE): the condition is read again
  -- whenever a timer wakes the queue. The schedule is an argument: `n` times the timer can fire
  -- before a signal ends the sleep.
  unfoldable pub wait_event : M KeyDev (Unit {0}) → ℕ → M KeyDev ℤ
  wait_event tick zero = do d ← get; if is_none d.status then pure erestartsys else pure (pos 0)
  wait_event tick (suc n) =
      let rest = wait_event tick n in
      do d ← get; if is_none d.status then (do tick; rest) else pure (pos 0)

  -- `mykey_init` after `init_waitqueue_head` and `spin_lock_init`, with the direction call.
  pub init_with : (ℤ → Calls.Call) → M KeyDev ℤ
  init_with direction = do
    parsed ← key_parse
    if is_nonzero parsed then pure parsed else do
      ready ← key_gpio_init direction
      if is_nonzero ready then pure ready else do
        run_call k Calls.tasklet_init
        registered ← on_chr (register_dynamic k)
        if registered then (do run_call k Calls.timer_setup; pure (pos 0)) else do
          d ← get
          run_call k (Calls.free_irq d.irq_num)
          run_call k (Calls.gpio_free d.key_gpio)
          pure eio

  pub mykey_exit : M KeyDev (Unit {0})
  mykey_exit = do
    run_call k Calls.del_timer_sync
    on_chr (unregister k)
    d ← get
    run_call k (Calls.free_irq d.irq_num)
    run_call k (Calls.gpio_free d.key_gpio)

  -- The module is loaded and, if that went well, unloaded again.
  pub load_unload : (ℤ → Calls.Call) → World KeyDev → World KeyDev
  load_unload direction w =
      let r = init_with direction w in if is_nonzero r.0 then r.1 else (mykey_exit r.1).1
