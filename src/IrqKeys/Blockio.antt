-- ===== src/IrqKeys/Blockio.antt =====
-- openedv/linux/stm32mp157/14_blockio/blockio.c: a read waits for an event.
use learning_kernel.Prelude.{ℕ, ℤ, pos, none}
use learning_kernel.Kernel.Calls
use learning_kernel.Kernel.Calls.{Kernel}
use learning_kernel.Kernel.Files.{FileOperations, direct}
use learning_kernel.Kernel.Run.{M, ◌>>◌, run_call, pure}
use learning_kernel.IrqKeys

module _ (k : Kernel) where
  unfoldable pub key_interrupt_handler : M IrqKeys.KeyDev (Unit {0})
  unfolding IrqKeys.key_interrupt_handler
  key_interrupt_handler = IrqKeys.key_interrupt_handler k

  unfoldable pub key_irq_tasklet : M IrqKeys.KeyDev (Unit {0})
  unfolding IrqKeys.key_irq_tasklet
  key_irq_tasklet = IrqKeys.key_irq_tasklet k

  pub key_parse : M IrqKeys.KeyDev ℤ
  key_parse = IrqKeys.key_parse k

  pub key_gpio_init : M IrqKeys.KeyDev ℤ
  key_gpio_init = IrqKeys.key_gpio_init k (λ gpio. Calls.gpio_direction_output gpio 1)

  unfoldable pub timer_function : M IrqKeys.KeyDev (Unit {0})
  unfolding IrqKeys.sample
  timer_function = do IrqKeys.sample k; run_call k Calls.wake_up_interruptible

  -- The result of the wait is not looked at. At most `fires` times the timer fires in the wait.
  unfoldable pub kery_read : ℕ → M IrqKeys.KeyDev ℤ
  unfolding timer_function IrqKeys.hand_over IrqKeys.wait_event
  kery_read fires = do
    run_call k Calls.wait_event_interruptible
    IrqKeys.wait_event k timer_function fires
    IrqKeys.hand_over k

  pub mykey_init : M IrqKeys.KeyDev ℤ
  mykey_init = IrqKeys.init_with k (λ gpio. Calls.gpio_direction_output gpio 1)

  pub mykey_exit : M IrqKeys.KeyDev (Unit {0})
  mykey_exit = IrqKeys.mykey_exit k

pub key_open : M IrqKeys.KeyDev ℤ
key_open = pure (pos 0)

pub key_release : Unit {0} → M IrqKeys.KeyDev ℤ
key_release _ = pure (pos 0)

unfoldable pub timer_fops : Kernel → FileOperations IrqKeys.KeyDev ℕ (Unit {0})
unfolding key_open
timer_fops k = record {
  open_file = key_open;
  read = direct (kery_read k);
  write = none;
  unlocked_ioctl = none;
  poll = none;
  fasync = none;
  release = direct key_release;
}
