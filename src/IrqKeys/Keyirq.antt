-- ===== src/IrqKeys/Keyirq.antt =====
-- openedv/linux/stm32mp157/13_irq/keyirq.c: a read returns at once, with or without an event.
use learning_kernel.Prelude.{ℤ, pos, none}
use learning_kernel.Kernel.Calls
use learning_kernel.Kernel.Calls.{Kernel}
use learning_kernel.Kernel.Files.{FileOperations, direct}
use learning_kernel.Kernel.Run.{M, pure}
use learning_kernel.IrqKeys

module _ (k : Kernel) where
  unfoldable pub key_interrupt_handler : M IrqKeys.KeyDev (Unit {0})
  unfolding IrqKeys.key_interrupt_handler
  key_interrupt_handler = IrqKeys.key_interrupt_handler k

  unfoldable pub key_irq_tasklet : M IrqKeys.KeyDev (Unit {0})
  unfolding IrqKeys.key_irq_tasklet
  key_irq_tasklet = IrqKeys.key_irq_tasklet k

  pub key_parse : M IrqKeys.KeyDev ℤ
  key_parse = IrqKeys.key_parse k

  pub key_gpio_init : M IrqKeys.KeyDev ℤ
  key_gpio_init = IrqKeys.key_gpio_init k Calls.gpio_direction_input

  unfoldable pub kery_read : M IrqKeys.KeyDev ℤ
  unfolding IrqKeys.hand_over
  kery_read = IrqKeys.hand_over k

  unfoldable pub timer_function : M IrqKeys.KeyDev (Unit {0})
  unfolding IrqKeys.sample
  timer_function = IrqKeys.sample k

  pub mykey_init : M IrqKeys.KeyDev ℤ
  mykey_init = IrqKeys.init_with k Calls.gpio_direction_input

  pub mykey_exit : M IrqKeys.KeyDev (Unit {0})
  mykey_exit = IrqKeys.mykey_exit k

pub key_open : M IrqKeys.KeyDev ℤ
key_open = pure (pos 0)

pub key_release : Unit {0} → M IrqKeys.KeyDev ℤ
key_release _ = pure (pos 0)

unfoldable pub timer_fops : Kernel → FileOperations IrqKeys.KeyDev (Unit {0}) (Unit {0})
unfolding key_open
timer_fops k = record {
  open_file = key_open;
  read = direct (λ _. kery_read k);
  write = none;
  unlocked_ioctl = none;
  poll = none;
  fasync = none;
  release = direct key_release;
}
