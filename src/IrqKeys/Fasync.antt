-- ===== src/IrqKeys/Fasync.antt =====
-- openedv/linux/stm32mp157/16_fasync/fasync.c: as noblockio.c, with a signal for each sample.
use learning_kernel.Prelude.{ℕ, ℤ, Bool, not, if◌then◌else◌, pos, none}
use learning_kernel.Kernel.Calls
use learning_kernel.Kernel.Calls.{Kernel}
use learning_kernel.Kernel.Errno.{eagain}
use learning_kernel.Kernel.Files.{FileOperations, direct}
use learning_kernel.Kernel.Run.{M, pure, ◌>>=◌, ◌>>◌, get, run_call, call_int}
use learning_kernel.IrqKeys

module _ (k : Kernel) where
  unfoldable pub key_interrupt_handler : M IrqKeys.KeyDev (Unit {0})
  unfolding IrqKeys.key_interrupt_handler
  key_interrupt_handler = IrqKeys.key_interrupt_handler k

  unfoldable pub key_irq_tasklet : M IrqKeys.KeyDev (Unit {0})
  unfolding IrqKeys.key_irq_tasklet
  key_irq_tasklet = IrqKeys.key_irq_tasklet k

  pub key_parse : M IrqKeys.KeyDev ℤ
  key_parse = IrqKeys.key_parse k

  pub key_gpio_init : M IrqKeys.KeyDev ℤ
  key_gpio_init = IrqKeys.key_gpio_init k (λ gpio. Calls.gpio_direction_output gpio 1)

  unfoldable pub timer_function : M IrqKeys.KeyDev (Unit {0})
  unfolding IrqKeys.sample
  timer_function = do
    IrqKeys.sample k
    run_call k Calls.wake_up_interruptible
    run_call k Calls.kill_fasync

  unfoldable pub blocking_read : ℕ → M IrqKeys.KeyDev ℤ
  unfolding timer_function IrqKeys.hand_over IrqKeys.wait_event
  blocking_read fires = do
    run_call k Calls.wait_event_interruptible
    IrqKeys.wait_event k timer_function fires
    IrqKeys.hand_over k

  -- `nonblock` is `filp->f_flags & O_NONBLOCK`. At most `fires` times the timer fires in the wait,
  -- whose result is not looked at.
  unfoldable pub kery_read : Bool → ℕ → M IrqKeys.KeyDev ℤ
  unfolding blocking_read
  kery_read nonblock fires = do
    d ← get
    if not nonblock
        then blocking_read fires
        else if IrqKeys.is_none d.status
        then pure eagain
        else IrqKeys.hand_over k

  -- POLLIN | POLLRDNORM, or nothing.
  unfoldable pub key_poll : M IrqKeys.KeyDev ℕ
  key_poll = do
    run_call k Calls.poll_wait
    d ← get
    if IrqKeys.is_none d.status then pure 0 else pure 0x41

  unfoldable pub key_fasync : M IrqKeys.KeyDev ℤ
  key_fasync = call_int k Calls.fasync_helper

  pub mykey_init : M IrqKeys.KeyDev ℤ
  mykey_init = IrqKeys.init_with k (λ gpio. Calls.gpio_direction_output gpio 1)

  pub mykey_exit : M IrqKeys.KeyDev (Unit {0})
  mykey_exit = IrqKeys.mykey_exit k

pub key_open : M IrqKeys.KeyDev ℤ
key_open = pure (pos 0)

pub key_release : Unit {0} → M IrqKeys.KeyDev ℤ
key_release _ = pure (pos 0)

unfoldable pub timer_fops : Kernel → FileOperations IrqKeys.KeyDev (Bool × ℕ) (Unit {0})
unfolding key_open
timer_fops k = record {
  open_file = key_open;
  read = direct (λ r. kery_read k r.0 r.1);
  write = none;
  unlocked_ioctl = none;
  poll = direct (λ _. key_poll k);
  fasync = direct (λ _. key_fasync k);
  release = direct key_release;
}
