-- ===== src/Gpioled.antt =====
-- openedv/linux/stm32mp157/05_gpioled/gpioled.c: an LED on a gpio line that the device tree names.
mod Lifecycle
mod Writing
mod Examples
use learning_kernel.Prelude.{ℕ, ℤ, pos, Option, Bool, not, is_neg, eqb_ℤ, if◌then◌else◌, ◌==◌, none}
use learning_kernel.Kernel.Calls
use learning_kernel.Kernel.Calls.{Kernel}
use learning_kernel.Kernel.Errno.{eio, einval}
use learning_kernel.Kernel.Files.{FileOperations, direct}
use learning_kernel.Kernel.Run.{
  World, M, pure, ◌>>=◌, ◌>>◌, get, modify, zoom, run_call, call_status, call_int, call_status_out,
}
use learning_kernel.Chrdev.{Chrdev, register, unregister}
use learning_kernel.DeviceTree.{check_node}

pub record GpioledDev : Type 0 where
  pub chr : Chrdev
  pub nd : Option ℕ
  pub led_gpio : ℤ

abbrev pub on_chr : {A : Type 0} → M Chrdev A → M GpioledDev A
on_chr = zoom (λ d. d.chr) (λ c d. record d { chr = c })

module _ (k : Kernel) where
  pub gpioled_parse : M GpioledDev ℤ
  unfolding check_node
  gpioled_parse = do
    bad ← check_node k "/gpioled" "alex,led" (λ nd d. record d { nd = nd })
    if is_neg bad then pure bad else do
      gpio ← call_int k (Calls.of_get_named_gpio "led-gpio")
      modify (λ d. record d { led_gpio = gpio })
      if is_neg gpio then pure einval else do
        ret ← call_status k (Calls.gpio_request gpio)
        if is_neg ret
            then pure ret
            else do call_status k (Calls.gpio_direction_output gpio 1); pure (pos 0)

  -- The value of `cnt`, or the error of the parse. A value other than 0 and 1 does nothing.
  pub led_write : ℕ → M GpioledDev ℤ
  led_write cnt = do
    r ← call_status_out k (Calls.kstrtoul_from_user 10)
    if not (eqb_ℤ r.0 (pos 0)) then pure r.0 else do
      d ← get
      if r.1 == 1
          then run_call k (Calls.gpio_set_value d.led_gpio 0)
          else if r.1 == 0
          then run_call k (Calls.gpio_set_value d.led_gpio 1)
          else pure tt
      pure (pos cnt)

  -- The result of `gpioled_parse` is not looked at.
  pub led_init : M GpioledDev ℤ
  unfolding gpioled_parse
  led_init = do
    gpioled_parse
    registered ← on_chr (register k)
    if registered
        then pure (pos 0)
        else do d ← get; run_call k (Calls.gpio_free d.led_gpio); pure eio

  pub led_exit : M GpioledDev (Unit {0})
  led_exit = do on_chr (unregister k); d ← get; run_call k (Calls.gpio_free d.led_gpio)

  -- The module is loaded and, if that went well, unloaded again.
  pub load_unload : World GpioledDev → World GpioledDev
  load_unload w = let r = led_init w in if is_neg r.0 then r.1 else (led_exit r.1).1

-- The rest of the file operations, and their table.
pub led_open : M GpioledDev ℤ
led_open = pure (pos 0)

pub led_read : ℕ → M GpioledDev ℤ
led_read cnt = pure (pos 0)

pub led_release : Unit {0} → M GpioledDev ℤ
led_release _ = pure (pos 0)

unfoldable pub gpioled_fops : Kernel → FileOperations GpioledDev ℕ ℕ
unfolding led_open
gpioled_fops k = record {
  open_file = led_open;
  read = direct led_read;
  write = direct (led_write k);
  unlocked_ioctl = none;
  poll = none;
  fasync = none;
  release = direct led_release;
}
