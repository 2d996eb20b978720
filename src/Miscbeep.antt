-- ===== src/Miscbeep.antt =====
-- openedv/linux/stm32mp157/19_miscbeep/miscbeep.c: a buzzer on a gpio line, as a misc device.
pub mod Sounding
pub mod Lifecycle
pub mod Binding
mod Examples
use learning_kernel.Prelude.{
  ℕ, zero, ℤ, pos, Bool, is_neg, is_nonzero, not, if◌then◌else◌, ◌==◌, none,
}
use learning_kernel.Kernel.Calls
use learning_kernel.Kernel.Calls.{Kernel}
use learning_kernel.Kernel.Errno.{einval}
use learning_kernel.Kernel.Files.{FileOperations, direct}
use learning_kernel.Kernel.Run.{
  World, M, pure, ◌>>=◌, ◌>>◌, get, modify, run_call, call_status, call_int, call_status_out,
}

pub record BeepDevice : Type 0 where
  pub gpio : ℤ

-- `!value`
abbrev pub negation : ℕ → ℕ
negation value = if value == 0 then 1 else 0

module _ (k : Kernel) where
  -- The value of `cnt`, or the error of the parse.
  pub miscbeep_write : ℕ → M BeepDevice ℤ
  miscbeep_write cnt = do
    r ← call_status_out k (Calls.kstrtoul_from_user 0)
    if is_nonzero r.0
        then pure r.0
        else do d ← get; run_call k (Calls.gpio_set_value d.gpio (negation r.1)); pure (pos cnt)

  -- `gpio_is_valid` is the kernel's test of a line's number.
  pub miscbeep_gpio_init : (ℤ → Bool) → M BeepDevice ℤ
  miscbeep_gpio_init gpio_is_valid = do
    gpio ← call_int k (Calls.of_get_named_gpio "gpios")
    modify (λ d. record d { gpio = gpio })
    if not (gpio_is_valid gpio) then pure einval else do
      ret ← call_status k (Calls.gpio_request gpio)
      if is_nonzero ret
          then pure ret
          else do call_status k (Calls.gpio_direction_output gpio 1); pure (pos 0)

  -- The label `free_gpio` is reached whether `misc_register` fails or not.
  pub miscbeep_probe : (ℤ → Bool) → M BeepDevice ℤ
  unfolding miscbeep_gpio_init
  miscbeep_probe gpio_is_valid = do
    ret ← miscbeep_gpio_init gpio_is_valid
    if is_neg ret then pure ret else do
      call_status k Calls.misc_register
      d ← get
      run_call k (Calls.gpio_free d.gpio)
      pure (pos 0)

  pub miscbeep_remove : M BeepDevice ℤ
  miscbeep_remove = do
    d ← get
    run_call k (Calls.gpio_set_value d.gpio 1)
    run_call k (Calls.gpio_free d.gpio)
    run_call k Calls.misc_deregister
    pure (pos 0)

pub miscbeep_open : M BeepDevice ℤ
miscbeep_open = pure (pos 0)

pub miscbeep_release : Unit {0} → M BeepDevice ℤ
miscbeep_release _ = pure (pos 0)

unfoldable pub miscbeep_fops : Kernel → FileOperations BeepDevice (Unit {0}) ℕ
unfolding miscbeep_open
miscbeep_fops k = record {
  open_file = miscbeep_open;
  read = none;
  write = direct (miscbeep_write k);
  unlocked_ioctl = none;
  poll = none;
  fasync = none;
  release = direct miscbeep_release;
}
