-- ===== src/Timer.antt =====
-- openedv/linux/stm32mp157/12_timer/timer.c: a timer that blinks an LED, set up by ioctl.
pub mod Running
pub mod Races
pub mod Lifecycle
mod Examples
use learning_kernel.Prelude.{
  ℕ, zero, suc, ◌+◌, ℤ, pos, Option, none, some, Bool, true, false, not, is_neg, if◌then◌else◌,
  ◌==◌, to_int, List, [], ◌∷◌, signed32, ◌%◌, ◌^◌,
}
use learning_kernel.Kernel.Calls
use learning_kernel.Kernel.Calls.{Kernel}
use learning_kernel.Kernel.Errno.{eio, einval}
use learning_kernel.Kernel.Files.{FileOperations, direct}
use learning_kernel.Kernel.Run.{
  World, M, pure, ◌>>=◌, ◌>>◌, get, modify, zoom, run_call, call_status, call_int,
}
use learning_kernel.Chrdev.{Chrdev, register, unregister}
use learning_kernel.DeviceTree.{check_node}

-- struct timer_dev, with the static `sta` of `timer_function` as a Boolean, and whether the timer
-- is pending, which mod_timer and del_timer_sync change.
pub record TimerDev : Type 0 where
  pub chr : Chrdev
  pub nd : Option ℕ
  pub led_gpio : ℤ
  pub timeperiod : ℤ
  pub sta : Bool
  pub pending : Bool

abbrev pub on_chr : {A : Type 0} → M Chrdev A → M TimerDev A
on_chr = zoom (λ d. d.chr) (λ c d. record d { chr = c })

-- _IO(0xEF, 1), _IO(0xEF, 2) and _IO(0xEF, 3)
abbrev pub close_cmd : ℕ
close_cmd = 0xEF01

abbrev pub open_cmd : ℕ
open_cmd = 0xEF02

abbrev pub setperiod_cmd : ℕ
setperiod_cmd = 0xEF03

abbrev pub bit : Bool → ℕ
bit true = 1
bit false = 0

module _ (k : Kernel) where
  mod_timer : ℤ → M TimerDev (Unit {0})
  mod_timer ms = do run_call k (Calls.mod_timer ms); modify (λ d. record d { pending = true })

  del_timer_sync : M TimerDev (Unit {0})
  del_timer_sync = do run_call k Calls.del_timer_sync; modify (λ d. record d { pending = false })

  -- A failure of `gpio_direction_output` is only printed.
  pub led_parse : M TimerDev ℤ
  unfolding check_node
  led_parse = do
    bad ← check_node k "/gpioled" "alex,led" (λ nd d. record d { nd = nd })
    if is_neg bad then pure bad else do
      gpio ← call_int k (Calls.of_get_named_gpio "led-gpio")
      modify (λ d. record d { led_gpio = gpio })
      if is_neg gpio then pure einval else do
        ret ← call_status k (Calls.gpio_request gpio)
        if is_neg ret
            then pure ret
            else do call_status k (Calls.gpio_direction_output gpio 1); pure (pos 0)

  pub timer_open : M TimerDev ℤ
  unfolding led_parse
  timer_open = do modify (λ d. record d { timeperiod = pos 1000 }); led_parse

  set_period : ℕ → M TimerDev (Unit {0})
  unfolding mod_timer
  set_period arg = do
    run_call k Calls.spin_lock_irqsave
    modify (λ d. record d { timeperiod = signed32 (arg % 2 ^ 32) })
    run_call k Calls.spin_unlock_irqrestore
    d ← get
    mod_timer d.timeperiod

  -- A command that is none of the three returns 0 too. `arg` is an unsigned long, put into an int.
  pub timer_unlocked_ioctl : ℕ → ℕ → M TimerDev ℤ
  unfolding mod_timer del_timer_sync set_period
  timer_unlocked_ioctl cmd arg = do
    d ← get
    if cmd == close_cmd
        then del_timer_sync
        else if cmd == open_cmd
        then mod_timer d.timeperiod
        else if cmd == setperiod_cmd
        then set_period arg
        else pure tt
    pure (pos 0)

  -- The first two calls of `led_release`. The timer may still be pending here.
  pub give_line_back : M TimerDev (Unit {0})
  give_line_back = do
    d ← get
    run_call k (Calls.gpio_set_value d.led_gpio 1)
    run_call k (Calls.gpio_free d.led_gpio)

  pub led_release : M TimerDev ℤ
  unfolding give_line_back del_timer_sync
  led_release = do give_line_back; del_timer_sync; pure (pos 0)

  pub timer_function : M TimerDev (Unit {0})
  unfolding mod_timer
  timer_function = do
    modify (λ d. record d { sta = not d.sta })
    d ← get
    run_call k (Calls.gpio_set_value d.led_gpio (bit d.sta))
    mod_timer d.timeperiod

  pub timer_init : M TimerDev ℤ
  timer_init = do
    registered ← on_chr (register k)
    if registered then (do run_call k Calls.timer_setup; pure (pos 0)) else pure eio

  pub mykey_exit : M TimerDev (Unit {0})
  unfolding del_timer_sync
  mykey_exit = do del_timer_sync; on_chr (unregister k)

  -- The kernel's timer: a pending timer fires once, and is not pending while its function runs.
  pub fire : World TimerDev → World TimerDev
  unfolding timer_function
  fire w =
      if w.dev.pending
      then (timer_function (record w { dev = record w.dev { pending = false } })).1
      else w

  unfoldable pub fires : ℕ → World TimerDev → World TimerDev
  fires zero w = w
  fires (suc n) w = fires n (fire w)

-- What happens while the file is open.
pub data Action : Type 0 where
  ioctls : ℕ → ℕ → Action
  firing : Action

module _ (k : Kernel) where
  unfoldable pub act : Action → World TimerDev → World TimerDev
  act (ioctls cmd arg) w = (timer_unlocked_ioctl k cmd arg w).1
  act firing w = fire k w

  unfoldable pub acts : List Action → World TimerDev → World TimerDev
  acts [] w = w
  acts (a ∷ rest) w = acts rest (act a w)

  -- The module is loaded, the device opened, used and closed, and the module unloaded.
  unfoldable pub load_use_unload : List Action → World TimerDev → World TimerDev
  load_use_unload todo w =
      let i = timer_init k w in
      let o = timer_open k i.1 in
      if is_neg i.0
      then i.1
      else if is_neg o.0
      then (mykey_exit k o.1).1
      else (mykey_exit k (led_release k (acts todo o.1)).1).1

unfoldable pub timer_fops : Kernel → FileOperations TimerDev (Unit {0}) (Unit {0})
timer_fops k = record {
  open_file = timer_open k;
  read = none;
  write = none;
  unlocked_ioctl = direct (λ c. timer_unlocked_ioctl k c.0 c.1);
  poll = none;
  fasync = none;
  release = direct (λ _. led_release k);
}
