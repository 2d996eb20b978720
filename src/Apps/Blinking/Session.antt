-- ===== src/Apps/Blinking/Session.antt =====
-- What timerApp.c leaves behind, and what it makes of a period and a stop that are typed.
use learning_kernel.Prelude.{
  ℕ, zero, suc, ◌<◌, ◌%◌, ◌^◌, false, some, List, [], ◌∷◌, pos, ◌≡◌, refl, arith,
}
use learning_kernel.Kernel.Calls.{Kernel}
use learning_kernel.Kernel.Run.{World}
use learning_kernel.Kernel.Ledger.{ledger}
use learning_kernel.Timer.{
  TimerDev, fires, timer_init, timer_open, close_cmd, setperiod_cmd, load_use_unload,
}
use learning_kernel.Timer.Lifecycle.{timer_module_clean, init_holds, exit_releases}
use learning_kernel.Timer.Running.{
  flipped, shown_levels, delays, blinks, repeated, fires-blink, ioctl-fires, fires-shown,
  close-shown, setperiod-shown,
}
use learning_kernel.Apps.Blinking.{
  Entry, Vars, control, while_loop, while_loop-acts, timer_main, session, todo,
}

module _ (k : Kernel) where
  -- With a file argument the program does to the driver what its entries say.
  session-load_use_unload :
      (garbage : Vars) (es : List Entry) (w : World TimerDev)
      → session k 2 garbage es w ≡ load_use_unload k (todo es garbage) w
  unfolding session timer_main load_use_unload
  session-load_use_unload garbage es w =
      let i = timer_init k w in
      let o = timer_open k i.1 in ground (arith, while_loop-acts k es garbage o.1)

  -- For a driver that holds nothing at first: loading timer.c, running timerApp with any number of
  -- arguments, any input (numbers and anything else, to the end or until the program is killed) and
  -- any expiries of the timer while it waits, and unloading the module give back every resource
  -- once, whichever call fails.
  pub session_clean :
      (argc : ℕ) (garbage : Vars) (es : List Entry) (w : World TimerDev)
      → ledger w.log ≡ some []
      → ledger (session k argc garbage es w).log ≡ some []
  unfolding session timer_main
  session_clean argc garbage es w h =
      let i = timer_init k w in
      ground (
        arith,
        session-load_use_unload garbage es w,
        timer_module_clean k (todo es garbage) w h,
        init_holds k w h,
        exit_releases k i.1 i.1.dev.chr refl,
      )

  abbrev typing : ℕ → ℕ → Entry
  typing waited n = record { waited = waited; typed = some n }

  stop-while_loop :
      (n : ℕ) (es : List Entry) (v : Vars) (w : World TimerDev)
      → while_loop k (typing n 1 ∷ es) v w
        ≡ while_loop k es
            (record { cmd = close_cmd; arg = v.arg })
            (control k close_cmd v.arg (fires k n w))
  unfolding while_loop
  stop-while_loop n [] v w = refl
  stop-while_loop n (e ∷ es) v w = refl

  blinked :
      (n p : ℕ) (w : World TimerDev)
      → p < 2 ^ 31
      → (control k close_cmd p (fires k n (control k setperiod_cmd p w))).dev
        ≡ record w.dev { timeperiod = pos p; pending = false; sta = flipped n w.dev.sta }
  unfolding fires flipped
  blinked zero p w h =
      let started = control k setperiod_cmd p w in
      ground (arith, ioctl-fires k 0 p w h, ioctl-fires k 0 p started h)
  blinked (suc n) p w h =
      let started = control k setperiod_cmd p w in
      ground (
        arith,
        ioctl-fires k 0 p w h,
        fires-blink k n started,
        ioctl-fires k 0 p (fires k (suc n) started) h,
      )

  shown :
      (n p : ℕ) (w : World TimerDev)
      → p < 2 ^ 31
      → let w' = control k close_cmd p (fires k n (control k setperiod_cmd p w)) in
        (shown_levels w.dev.led_gpio w'.log
          ≡ blinks n w.dev.sta (shown_levels w.dev.led_gpio w.log))
        × (delays w'.log ≡ repeated n (pos p) (pos p ∷ delays w.log))
  shown n p w h =
      let started = control k setperiod_cmd p w in
      let armed = (ioctl-fires k 0 p w h).2 in
      ground (
        arith,
        ioctl-fires k 0 p w h,
        setperiod-shown k p w.dev.led_gpio w h,
        fires-shown k n started,
        close-shown k p w.dev.led_gpio (fires k n started),
      )

  -- Typing 3, a period that an int holds, and 1 after `n` expiries: the timer is set to that period
  -- at once and again at each expiry, and to nothing else; the LED's line is given the other level
  -- at each expiry, and no other; at the end the timer is stopped and the device knows the period and
  -- the level; and the program asks for the next command with what has been typed in its variables.
  pub period_and_stop :
      (n p : ℕ) (es : List Entry) (v : Vars) (w : World TimerDev)
      → p < 2 ^ 31
      → let w' = control k close_cmd p (fires k n (control k setperiod_cmd p w)) in
        (while_loop k (typing 0 3 ∷ typing 0 p ∷ typing n 1 ∷ es) v w
          ≡ while_loop k es (record { cmd = close_cmd; arg = p }) w')
        × (w'.dev ≡ record w.dev { timeperiod = pos p; pending = false; sta = flipped n w.dev.sta })
        × (shown_levels w.dev.led_gpio w'.log
            ≡ blinks n w.dev.sta (shown_levels w.dev.led_gpio w.log))
        × (delays w'.log ≡ repeated n (pos p) (pos p ∷ delays w.log))
  unfolding while_loop fires
  period_and_stop n p es v w h =
      let whole : p % 2 ^ 32 ≡ p = omega (arith, h) in
      let started = control k setperiod_cmd p w in
      (
        rw whole (stop-while_loop n es (record { cmd = setperiod_cmd; arg = p }) started),
        blinked n p w h,
        (shown n p w h).0,
        (shown n p w h).1,
      )
