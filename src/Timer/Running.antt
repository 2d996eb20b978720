-- ===== src/Timer/Running.antt =====
-- How the LED of timer.c blinks, and what the ioctl commands do.
use learning_kernel.Prelude.{
  ℕ, zero, suc, ◌<◌, ◌^◌, ℤ, pos, [], ◌≡◌, eqb_ℤ, if◌then◌else◌, Bool, true, false, not, List, ◌∷◌,
  some, none, refl, arith, eqb_ℤ-refl,
}
use learning_kernel.Kernel.Calls
use learning_kernel.Kernel.Calls.{Kernel, Event}
use learning_kernel.Kernel.Run.{World}
use learning_kernel.Kernel.Ledger.{Resource, ledger, holds}
use learning_kernel.Kernel.Lines.{line}
use learning_kernel.Timer.{
  TimerDev, bit, fire, fires, timer_unlocked_ioctl, close_cmd, setperiod_cmd, give_line_back,
}

-- `b` after `n` changes.
unfoldable pub flipped : ℕ → Bool → Bool
flipped zero b = b
flipped (suc n) b = flipped n (not b)

-- The levels that the line has been given, and the delays that the timer has been set to, newest
-- first.
abbrev pub shown_levels : ℤ → List Event → List ℕ
shown_levels g [] = []
shown_levels g (e ∷ es) = elim e.call [
  | Calls.gpio_set_value h v ↦ if eqb_ℤ g h then v ∷ shown_levels g es else shown_levels g es
  | _ ↦ shown_levels g es
]

abbrev pub delays : List Event → List ℤ
delays [] = []
delays (e ∷ es) = elim e.call [ Calls.mod_timer ms ↦ ms ∷ delays es | _ ↦ delays es ]

-- `n` changes of a level that was `b`, and `n` times the same delay, on top of what was there.
unfoldable pub blinks : ℕ → Bool → List ℕ → List ℕ
blinks zero b before = before
blinks (suc n) b before = blinks n (not b) (bit (not b) ∷ before)

unfoldable pub repeated : ℕ → ℤ → List ℤ → List ℤ
repeated zero ms before = before
repeated (suc n) ms before = repeated n ms (ms ∷ before)

module _ (k : Kernel) where
  fire-shown :
      (w : World TimerDev)
      → w.dev.pending ≡ true
      → ((fire k w).dev ≡ record w.dev { sta = not w.dev.sta })
        × (shown_levels w.dev.led_gpio (fire k w).log
            ≡ bit (not w.dev.sta) ∷ shown_levels w.dev.led_gpio w.log)
        × (delays (fire k w).log ≡ w.dev.timeperiod ∷ delays w.log)
  unfolding fire
  fire-shown w h = ground (arith, eqb_ℤ-refl w.dev.led_gpio)

  -- Each expiry of an armed timer gives the LED's line the other level and sets the timer again.
  pub fires-shown :
      (n : ℕ) (w : World TimerDev)
      → w.dev.pending ≡ true
      → (shown_levels w.dev.led_gpio (fires k n w).log
          ≡ blinks n w.dev.sta (shown_levels w.dev.led_gpio w.log))
        × (delays (fires k n w).log ≡ repeated n w.dev.timeperiod (delays w.log))
  unfolding fires blinks repeated
  fires-shown zero w h = (refl, refl)
  fires-shown (suc n) w h = ground (arith, fire-shown w h, fires-shown n (fire k w))

  pub close-shown :
      (arg : ℕ) (g : ℤ) (w : World TimerDev)
      → let closed = (timer_unlocked_ioctl k close_cmd arg w).1 in
        (shown_levels g closed.log ≡ shown_levels g w.log) × (delays closed.log ≡ delays w.log)
  unfolding timer_unlocked_ioctl
  close-shown arg g w = (refl, refl)

  pub setperiod-shown :
      (arg : ℕ) (g : ℤ) (w : World TimerDev)
      → arg < 2 ^ 31
      → let started = (timer_unlocked_ioctl k setperiod_cmd arg w).1 in
        (shown_levels g started.log ≡ shown_levels g w.log)
        × (delays started.log ≡ pos arg ∷ delays w.log)
  unfolding timer_unlocked_ioctl
  setperiod-shown arg g w h = ground arith

  fire-pending :
      (w : World TimerDev)
      → w.dev.pending ≡ true
      → ((fire k w).dev ≡ record w.dev { sta = not w.dev.sta })
        × (line w.dev.led_gpio (fire k w).log ≡ some (bit (not w.dev.sta)))
  unfolding fire
  fire-pending w h = ground (arith, eqb_ℤ-refl w.dev.led_gpio)

  -- An armed timer blinks for ever: after any positive number of expiries it is armed again, with
  -- the same period, and the LED's line has changed its level once for each of them.
  pub fires-blink :
      (n : ℕ) (w : World TimerDev)
      → w.dev.pending ≡ true
      → ((fires k (suc n) w).dev ≡ record w.dev { sta = flipped (suc n) w.dev.sta })
        × (line w.dev.led_gpio (fires k (suc n) w).log ≡ some (bit (flipped (suc n) w.dev.sta)))
  unfolding fires flipped
  fires-blink zero w h = fire-pending w h
  fires-blink (suc n) w h = ground (arith, fire-pending w h, fires-blink n (fire k w))

  fires-idle : (n : ℕ) (w : World TimerDev) → w.dev.pending ≡ false → fires k n w ≡ w
  unfolding fires fire
  fires-idle zero w h = refl
  fires-idle (suc n) w h = ground (arith, fires-idle n w h)

  close-fires :
      (n arg : ℕ) (w : World TimerDev)
      → let closed = (timer_unlocked_ioctl k close_cmd arg w).1 in
        (closed.dev ≡ record w.dev { pending = false }) × (fires k n closed ≡ closed)
  unfolding timer_unlocked_ioctl
  close-fires n arg w = (ground arith, fires-idle n _ (ground arith))

  setperiod-fires :
      (n arg : ℕ) (w : World TimerDev)
      → arg < 2 ^ 31
      → let started = (timer_unlocked_ioctl k setperiod_cmd arg w).1 in
        (started.dev ≡ record w.dev { timeperiod = pos arg; pending = true })
        × ((fires k (suc n) started).dev.timeperiod ≡ pos arg)
        × ((fires k (suc n) started).dev.pending ≡ true)
  unfolding timer_unlocked_ioctl
  setperiod-fires n arg w h =
      ground (arith, fires-blink n (timer_unlocked_ioctl k setperiod_cmd arg w).1)

  -- After CLOSE_CMD the timer is still, however long one waits, and no call is made; SETPERIOD_CMD
  -- with a number of milliseconds that an int holds starts the timer with that period, which every
  -- later expiry keeps.
  pub ioctl-fires :
      (n arg : ℕ) (w : World TimerDev)
      → arg < 2 ^ 31
      → let closed = (timer_unlocked_ioctl k close_cmd arg w).1 in
        let started = (timer_unlocked_ioctl k setperiod_cmd arg w).1 in
        (closed.dev ≡ record w.dev { pending = false })
        × (fires k n closed ≡ closed)
        × (started.dev ≡ record w.dev { timeperiod = pos arg; pending = true })
        × ((fires k (suc n) started).dev.timeperiod ≡ pos arg)
        × ((fires k (suc n) started).dev.pending ≡ true)
  ioctl-fires n arg w h =
      let closed = close-fires n arg w in
      let started = setperiod-fires n arg w h in
      (closed.0, closed.1, started.0, started.1, started.2)

  -- If the timer is pending and expires between the two halves of `led_release`, it writes to a
  -- line that has been given back.
  pub release-fire :
      (w : World TimerDev) (rs : List Resource)
      → w.dev.pending ≡ true
      → holds (Resource.gpio w.dev.led_gpio) rs ≡ false
      → ledger w.log ≡ some (Resource.gpio w.dev.led_gpio ∷ rs)
      → ledger (fire k (give_line_back k w).1).log ≡ none
  unfolding fire give_line_back
  release-fire w rs p n h = ground (arith, eqb_ℤ-refl w.dev.led_gpio)
