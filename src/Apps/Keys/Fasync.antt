-- ===== src/Apps/Keys/Fasync.antt =====
-- openedv/linux/stm32mp157/16_fasync/fasyncApp.c on fasync.c.
use learning_kernel.Prelude.{
  ℕ, zero, suc, ◌≤◌, ◌<◌, ℤ, pos, true, false, Bool, is_neg, List, [], ◌∷◌, ◌≡◌, ◌⊎◌, inl, inr,
  refl, arith,
}
use learning_kernel.Prelude.Bits.{bit_or}
use learning_kernel.Kernel.Calls.{Event, Kernel}
use learning_kernel.Kernel.Run.{World, M}
use learning_kernel.Apps.{Line, User, Outcome, press}
use learning_kernel.Apps.Keys.{
  Round, raised, ticks, handle, handle_loop, fasync_main, sigio_signal_func, nonblocking, fasync,
}
use learning_kernel.Apps.Keys.Changes.{Hears, Sampler, tick-Hears}
use learning_kernel.Apps.Keys.Hearing.{Caught, Copies, Catches, Prompt}
use learning_kernel.Apps.Keys.Blocking.{PrintsChanges, Quiet, line_level, asleep-Catches}
use learning_kernel.IrqKeys.{KeyDev, is_none}
use learning_kernel.IrqKeys.Fasync as Driver

abbrev pub fasync_app :
    Kernel
    → (List Event → ℤ → ℤ)
    → ℕ
    → ℤ
    → ℕ
    → List Round
    → World KeyDev
    → Outcome (User × World KeyDev)
fasync_app k torn = fasync_main torn k (Driver.timer_function k) (Driver.kery_read k)

-- F_GETFD returns 0 or FD_CLOEXEC, which is 1; neither has the bit of O_NONBLOCK.
blocking_lem : (fd_flags : ℕ) → fd_flags < 2 → nonblocking (bit_or fd_flags fasync) ≡ false
blocking_lem zero h = refl
blocking_lem (suc zero) h = refl
blocking_lem (suc (suc n)) h = absurd (omega arith)

module _ (k : Kernel) where
  pub sampler : Sampler
  unfolding Driver.timer_function
  sampler = record {
    tick = Driver.timer_function k;
    level = line_level k;
    tick_dev = λ w. refl;
    tick_log = λ w. refl;
  }

  module _ (torn : List Event → ℤ → ℤ) (first : ℤ) (copies : Copies k) where
    read-Catches : (fires : ℕ) → Catches torn first (Driver.kery_read k false fires)
    unfolding Driver.kery_read sampler
    read-Catches fires = asleep-Catches k torn sampler first fires copies

    abbrev app_round : Round → Bool × List Line → M KeyDev (Bool × List Line)
    app_round = handle torn (Driver.timer_function k) (Driver.kery_read k false) true

    abbrev app_loop : List Round → Bool × List Line → M KeyDev (Bool × List Line)
    app_loop = handle_loop torn (Driver.timer_function k) (Driver.kery_read k false) true

    -- A sample sends SIGIO.
    before_lem :
        (n : ℕ) (out : List Line) (w : World KeyDev)
        → n ≤ 1
        → Caught first out w
        → let w' = (ticks (Driver.timer_function k) n w).1 in
          Hears first out w' × ((w' ≡ w) ⊎ (raised w w' ≡ true))
    unfolding Driver.timer_function sampler
    before_lem zero out w le h = (h.0, inl refl)
    before_lem (suc zero) out w le h = (tick-Hears sampler first out w h.1 h.0, inr (ground arith))
    before_lem (suc (suc n)) out w le h = absurd (omega arith)

    round-Caught :
        (r : Round) (pending : Bool) (out : List Line) (w : World KeyDev)
        → r.before ≤ 1
        → Caught first out w
        → Caught first (app_round r (pending, out) w).0.1 (app_round r (pending, out) w).1
    round-Caught r pending out w before h =
        let w' = (ticks (Driver.timer_function k) r.before w).1 in
        let u : User = record { key_val = pos 0; out = out } in
        ground (arith, before_lem r.before out w before h, read-Catches r.during u w')

    loop-Caught :
        (rs : List Round) (pending : Bool) (out : List Line) (w : World KeyDev)
        → Prompt rs
        → Caught first out w
        → Caught first (app_loop rs (pending, out) w).0.1 (app_loop rs (pending, out) w).1
    loop-Caught [] pending out w prompt h = h
    loop-Caught (r ∷ rs) pending out w prompt h =
        let s = app_round r (pending, out) w in
        loop-Caught rs s.0.0 s.0.1 s.1 prompt.1 (round-Caught r pending out w prompt.0 h)

module _ (k : Kernel) (torn : List Event → ℤ → ℤ) where
  -- On fasync.c, with no sample and no event before the program starts, at most one sample between
  -- two runs of the handler, copies to the user that succeed and a driver that registers the
  -- program for SIGIO, fasyncApp prints a press or a release for each change of the line and
  -- nothing else, in order. All samples may come while the handler sleeps in its read, any number
  -- in each sleep, and other signals may end the sleeps.
  pub fasync_app-PrintsChanges :
      (fd fd_flags : ℕ) (rs : List Round) (w : World KeyDev)
      → fd_flags < 2
      → Copies k
      → Prompt rs
      → is_neg (Driver.key_fasync k w).0 ≡ false
      → Quiet w
      → PrintsChanges w.dev.last_value (fasync_app k torn 2 (pos fd) fd_flags rs w)
  unfolding Driver.key_fasync
  fasync_app-PrintsChanges fd fd_flags rs w flags copies prompt registered quiet =
      let w' = (Driver.key_fasync k w).1 in
      let h : Caught w.dev.last_value [] w' = ground arith in
      ground (
        arith,
        blocking_lem fd_flags flags,
        loop-Caught k torn w.dev.last_value copies rs false [] w' prompt h,
      )

  -- On a file that is non-blocking, the handler prints a press whenever there is no event: its read
  -- fails with -EAGAIN, and its `key_val` is 0.
  pub nonblocking_presses :
      (fires : ℕ) (out : List Line) (w : World KeyDev)
      → is_none w.dev.status ≡ true
      → (sigio_signal_func torn (Driver.kery_read k true fires) out w).0 ≡ press ∷ out
  unfolding Driver.kery_read
  nonblocking_presses fires out w none = ground arith
