-- ===== src/Apps/Keys/Noblockio.antt =====
-- openedv/linux/stm32mp157/15_noblockio/noblockioApp.c on noblockio.c.
use learning_kernel.Prelude.{
  ℕ, zero, suc, ◌≤◌, ℤ, pos, negsuc, true, false, List, [], ◌∷◌, ◌≡◌, ◌⊎◌, refl, arith,
}
use learning_kernel.Kernel.Calls
use learning_kernel.Kernel.Calls.{Event, Kernel}
use learning_kernel.Kernel.Run.{World, M}
use learning_kernel.Apps.{Line, User, Outcome, spoken}
use learning_kernel.Apps.Keys.{
  Waiting, ticks, select, select_and_read, select_loop, select_main, read_and_print,
}
use learning_kernel.Apps.Keys.Changes.{Hears, Sampler, tick-Hears}
use learning_kernel.Apps.Keys.Hearing.{Caught, Copies, hand_over-Catches, ticks-Hears}
use learning_kernel.Apps.Keys.Blocking.{PrintsChanges, Quiet, line_level}
use learning_kernel.IrqKeys.{KeyDev, is_none}
use learning_kernel.IrqKeys.Noblockio as Driver

abbrev pub noblockio_app :
    Kernel
    → (List Event → ℤ → ℤ)
    → ℕ
    → ℤ
    → ℤ
    → List Waiting
    → World KeyDev
    → Outcome (User × World KeyDev)
noblockio_app k torn =
    select_main torn (Driver.timer_function k) (Driver.key_poll k) (Driver.kery_read k true 0)

-- At most one sample comes between two rounds, and none between the return of `select` and the
-- read.
abbrev pub Ready : List Waiting → Type 0
Ready [] = Unit {0}
Ready (r ∷ rs) = (r.before ≤ 1) × (r.between ≡ 0) × Ready rs

module _ (k : Kernel) where
  pub sampler : Sampler
  unfolding Driver.timer_function
  sampler = record {
    tick = Driver.timer_function k;
    level = line_level k;
    tick_dev = λ w. refl;
    tick_log = λ w. refl;
  }

  -- After `select` the file is readable if it returned 1, and has no event if it returned -1.
  abbrev Selected : ℤ → List Line → ℤ × World KeyDev → Type 0
  Selected first out r =
      Hears first out r.1
      × ((r.0 ≡ pos 1) × (is_none r.1.dev.status ≡ false)
          ⊎ (r.0 ≡ negsuc 0) × (is_none r.1.dev.status ≡ true))

  select-Selected :
      (first : ℤ) (out : List Line) (n : ℕ) (w : World KeyDev)
      → Hears first out w
      → Selected first out (select (sampler).tick (Driver.key_poll k) n w)
  unfolding Driver.key_poll
  select-Selected first out zero w h = ground arith
  select-Selected first out (suc n) w h =
      let polled : World KeyDev = record w {
        log = record { call = Calls.poll_wait; ret = pos 0; out = 0 } ∷ w.log;
      } in
      ground (
        arith,
        tick-Hears sampler first out polled,
        select-Selected first out n ((sampler).tick polled).1,
      )

  module _ (torn : List Event → ℤ → ℤ) (first : ℤ) (copies : Copies k) where
    ready-Catches :
        (u : User) (w : World KeyDev)
        → is_none w.dev.status ≡ false
        → Hears first u.out w
        → Caught first
            (read_and_print torn (Driver.kery_read k true 0) u w).0.out
            (read_and_print torn (Driver.kery_read k true 0) u w).1
    unfolding Driver.kery_read
    ready-Catches u w some h = ground (arith, hand_over-Catches k torn first copies u w h)

    abbrev app_round : Waiting → User → M KeyDev User
    app_round = select_and_read torn (sampler).tick (Driver.key_poll k) (Driver.kery_read k true 0)

    abbrev app_loop : List Waiting → User → M KeyDev User
    app_loop = select_loop torn (sampler).tick (Driver.key_poll k) (Driver.kery_read k true 0)

    round-Caught :
        (r : Waiting) (u : User) (w : World KeyDev)
        → r.before ≤ 1
        → r.between ≡ 0
        → Caught first u.out w
        → Caught first (app_round r u w).0.out (app_round r u w).1
    round-Caught r u w before between h =
        let w' = (ticks (sampler).tick r.before w).1 in
        let s = select (sampler).tick (Driver.key_poll k) r.asleep w' in
        ground (
          arith,
          between,
          select-Selected first u.out r.asleep w' (
              ticks-Hears sampler torn first (λ _. Driver.kery_read k true 0) r.before u.out w
                before h),
          ready-Catches u s.1,
        )

    loop-Caught :
        (rs : List Waiting) (u : User) (w : World KeyDev)
        → Ready rs
        → Caught first u.out w
        → Caught first (app_loop rs u w).0.out (app_loop rs u w).1
    loop-Caught [] u w ready h = h
    loop-Caught (r ∷ rs) u w ready h =
        loop-Caught rs (app_round r u w).0 (app_round r u w).1 ready.2
          (round-Caught r u w ready.0 ready.1 h)

module _ (k : Kernel) (torn : List Event → ℤ → ℤ) where
  -- On noblockio.c, with no sample and no event before the program starts, at most one sample
  -- between two rounds and none between the return of `select` and the read, and copies to the user
  -- that succeed, noblockioApp prints a press or a release for each change of the line and nothing
  -- else, in order. All samples may come while it sleeps in `select`, any number in each sleep, and
  -- signals may end the sleeps.
  pub noblockio_app-PrintsChanges :
      (fd : ℕ) (garbage : ℤ) (rs : List Waiting) (w : World KeyDev)
      → Copies k
      → Ready rs
      → Quiet w
      → PrintsChanges w.dev.last_value (noblockio_app k torn 2 (pos fd) garbage rs w)
  unfolding sampler
  noblockio_app-PrintsChanges fd garbage rs w copies ready quiet =
      let u : User = record { key_val = garbage; out = [] } in
      let h : Caught w.dev.last_value [] w = ground arith in
      ground (arith, loop-Caught k torn w.dev.last_value copies rs u w ready h)

  -- If `select` returns with the file readable and a sample with no change comes before the read,
  -- the read fails with -EAGAIN, and the program prints its last value of `key_val` once more.
  pub noblockio_app-repeats :
      (u : User) (w : World KeyDev)
      → is_none w.dev.status ≡ false
      → line_level k w ≡ w.dev.last_value
      → let late = (Driver.timer_function k w).1 in
        (read_and_print torn (Driver.kery_read k true 0) u late).0
        ≡ record { key_val = u.key_val; out = spoken u.key_val u.out }
  unfolding Driver.kery_read Driver.timer_function
  noblockio_app-repeats u w pending same = ground arith
