-- ===== src/Apps/Keys/Sessions.antt =====
-- The four interrupt-driven key drivers from loading to unloading, with their programs in between.
use learning_kernel.Prelude.{
  ℕ, ℤ, false, true, not, List, [], some, ◌≡◌, arith, is_nonzero, is_neg, if◌then◌else◌,
}
use learning_kernel.Prelude.Bits.{bit_or}
use learning_kernel.Kernel.Calls
use learning_kernel.Kernel.Calls.{Event, Kernel}
use learning_kernel.Kernel.Run.{World}
use learning_kernel.Kernel.Ledger.{ledger}
use learning_kernel.Chrdev.{Chrdev}
use learning_kernel.Apps.{User, Outcome, started}
use learning_kernel.Apps.Keys.{Round, Waiting, nonblocking, fasync}
use learning_kernel.Apps.Keys.Blocking.{keyirq_app, blockio_app}
use learning_kernel.Apps.Keys.Noblockio.{noblockio_app}
use learning_kernel.Apps.Keys.Fasync.{fasync_app}
use learning_kernel.Apps.Keys.Holding
use learning_kernel.Apps.Keys.Holding.{
  Loaded, key_loop-Keeps, select_loop-Keeps, handle_loop-Keeps, key_fasync-Keeps,
}
use learning_kernel.IrqKeys.{KeyDev, init_with, mykey_exit}
use learning_kernel.IrqKeys.Keyirq
use learning_kernel.IrqKeys.Blockio
use learning_kernel.IrqKeys.Noblockio
use learning_kernel.IrqKeys.Fasync
use learning_kernel.IrqKeys.Lifecycle.{
  Loads, Leaves, direction_failed, init-Loads, input-SetsUp, output-SetsUp, exit_releases,
}

-- The world that a program leaves when it has ended or is killed in its loop.
abbrev pub after : Outcome (User × World KeyDev) → World KeyDev → World KeyDev
after (Outcome.exited status out) w = w
after (Outcome.running (u, w')) w = w'

-- The program keeps what the loaded driver holds.
abbrev KeepsLoaded : (World KeyDev → Outcome (User × World KeyDev)) → Type 0
KeepsLoaded app =
    (c : Chrdev) (g : ℤ) (i : ℤ) (w : World KeyDev)
    → Loaded c g i w
    → Loaded c g i (after (app w) w)

-- The module is loaded, and, if that went well, the program is run and the module unloaded.
abbrev pub session :
    Kernel
    → (ℤ → Calls.Call)
    → (World KeyDev → Outcome (User × World KeyDev))
    → World KeyDev
    → World KeyDev
session k direction app w =
    let i = init_with k direction w in
    if is_nonzero i.0 then i.1 else (mykey_exit k (after (app i.1) i.1)).1

session-Leaves :
    (k : Kernel) (direction : ℤ → Calls.Call) (app : World KeyDev → Outcome (User × World KeyDev))
    (w : World KeyDev)
    → KeepsLoaded app
    → Loads (init_with k direction w)
    → Leaves (session k direction app w)
session-Leaves k direction app w keeps l =
    let i = (init_with k direction w).1 in
    ground
      (arith, l, keeps i.dev.chr i.dev.key_gpio i.dev.irq_num i, exit_releases k (after (app i) i))

started-Loaded :
    (argc : ℕ) (fd : ℤ) (r : User × World KeyDev) (c : Chrdev) (g : ℤ) (i : ℤ) (w : World KeyDev)
    → Loaded c g i w
    → Loaded c g i r.1
    → Loaded c g i (after (started argc fd r) w)
started-Loaded argc fd r c g i w h h' = ground arith

module _ (k : Kernel) (torn : List Event → ℤ → ℤ) (argc : ℕ) (fd : ℤ) (garbage : ℤ) where
  keyirq_app-KeepsLoaded : (rs : List Round) → KeepsLoaded (keyirq_app k torn argc fd garbage rs)
  keyirq_app-KeepsLoaded rs c g i w h = started-Loaded argc fd _ c g i w h (
      key_loop-Keeps torn (Keyirq.timer_function k) (λ _. Keyirq.kery_read k)
        (Holding.keyirq_tick-Keeps k) (λ _. Holding.keyirq_read-Keeps k) rs _ c g i w h)

  blockio_app-KeepsLoaded : (rs : List Round) → KeepsLoaded (blockio_app k torn argc fd garbage rs)
  blockio_app-KeepsLoaded rs c g i w h = started-Loaded argc fd _ c g i w h (
      key_loop-Keeps torn (Blockio.timer_function k) (Blockio.kery_read k)
        (Holding.blockio_tick-Keeps k) (Holding.blockio_read-Keeps k) rs _ c g i w h)

  noblockio_app-KeepsLoaded :
      (rs : List Waiting) → KeepsLoaded (noblockio_app k torn argc fd garbage rs)
  noblockio_app-KeepsLoaded rs c g i w h = started-Loaded argc fd _ c g i w h (
      select_loop-Keeps torn (Noblockio.timer_function k) (λ _. Noblockio.kery_read k true 0)
        (Holding.noblockio_tick-Keeps k) (λ _. Holding.noblockio_read-Keeps k)
        (Noblockio.key_poll k) rs _ (Holding.key_poll-Keeps k) c g i w h)

  fasync_app-KeepsLoaded :
      (fd_flags : ℕ) (rs : List Round) → KeepsLoaded (fasync_app k torn argc fd fd_flags rs)
  fasync_app-KeepsLoaded fd_flags rs c g i w h =
      let subscribed = Fasync.key_fasync k w in
      let flags = if is_neg subscribed.0 then 0x800 else bit_or fd_flags fasync in
      started-Loaded argc fd _ c g i w h (
        handle_loop-Keeps torn (Fasync.timer_function k) (Fasync.kery_read k (nonblocking flags))
          (Holding.fasync_tick-Keeps k) (Holding.fasync_read-Keeps k (nonblocking flags))
          (not (is_neg subscribed.0)) rs (false, []) c g i subscribed.1
          (key_fasync-Keeps k c g i w h))

  -- The sessions of the four drivers with their programs.
  abbrev pub output : ℤ → Calls.Call
  output gpio = Calls.gpio_direction_output gpio 1

  abbrev pub SessionsLeave : List Round → List Waiting → ℕ → World KeyDev → Type 0
  SessionsLeave rs ws fd_flags w =
      Leaves (session k Calls.gpio_direction_input (keyirq_app k torn argc fd garbage rs) w)
      × Leaves (session k output (blockio_app k torn argc fd garbage rs) w)
      × Leaves (session k output (noblockio_app k torn argc fd garbage ws) w)
      × Leaves (session k output (fasync_app k torn argc fd fd_flags rs) w)

  -- For a driver that holds nothing at first and has not failed to set the direction of a line:
  -- loading keyirq.c, blockio.c, noblockio.c or fasync.c, running its program in any way, with any
  -- samples, signals and failing copies, and unloading the module give back every resource once and
  -- leave no lock taken, whichever call fails; but if the call that sets the direction fails, the
  -- line stays requested for good.
  pub sessions-Leave :
      (rs : List Round) (ws : List Waiting) (fd_flags : ℕ) (w : World KeyDev)
      → ledger w.log ≡ some []
      → direction_failed w.log ≡ false
      → SessionsLeave rs ws fd_flags w
  sessions-Leave rs ws fd_flags w h f =
      let loads = init-Loads k output (output-SetsUp k) w h f in
      (
        session-Leaves k Calls.gpio_direction_input (keyirq_app k torn argc fd garbage rs) w
            (keyirq_app-KeepsLoaded rs)
            (init-Loads k Calls.gpio_direction_input (input-SetsUp k) w h f),
        session-Leaves k output (blockio_app k torn argc fd garbage rs) w
            (blockio_app-KeepsLoaded rs) loads,
        session-Leaves k output (noblockio_app k torn argc fd garbage ws) w
            (noblockio_app-KeepsLoaded ws) loads,
        session-Leaves k output (fasync_app k torn argc fd fd_flags rs) w
            (fasync_app-KeepsLoaded fd_flags rs) loads,
      )
