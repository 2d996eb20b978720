-- ===== src/Apps/Keys/Blocking.antt =====
-- openedv/linux/stm32mp157/13_irq/keyirqApp.c on keyirq.c and 14_blockio/blockioApp.c on blockio.c.
use learning_kernel.Prelude.{ℕ, ℤ, pos, true, List, [], ◌∷◌, ◌≡◌, refl, arith}
use learning_kernel.Kernel.Calls
use learning_kernel.Kernel.Calls.{Event, Kernel}
use learning_kernel.Kernel.Run.{World, M}
use learning_kernel.Apps.{User, Outcome}
use learning_kernel.Apps.Keys.{Round, key_main}
use learning_kernel.Apps.Keys.Changes.{levels, heard, Sampler, wait_event-Hears}
use learning_kernel.Apps.Keys.Hearing.{Catches, Copies, Prompt, hand_over-Catches, key_loop-Caught}
use learning_kernel.IrqKeys.{KeyDev, is_none, hand_over, wait_event}
use learning_kernel.IrqKeys.Keyirq
use learning_kernel.IrqKeys.Blockio

-- The programs on their drivers.
abbrev pub keyirq_app :
    Kernel
    → (List Event → ℤ → ℤ)
    → ℕ
    → ℤ
    → ℤ
    → List Round
    → World KeyDev
    → Outcome (User × World KeyDev)
keyirq_app k torn = key_main torn (Keyirq.timer_function k) (λ during. Keyirq.kery_read k)

abbrev pub blockio_app :
    Kernel
    → (List Event → ℤ → ℤ)
    → ℕ
    → ℤ
    → ℤ
    → List Round
    → World KeyDev
    → Outcome (User × World KeyDev)
blockio_app k torn = key_main torn (Blockio.timer_function k) (Blockio.kery_read k)

-- The program is in its loop, and what it has printed is a press or a release for each change of
-- the line since it started, in order.
abbrev pub PrintsChanges : ℤ → Outcome (User × World KeyDev) → Type 0
PrintsChanges first (Outcome.exited status out) = ⊥
PrintsChanges first (Outcome.running (u, w)) = u.out ≡ heard first w

-- No key event and no sample so far.
abbrev pub Quiet : World KeyDev → Type 0
Quiet w = (is_none w.dev.status ≡ true) × (levels w.log ≡ [])

module _ (k : Kernel) where
  -- The level that the sample reads, with the lock taken.
  abbrev pub line_level : World KeyDev → ℤ
  line_level w =
      k.int (record { call = Calls.spin_lock_irqsave; ret = pos 0; out = 0 } ∷ w.log)
        (Calls.gpio_get_value w.dev.key_gpio)

  keyirq_sampler : Sampler
  unfolding Keyirq.timer_function
  keyirq_sampler = record {
    tick = Keyirq.timer_function k;
    level = line_level;
    tick_dev = λ w. refl;
    tick_log = λ w. refl;
  }

  blockio_sampler : Sampler
  unfolding Blockio.timer_function
  blockio_sampler = record {
    tick = Blockio.timer_function k;
    level = line_level;
    tick_dev = λ w. refl;
    tick_log = λ w. refl;
  }

module _ (k : Kernel) (torn : List Event → ℤ → ℤ) (s : Sampler) (first : ℤ) where
  abbrev asleep : World KeyDev → World KeyDev
  asleep w = record w {
    log = record { call = Calls.wait_event_interruptible; ret = pos 0; out = 0 } ∷ w.log;
  }

  -- A sleep before the event is handed over loses nothing.
  pub asleep-Catches :
      (fires : ℕ)
      → Copies k
      → Catches torn first (λ w. hand_over k (wait_event k s.tick fires (asleep w)).1)
  asleep-Catches fires copies u w h =
      hand_over-Catches k torn first copies u (wait_event k s.tick fires (asleep w)).1
        (wait_event-Hears s first u.out k fires (asleep w) h)

  -- The program prints the changes, if each of its reads catches up with the line.
  pub main-PrintsChanges :
      (read : ℕ → M KeyDev ℤ) (fd : ℕ) (garbage : ℤ) (rs : List Round) (w : World KeyDev)
      → ((fires : ℕ) → Catches torn first (read fires))
      → Prompt rs
      → Quiet w
      → w.dev.last_value ≡ first
      → PrintsChanges first (key_main torn s.tick read 2 (pos fd) garbage rs w)
  main-PrintsChanges read fd garbage rs w catches prompt quiet level =
      let u : User = record { key_val = garbage; out = [] } in
      ground (arith, key_loop-Caught s torn first read rs u w catches prompt (ground arith))

module _ (k : Kernel) (torn : List Event → ℤ → ℤ) (fd : ℕ) (garbage : ℤ) (rs : List Round)
    (w : World KeyDev) where
  -- On keyirq.c, with no sample and no event before the program starts, at most one sample between
  -- two reads, and copies to the user that succeed, keyirqApp prints a press or a release for each
  -- change of the line and nothing else, in order, whatever the levels are.
  pub keyirq_app-PrintsChanges :
      Copies k
      → Prompt rs
      → Quiet w
      → PrintsChanges w.dev.last_value (keyirq_app k torn 2 (pos fd) garbage rs w)
  unfolding Keyirq.timer_function keyirq_sampler
  keyirq_app-PrintsChanges copies prompt quiet =
      let first = w.dev.last_value in
      main-PrintsChanges k torn (keyirq_sampler k) first (λ _. Keyirq.kery_read k) fd garbage rs w
        (λ _. unfold Keyirq.kery_read in hand_over-Catches k torn first copies) prompt quiet refl

  -- On blockio.c, with no sample and no event before the program starts, at most one sample between
  -- two reads, and copies to the user that succeed, blockioApp prints a press or a release for each
  -- change of the line and nothing else, in order. All samples may come in the sleeps of its reads,
  -- any number in each, and signals may end the sleeps.
  pub blockio_app-PrintsChanges :
      Copies k
      → Prompt rs
      → Quiet w
      → PrintsChanges w.dev.last_value (blockio_app k torn 2 (pos fd) garbage rs w)
  unfolding Blockio.timer_function blockio_sampler
  blockio_app-PrintsChanges copies prompt quiet =
      let first = w.dev.last_value in
      main-PrintsChanges k torn (blockio_sampler k) first (Blockio.kery_read k) fd garbage rs w
        (λ fires.
          unfold Blockio.kery_read in asleep-Catches k torn (blockio_sampler k) first fires copies)
        prompt quiet refl
