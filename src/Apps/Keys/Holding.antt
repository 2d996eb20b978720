-- ===== src/Apps/Keys/Holding.antt =====
-- What the interrupt-driven key drivers hold while the programs that read a key run on them.
use learning_kernel.Prelude.{
  ℕ, zero, suc, ℤ, pos, Bool, true, false, List, [], ◌∷◌, ◌++◌, some, ◌≡◌, arith, eqb_ℤ-refl,
}
use learning_kernel.Kernel.Calls
use learning_kernel.Kernel.Calls.{Event, Kernel}
use learning_kernel.Kernel.Run.{World, M}
use learning_kernel.Kernel.Ledger.{Resource, ledger}
use learning_kernel.Chrdev.{Chrdev, held}
use learning_kernel.Apps.{User, Line}
use learning_kernel.Apps.Keys.{
  Round, Waiting, ticks, read_and_print, key_loop, select, select_and_read, select_loop, handle,
  handle_loop,
}
use learning_kernel.IrqKeys.{KeyDev, hand_over, wait_event}
use learning_kernel.IrqKeys.Keyirq
use learning_kernel.IrqKeys.Blockio
use learning_kernel.IrqKeys.Noblockio
use learning_kernel.IrqKeys.Fasync
use learning_kernel.IrqKeys.Lifecycle.{direction_failed}

-- A loaded driver with this registration, line and interrupt: it holds them, and no lock.
abbrev pub Loaded : Chrdev → ℤ → ℤ → World KeyDev → Type 0
Loaded c g i w =
    (w.dev.chr ≡ c)
    × (w.dev.key_gpio ≡ g)
    × (w.dev.irq_num ≡ i)
    × (ledger w.log ≡ some (held c ++ Resource.irq i ∷ Resource.gpio g ∷ []))
    × (direction_failed w.log ≡ false)

abbrev pub Keeps : {A : Type 0} → M KeyDev A → Type 0
Keeps m = (c : Chrdev) (g : ℤ) (i : ℤ) (w : World KeyDev) → Loaded c g i w → Loaded c g i (m w).1

module _ (k : Kernel) where
  pub keyirq_tick-Keeps : Keeps (Keyirq.timer_function k)
  unfolding Keyirq.timer_function
  keyirq_tick-Keeps c g i w h = ground (arith, eqb_ℤ-refl g)

  pub blockio_tick-Keeps : Keeps (Blockio.timer_function k)
  unfolding Blockio.timer_function
  blockio_tick-Keeps c g i w h = ground (arith, eqb_ℤ-refl g)

  pub hand_over-Keeps : Keeps (hand_over k)
  unfolding hand_over
  hand_over-Keeps c g i w h = ground arith

  pub keyirq_read-Keeps : Keeps (Keyirq.kery_read k)
  unfolding Keyirq.kery_read
  keyirq_read-Keeps = hand_over-Keeps

  pub wait_event-Keeps :
      (tick : M KeyDev (Unit {0})) → Keeps tick → (fires : ℕ) → Keeps (wait_event k tick fires)
  unfolding wait_event
  wait_event-Keeps tick keeps zero c g i w h = ground arith
  wait_event-Keeps tick keeps (suc fires) c g i w h =
      ground (arith, keeps c g i w, wait_event-Keeps tick keeps fires c g i (tick w).1)

  pub blockio_read-Keeps : (fires : ℕ) → Keeps (Blockio.kery_read k fires)
  unfolding Blockio.kery_read
  blockio_read-Keeps fires c g i w h =
      let asleep : World KeyDev = record w {
        log = record { call = Calls.wait_event_interruptible; ret = pos 0; out = 0 } ∷ w.log;
      } in
      hand_over-Keeps c g i (wait_event k (Blockio.timer_function k) fires asleep).1 (
        wait_event-Keeps (Blockio.timer_function k) blockio_tick-Keeps fires c g i asleep
          (ground arith))

  -- The same for noblockio.c and fasync.c, whose reads may be blocking or not.
  pub noblockio_tick-Keeps : Keeps (Noblockio.timer_function k)
  unfolding Noblockio.timer_function
  noblockio_tick-Keeps c g i w h = ground (arith, eqb_ℤ-refl g)

  pub key_poll-Keeps : Keeps (Noblockio.key_poll k)
  unfolding Noblockio.key_poll
  key_poll-Keeps c g i w h = ground arith

  pub noblockio_read-Keeps : Keeps (Noblockio.kery_read k true 0)
  unfolding Noblockio.kery_read
  noblockio_read-Keeps c g i w h = ground (arith, hand_over-Keeps c g i w h)

  pub fasync_tick-Keeps : Keeps (Fasync.timer_function k)
  unfolding Fasync.timer_function
  fasync_tick-Keeps c g i w h = ground (arith, eqb_ℤ-refl g)

  pub key_fasync-Keeps : Keeps (Fasync.key_fasync k)
  unfolding Fasync.key_fasync
  key_fasync-Keeps c g i w h = ground arith

  pub fasync_read-Keeps : (nonblock : Bool) (fires : ℕ) → Keeps (Fasync.kery_read k nonblock fires)
  unfolding Fasync.kery_read
  fasync_read-Keeps nonblock fires c g i w h =
      let asleep : World KeyDev = record w {
        log = record { call = Calls.wait_event_interruptible; ret = pos 0; out = 0 } ∷ w.log;
      } in
      let slept = (wait_event k (Fasync.timer_function k) fires asleep).1 in
      ground (
        arith,
        hand_over-Keeps c g i w h,
        hand_over-Keeps c g i slept,
        wait_event-Keeps (Fasync.timer_function k) fasync_tick-Keeps fires c g i asleep,
      )

module _ (torn : List Event → ℤ → ℤ) (tick : M KeyDev (Unit {0})) (read : ℕ → M KeyDev ℤ)
    (tick_keeps : Keeps tick) (read_keeps : (fires : ℕ) → Keeps (read fires)) where
  pub ticks-Keeps : (n : ℕ) → Keeps (ticks tick n)
  ticks-Keeps zero c g i w h = h
  ticks-Keeps (suc n) c g i w h = ticks-Keeps n c g i (tick w).1 (tick_keeps c g i w h)

  pub key_loop-Keeps : (rs : List Round) (u : User) → Keeps (key_loop torn tick read rs u)
  key_loop-Keeps [] u c g i w h = h
  key_loop-Keeps (r ∷ rs) u c g i w h =
      let w' = (ticks tick r.before w).1 in
      let r' = read_and_print torn (read r.during) u w' in
      key_loop-Keeps rs r'.0 c g i r'.1
        (read_keeps r.during c g i w' (ticks-Keeps r.before c g i w h))

  pub select-Keeps : (poll : M KeyDev ℕ) → Keeps poll → (n : ℕ) → Keeps (select tick poll n)
  select-Keeps poll keeps zero c g i w h = ground (arith, keeps c g i w h)
  select-Keeps poll keeps (suc n) c g i w h =
      let polled = (poll w).1 in
      ground (
        arith,
        keeps c g i w h,
        tick_keeps c g i polled,
        select-Keeps poll keeps n c g i (tick polled).1,
      )

  pub select_loop-Keeps :
      (poll : M KeyDev ℕ) (rs : List Waiting) (u : User)
      → Keeps poll
      → Keeps (select_loop torn tick poll (read 0) rs u)
  select_loop-Keeps poll [] u keeps c g i w h = h
  select_loop-Keeps poll (r ∷ rs) u keeps c g i w h =
      let round = select_and_read torn tick poll (read 0) r u w in
      let before = (ticks tick r.before w).1 in
      let selected = (select tick poll r.asleep before).1 in
      let late = (ticks tick r.between selected).1 in
      select_loop-Keeps poll rs round.0 keeps c g i round.1 (
        ground (
          arith,
          ticks-Keeps r.before c g i w h,
          select-Keeps poll keeps r.asleep c g i before,
          ticks-Keeps r.between c g i selected,
          read_keeps 0 c g i late,
        ))

  pub handle_loop-Keeps :
      (subscribed : Bool) (rs : List Round) (s : Bool × List Line)
      → Keeps (handle_loop torn tick read subscribed rs s)
  handle_loop-Keeps subscribed [] s c g i w h = h
  handle_loop-Keeps subscribed (r ∷ rs) (pending, out) c g i w h =
      let round = handle torn tick read subscribed r (pending, out) w in
      let before = (ticks tick r.before w).1 in
      handle_loop-Keeps subscribed rs round.0 c g i round.1
        (ground (arith, ticks-Keeps r.before c g i w h, read_keeps r.during c g i before))
