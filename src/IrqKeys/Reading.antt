-- ===== src/IrqKeys/Reading.antt =====
-- What the reads of the interrupt-driven key drivers return.
use learning_kernel.Prelude.{
  ℕ, zero, suc, ◌≤◌, ℤ, pos, true, false, List, ◌∷◌, some, ◌≡◌, ◌≢◌, ◌⊎◌, arith,
}
use learning_kernel.Kernel.Calls
use learning_kernel.Kernel.Calls.{Kernel, Event}
use learning_kernel.Kernel.Errno.{eagain, efault, erestartsys}
use learning_kernel.Kernel.Run.{World, M}
use learning_kernel.Kernel.Ledger.{Resource, ledger, holds}
use learning_kernel.Kernel.Lines.{last_copy}
use learning_kernel.IrqKeys.{KeyDev, key_none, code, is_none, wait_event, hand_over}
use learning_kernel.IrqKeys.Blockio
use learning_kernel.IrqKeys.Fasync

-- What handing the status over has done: the user has its code, and it is consumed, unless the
-- copy failed, and then it is still there for the next read.
abbrev pub HandsOver : KeyDev → ℤ × World KeyDev → Type 0
HandsOver d r =
    (last_copy r.1.log ≡ some (code d.status))
    × (((r.0 ≡ pos 4) × (r.1.dev ≡ record d { status = key_none }))
        ⊎ ((r.0 ≡ efault) × (r.1.dev ≡ d)))

module _ (k : Kernel) (w : World KeyDev) where
  -- With the lock free at first, the status is handed over to the user and reset, or kept if the
  -- copy fails; the lock is taken and released on both ways out, and what the driver holds is the
  -- same at the end.
  pub hand_over_balanced :
      (rs : List Resource)
      → holds Resource.spinlock rs ≡ false
      → ledger w.log ≡ some rs
      → HandsOver w.dev (hand_over k w) × (ledger (hand_over k w).1.log ≡ some rs)
  unfolding hand_over
  hand_over_balanced rs unlocked h = ground arith

  pub hand_over-HandsOver : HandsOver w.dev (hand_over k w)
  unfolding hand_over
  hand_over-HandsOver = ground arith

  -- A poll of fasync.c reports the file readable exactly when a non-blocking read does not return
  -- -EAGAIN, and a read that returns -EAGAIN changes nothing.
  pub poll-read :
      (fires : ℕ)
      → ((Fasync.key_poll k w).0 ≢ 0) × ((Fasync.kery_read k true fires w).0 ≢ eagain)
        ⊎ ((Fasync.key_poll k w).0 ≡ 0) × (Fasync.kery_read k true fires w ≡ (eagain, w))
  unfolding Fasync.key_poll Fasync.kery_read
  poll-read fires = ground arith

module _ (k : Kernel) (tick : M KeyDev (Unit {0})) where
  -- The device after `n` samples.
  abbrev pub ticked : ℕ → World KeyDev → World KeyDev
  ticked zero w = w
  ticked (suc n) w = ticked n (tick w).1

  wait_event-status :
      (fires : ℕ) (w : World KeyDev)
      → ((wait_event k tick fires w).0 ≡ pos 0)
          × (is_none (wait_event k tick fires w).1.dev.status ≡ false)
        ⊎ ((wait_event k tick fires w).0 ≡ erestartsys)
          × (is_none (wait_event k tick fires w).1.dev.status ≡ true)
  unfolding wait_event
  wait_event-status zero w = ground arith
  wait_event-status (suc fires) w = ground (arith, wait_event-status fires (tick w).1)

  -- A wait ends with success as soon as one of the samples that it sleeps through shows an event.
  wait_event_wakes :
      (n fires : ℕ) (w : World KeyDev)
      → n ≤ fires
      → is_none (ticked n w).dev.status ≡ false
      → (wait_event k tick fires w).0 ≡ pos 0
  unfolding wait_event
  wait_event_wakes zero zero w h e = ground arith
  wait_event_wakes zero (suc fires) w h e = ground arith
  wait_event_wakes (suc n) zero w h e = absurd (omega arith)
  wait_event_wakes (suc n) (suc fires) w h e =
      ground (arith, wait_event_wakes n fires (tick w).1 (omega arith) e)

module _ (k : Kernel) (fires : ℕ) (w : World KeyDev) where
  abbrev sleeping : World KeyDev
  sleeping = record w {
    log = record { call = Calls.wait_event_interruptible; ret = pos 0; out = 0 } ∷ w.log;
  }

  abbrev slept : ℤ × World KeyDev
  slept = wait_event k (Blockio.timer_function k) fires sleeping

  -- A blocking read of blockio.c tells the user of a press or a release, not that there is no
  -- event, if one of the samples in its sleep shows one.
  pub read_wakes :
      (n : ℕ)
      → n ≤ fires
      → is_none (ticked k (Blockio.timer_function k) n sleeping).dev.status ≡ false
      → ((Blockio.kery_read k fires w).0 ≢ erestartsys)
        × (last_copy (Blockio.kery_read k fires w).1.log ≢ some (code key_none))
  unfolding Blockio.kery_read
  read_wakes n h e = ground (
    arith,
    wait_event_wakes k (Blockio.timer_function k) n fires sleeping h e,
    wait_event-status k (Blockio.timer_function k) fires sleeping,
    hand_over-HandsOver k slept.1,
  )

  -- If a signal ends the wait of a blocking read of blockio.c, the read goes on, tells the user
  -- that there is no event and returns the size of an int, or -EFAULT, but never -ERESTARTSYS.
  pub read_swallows_signal :
      slept.0 ≡ erestartsys
      → (last_copy (Blockio.kery_read k fires w).1.log ≡ some (code key_none))
        × (((Blockio.kery_read k fires w).0 ≡ pos 4) ⊎ ((Blockio.kery_read k fires w).0 ≡ efault))
  unfolding Blockio.kery_read
  read_swallows_signal e = ground (
    arith,
    wait_event-status k (Blockio.timer_function k) fires sleeping,
    hand_over-HandsOver k slept.1,
  )
