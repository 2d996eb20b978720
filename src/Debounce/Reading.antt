-- ===== src/Debounce/Reading.antt =====
-- What a program gets that reads a key driver after each gesture of a key that bounces.
use learning_kernel.Prelude.{
  ℕ, ◌<◌, ℤ, pos, true, List, [], ◌∷◌, map, none, some, ◌≡◌, refl, ap, ◌∙◌, arith, is_neg, eqb_ℤ,
  if◌then◌else◌,
}
use learning_kernel.Kernel.Calls
use learning_kernel.Kernel.Calls.{Kernel, Event}
use learning_kernel.Kernel.Lines.{last_copy}
use learning_kernel.Kernel.Run.{World, M}
use learning_kernel.IrqKeys
use learning_kernel.IrqKeys.{KeyDev, code}
use learning_kernel.IrqKeys.Sampling.{AllLevels, observe, taken, served, edges, served-edges}
use learning_kernel.IrqKeys.Keyirq
use learning_kernel.IrqKeys.Blockio
use learning_kernel.IrqKeys.Noblockio
use learning_kernel.IrqKeys.Fasync
use learning_kernel.Debounce.{Handlers, Line, run}
use learning_kernel.Debounce.Gestures.{
  debounce, Gesture, AllSettled, course, settles_at, Samples, gesture-samples,
}
use learning_kernel.Debounce.Drivers.{
  keyirq, blockio, noblockio, fasync, device_seen, device_sample, keyirq-Samples, blockio-Samples,
  noblockio-Samples, fasync-Samples,
}

-- What a read has delivered, before the rest: nothing if it failed or found KEY_NONE.
abbrev pub got : ℤ × World KeyDev → List ℤ → List ℤ
got r rest = if is_neg r.0 then rest else elim (last_copy r.1.log) [
  | none ↦ rest
  | some value ↦ if eqb_ℤ value (pos 2) then rest else value ∷ rest
]

-- A gesture and a read by turns, with the kernel that copies to the user.
module _ (msecs_to_jiffies : ℕ → ℕ) (handlers : Kernel → Handlers KeyDev) (read : M KeyDev ℤ)
    (k : Kernel) where
  pub follow : List Gesture → Line KeyDev → List ℤ
  follow [] s = []
  follow (g ∷ gs) s =
      let t = run msecs_to_jiffies handlers k (course g) s in
      let r = read t.world in got r (follow gs (record t { world = r.1 }))

-- Copies of a status to the user succeed.
abbrev pub Copies : Kernel → Type 0
Copies k = (log : List Event) (v : ℤ) → k.number log (Calls.copy_to_user v) ≡ 0

-- A read delivers the status and leaves none behind.
record Delivers (read : M KeyDev ℤ) : Type 0 where
  delivers : (w : World KeyDev) (rest : List ℤ) → got (read w) rest ≡ observe w.dev.status rest
  takes : (w : World KeyDev) → (read w).1.dev ≡ taken w.dev

module _ (k : Kernel) (copies : Copies k) (w : World KeyDev) where
  abbrev locked : List Event
  locked = record { call = Calls.spin_lock_irqsave; ret = pos 0; out = 0 } ∷ w.log

  hand_over-delivers :
      (rest : List ℤ)
      → (got (IrqKeys.hand_over k w) rest ≡ observe w.dev.status rest)
        × ((IrqKeys.hand_over k w).1.dev ≡ taken w.dev)
  unfolding IrqKeys.hand_over
  hand_over-delivers rest = ground (arith, copies locked (code w.dev.status))

module _ (k : Kernel) (copies : Copies k) where
  keyirq-Delivers : Delivers (Keyirq.kery_read k)
  unfolding Keyirq.kery_read
  keyirq-Delivers = record {
    delivers = λ w rest. (hand_over-delivers k copies w rest).0;
    takes = λ w. (hand_over-delivers k copies w []).1;
  }

  -- The log when a blocking read hands over.
  abbrev waited : World KeyDev → World KeyDev
  waited w = record w {
    log = record { call = Calls.wait_event_interruptible; ret = pos 0; out = 0 } ∷ w.log;
  }

  -- A read that a signal ends before the timer fires again.
  blockio-Delivers : Delivers (Blockio.kery_read k 0)
  unfolding Blockio.kery_read
  blockio-Delivers = record {
    delivers = λ w rest. ground (arith, hand_over-delivers k copies (waited w) rest);
    takes = λ w. ground (arith, hand_over-delivers k copies (waited w) []);
  }

  noblockio-Delivers : Delivers (Noblockio.kery_read k true 0)
  unfolding Noblockio.kery_read
  noblockio-Delivers = record {
    delivers = λ w rest. ground (arith, hand_over-delivers k copies w rest);
    takes = λ w. ground (arith, hand_over-delivers k copies w []);
  }

  fasync-Delivers : Delivers (Fasync.kery_read k true 0)
  unfolding Fasync.kery_read
  fasync-Delivers = record {
    delivers = λ w rest. ground (arith, hand_over-delivers k copies w rest);
    takes = λ w. ground (arith, hand_over-delivers k copies w []);
  }

module _ (handlers : Kernel → Handlers KeyDev) (laws : Samples device_seen device_sample handlers)
    (read : M KeyDev ℤ) (reads : Delivers read) (k : Kernel) (msecs_to_jiffies : ℕ → ℕ)
    (due : 0 < debounce msecs_to_jiffies) where
  follow-served :
      (gs : List Gesture) (s : Line KeyDev)
      → AllSettled (debounce msecs_to_jiffies) gs
      → follow msecs_to_jiffies handlers read k gs s ≡ served s.world.dev (map settles_at gs)
  unfolding follow served
  follow-served [] s settled = refl
  follow-served (g ∷ gs) s settled =
      let t = run msecs_to_jiffies handlers k (course g) s in
      let r = read t.world in
      let seen =
        gesture-samples device_seen device_sample handlers laws k msecs_to_jiffies due g s
          settled.0 in
      let dev : t.world.dev ≡ IrqKeys.sampled (settles_at g) s.world.dev = ap (λ v. v.0) seen in
      let next = record t { world = r.1 } in
      ground (
        arith,
        dev,
        reads.delivers t.world (follow msecs_to_jiffies handlers read k gs next),
        reads.takes t.world,
        follow-served gs next settled.1,
      )

  follow-edges :
      (gs : List Gesture) (s : Line KeyDev)
      → AllSettled (debounce msecs_to_jiffies) gs
      → AllLevels (map settles_at gs)
      → follow msecs_to_jiffies handlers read k gs s
        ≡ edges s.world.dev.last_value (map settles_at gs)
  follow-edges gs s settled levels =
      follow-served gs s settled ∙ served-edges s.world.dev (map settles_at gs) levels

-- The events that a program gets.
abbrev pub Follows :
    (ℕ → ℕ) → (Kernel → Handlers KeyDev) → M KeyDev ℤ → Kernel → List Gesture → Line KeyDev → Type 0
Follows msecs_to_jiffies handlers read k gs s =
    follow msecs_to_jiffies handlers read k gs s ≡ edges s.world.dev.last_value (map settles_at gs)

-- Let 15 ms be any positive number of ticks of the kernel's clock. If in every gesture of the key
-- fewer ticks pass between two edges and at least so many after the last one, the gesture settles at
-- 0 or 1, and every copy to the user succeeds, then a program that reads once after each gesture
-- (keyirq.c; blockio.c, where a signal ends a read that finds nothing; noblockio.c and fasync.c
-- without blocking) gets exactly the changes of the settled levels, in order, from the last level
-- that the driver has sampled on: 0 for each press and 1 for each release, once, however the contact
-- bounces, and nothing for a gesture that settles where it began.
pub keys-Follow :
    (msecs_to_jiffies : ℕ → ℕ) (k : Kernel) (gs : List Gesture) (s : Line KeyDev)
    → Copies k
    → 0 < debounce msecs_to_jiffies
    → AllSettled (debounce msecs_to_jiffies) gs
    → AllLevels (map settles_at gs)
    → Follows msecs_to_jiffies keyirq (Keyirq.kery_read k) k gs s
      × Follows msecs_to_jiffies blockio (Blockio.kery_read k 0) k gs s
      × Follows msecs_to_jiffies noblockio (Noblockio.kery_read k true 0) k gs s
      × Follows msecs_to_jiffies fasync (Fasync.kery_read k true 0) k gs s
keys-Follow msecs_to_jiffies k gs s copies due settled levels = (
  follow-edges keyirq keyirq-Samples (Keyirq.kery_read k) (keyirq-Delivers k copies) k
      msecs_to_jiffies due gs s settled levels,
  follow-edges blockio blockio-Samples (Blockio.kery_read k 0) (blockio-Delivers k copies) k
      msecs_to_jiffies due gs s settled levels,
  follow-edges noblockio noblockio-Samples (Noblockio.kery_read k true 0)
      (noblockio-Delivers k copies) k msecs_to_jiffies due gs s settled levels,
  follow-edges fasync fasync-Samples (Fasync.kery_read k true 0) (fasync-Delivers k copies) k
      msecs_to_jiffies due gs s settled levels,
)
