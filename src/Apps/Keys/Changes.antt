-- ===== src/Apps/Keys/Changes.antt =====
-- The changes of the key's line, read off the calls of a driver, and what a program that reads the
-- driver prints of them.
use learning_kernel.Prelude.{ℕ, zero, suc, ℤ, true, List, [], ◌∷◌, ◌≡◌, eqb_ℤ, if◌then◌else◌, arith}
use learning_kernel.Kernel.Calls.{Call, Event, Kernel}
use learning_kernel.Kernel.Run.{World, M}
use learning_kernel.Apps.{Line, spoken}
use learning_kernel.IrqKeys.{KeyDev, code, sampled, is_none, wait_event}

abbrev level_of : Call → ℤ → List ℤ → List ℤ
level_of (Call.gpio_get_value g) v before = v ∷ before
level_of _ v before = before

-- The levels that the line was sampled at, newest first.
abbrev pub levels : List Event → List ℤ
levels [] = []
levels (e ∷ es) = level_of e.call e.ret (levels es)

abbrev pub latest : ℤ → List ℤ → ℤ
latest first [] = first
latest first (v ∷ vs) = v

-- The new level at each change, newest first, for a line that is at `first` to begin with.
abbrev pub changes : ℤ → List ℤ → List ℤ
changes first [] = []
changes first (v ∷ vs) =
    let rest = changes first vs in if eqb_ℤ v (latest first vs) then rest else v ∷ rest

-- A press or a release for each of them.
abbrev pub said : List ℤ → List Line
said [] = []
said (v ∷ vs) = spoken v (said vs)

abbrev pub heard : ℤ → World KeyDev → List Line
heard first w = said (changes first (levels w.log))

-- With the event that the driver still has, the program has printed all changes.
abbrev pub Hears : ℤ → List Line → World KeyDev → Type 0
Hears first out w =
    (spoken (code w.dev.status) out ≡ heard first w)
    × (w.dev.last_value ≡ latest first (levels w.log))

-- A driver samples the line on each expiry of its timer.
pub record Sampler : Type 0 where
  pub tick : M KeyDev (Unit {0})
  pub level : World KeyDev → ℤ
  pub tick_dev : (w : World KeyDev) → (tick w).1.dev ≡ sampled (level w) w.dev
  pub tick_log : (w : World KeyDev) → levels (tick w).1.log ≡ level w ∷ levels w.log

module _ (s : Sampler) (first : ℤ) (out : List Line) where
  pub tick-Hears :
      (w : World KeyDev)
      → is_none w.dev.status ≡ true
      → Hears first out w
      → Hears first out (s.tick w).1
  tick-Hears w none h = ground (arith, s.tick_dev w, s.tick_log w)

  pub wait_event-Hears :
      (k : Kernel) (fires : ℕ) (w : World KeyDev)
      → Hears first out w
      → Hears first out (wait_event k s.tick fires w).1
  unfolding wait_event
  wait_event-Hears k zero w h = ground arith
  wait_event-Hears k (suc fires) w h =
      ground (arith, tick-Hears w, wait_event-Hears k fires (s.tick w).1)
