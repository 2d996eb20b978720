-- ===== src/IrqKeys/Sampling.antt =====
-- What a timer interrupt makes of the key's line, for one sample and for a series of them.
use learning_kernel.Prelude.{
  ℤ, pos, true, false, List, [], ◌∷◌, some, ◌≡◌, ◌⊎◌, refl, arith, eqb_ℤ, eqb_ℤ-refl, if◌then◌else◌,
}
use learning_kernel.Kernel.Calls
use learning_kernel.Kernel.Calls.{Kernel, Event}
use learning_kernel.Kernel.Run.{World}
use learning_kernel.Kernel.Ledger.{Resource, ledger, holds}
use learning_kernel.IrqKeys.{KeyDev, KeyStatus, key_none, code, is_none, sample, sampled}

-- The line is 0 or 1.
abbrev pub IsLevel : ℤ → Type 0
IsLevel v = (v ≡ pos 0) ⊎ (v ≡ pos 1)

-- What an eager reader gets: one read after every sample, with the samples that showed no change
-- left out.
abbrev pub observe : KeyStatus → List ℤ → List ℤ
observe s rest = if is_none s then rest else code s ∷ rest

abbrev pub taken : KeyDev → KeyDev
taken d = record d { status = key_none }

unfoldable pub served : KeyDev → List ℤ → List ℤ
served d [] = []
served d (v ∷ vs) = observe (sampled v d).status (served (taken (sampled v d)) vs)

-- The changes of a level, independently of the driver: the new level at each of them.
pub edges : ℤ → List ℤ → List ℤ
edges last [] = []
edges last (v ∷ vs) = if eqb_ℤ v last then edges v vs else v ∷ edges v vs

abbrev pub AllLevels : List ℤ → Type 0
AllLevels [] = Unit {0}
AllLevels (v ∷ vs) = IsLevel v × AllLevels vs

-- If the line is 0 or 1 in every sample and a read follows each of them, no event is lost, none is
-- made up, and they come in order: a reader gets exactly the changes of the line, 0 for a press and
-- 1 for a release.
pub served-edges : (d : KeyDev) (vs : List ℤ) → AllLevels vs → served d vs ≡ edges d.last_value vs
unfolding served edges
served-edges d [] h = refl
served-edges d (v ∷ vs) h = ground (arith, served-edges (taken (sampled v d)) vs h.1)

-- A sample that shows no change forgets an event that nobody has read yet.
pub sampled_forgets : (d : KeyDev) (v : ℤ) → d.last_value ≡ v → (sampled v d).status ≡ key_none
sampled_forgets d v h = ground (arith, eqb_ℤ-refl v)

module _ (k : Kernel) (w : World KeyDev) (rs : List Resource) where
  -- The level that the line is read at, with the lock taken.
  abbrev pub seen : ℤ
  seen =
      k.int (record { call = Calls.spin_lock_irqsave; ret = pos 0; out = 0 } ∷ w.log)
        (Calls.gpio_get_value w.dev.key_gpio)

  -- With the lock free and the key's line held, a sample takes the lock and releases it, leaves
  -- what the driver holds as it was, and changes the device as `sampled` does for the level that it
  -- read.
  pub sample_balanced :
      holds Resource.spinlock rs ≡ false
      → holds (Resource.gpio w.dev.key_gpio) rs ≡ true
      → ledger w.log ≡ some rs
      → (ledger (sample k w).1.log ≡ some rs) × ((sample k w).1.dev ≡ sampled seen w.dev)
  unfolding sample
  sample_balanced unlocked line h = ground arith
