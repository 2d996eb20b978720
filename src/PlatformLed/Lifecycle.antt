-- ===== src/PlatformLed/Lifecycle.antt =====
-- What leddriver.c holds when it has been bound to a device, and after it has been unbound.
use learning_kernel.Prelude.{
  ℤ, pos, false, List, [], ◌∷◌, some, ◌≡◌, ◌⊎◌, arith, if◌then◌else◌, is_nonzero,
}
use learning_kernel.Kernel.Calls
use learning_kernel.Kernel.Calls.{Kernel, Event}
use learning_kernel.Kernel.Run.{World}
use learning_kernel.Kernel.Errno.{eio, einval}
use learning_kernel.Kernel.Ledger.{Resource, ledger}
use learning_kernel.Mmio
use learning_kernel.Mmio.{init_registers}
use learning_kernel.Mmio.Mapping.{unmapped, registers}
use learning_kernel.Led.{led_major}
use learning_kernel.PlatformLed.{led_probe, led_remove}

-- The mappings that have been made, newest first.
abbrev pub mapped_in : List Event → List Resource
mapped_in [] = []
mapped_in (e ∷ es) = elim e.call [
  | Calls.ioremap slot address ↦
      if is_nonzero e.ret then Resource.mapping slot ∷ mapped_in es else mapped_in es
  | _ ↦ mapped_in es
]

abbrev Holds : ℤ × World (Unit {0}) → Type 0
Holds r =
    ((r.0 ≡ pos 0) × (ledger r.1.log ≡ some (Resource.chrdev led_major ∷ registers [])))
    ⊎ ((r.0 ≡ eio) × (ledger r.1.log ≡ some []))
    ⊎ ((r.0 ≡ einval) × (ledger r.1.log ≡ some (mapped_in r.1.log)))

module _ (k : Kernel) (w : World (Unit {0})) where
  probe-Holds :
      ledger w.log ≡ some []
      → mapped_in w.log ≡ []
      → unmapped (led_probe k w).1.log ≡ false
      → Holds (led_probe k w)
  unfolding led_probe Mmio.led_unmap init_registers
  probe-Holds h m f = ground arith

  pub remove_releases :
      ledger w.log ≡ some (Resource.chrdev led_major ∷ registers [])
      → ledger (led_remove k w).1.log ≡ some []
  unfolding led_remove Mmio.led_unmap
  remove_releases h = ground arith

-- What becomes of a probe: the remove gives back everything, or nothing is held, or what was mapped
-- is held.
abbrev pub Outcome : Kernel → ℤ × World (Unit {0}) → Type 0
Outcome k r =
    ((r.0 ≡ pos 0) × (ledger (led_remove k r.1).1.log ≡ some []))
    ⊎ ((r.0 ≡ eio) × (ledger r.1.log ≡ some []))
    ⊎ ((r.0 ≡ einval) × (ledger r.1.log ≡ some (mapped_in r.1.log)))

module _ (k : Kernel) (w : World (Unit {0})) where
  -- For a driver that holds nothing at first, when no ioremap fails: a probe that succeeds leaves
  -- what the remove gives back, once; one that fails in the registration has given everything back;
  -- one that misses a memory resource keeps every register that it has mapped until then.
  pub probe-Outcome :
      ledger w.log ≡ some []
      → mapped_in w.log ≡ []
      → unmapped (led_probe k w).1.log ≡ false
      → Outcome k (led_probe k w)
  probe-Outcome h m f = ground (arith, probe-Holds k w h m f, remove_releases k (led_probe k w).1)
