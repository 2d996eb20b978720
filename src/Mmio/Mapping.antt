-- ===== src/Mmio/Mapping.antt =====
-- What the mapping of the registers holds, and when they may be used.
use learning_kernel.Prelude.{
  ℕ, Bool, true, false, ◌||◌, not, List, [], ◌∷◌, ◌++◌, some, none, ◌≡◌, ◌⊎◌, arith, if◌then◌else◌,
  is_nonzero,
}
use learning_kernel.Kernel.Calls
use learning_kernel.Kernel.Calls.{Kernel, Event, Call}
use learning_kernel.Kernel.Run.{World}
use learning_kernel.Kernel.Ledger.{Resource, ledger}
use learning_kernel.Chrdev.{Chrdev, held}
use learning_kernel.Mmio.{led_remap, led_unmap, init_registers}

abbrev maps : Call → Bool
maps (Call.ioremap slot address) = true
maps (Call.of_iomap slot) = true
maps _ = false

-- Some register could not be mapped.
abbrev pub unmapped : List Event → Bool
unmapped [] = false
unmapped (e ∷ es) = if maps e.call then not (is_nonzero e.ret) || unmapped es else unmapped es

-- All six mappings.
abbrev pub registers : List Resource → List Resource
registers rs =
    Resource.mapping 5
    ∷ Resource.mapping 4
    ∷ Resource.mapping 3
    ∷ Resource.mapping 2
    ∷ Resource.mapping 1
    ∷ Resource.mapping 0
    ∷ rs

module _ (k : Kernel) {S : Type 0} (w : World S) (rs : List Resource) where
  pub unmap_releases : ledger w.log ≡ some (registers rs) → ledger (led_unmap k w).1.log ≡ some rs
  unfolding led_unmap
  unmap_releases h = ground arith

  init_keeps :
      (close : ℕ → ℕ)
      → ledger w.log ≡ some (registers rs)
      → ledger (init_registers k close w).1.log ≡ some (registers rs)
  unfolding init_registers
  init_keeps close h = ground arith

-- The mappings of a character device that is registered, or of one that is not.
module _ (k : Kernel) {S : Type 0} (w : World S) (d : Chrdev) where
  pub unmap_below :
      ledger w.log ≡ some (held d ++ registers [])
      → ledger (led_unmap k w).1.log ≡ some (held d ++ [])
  unfolding led_unmap
  unmap_below h = ground arith

module _ (k : Kernel) {S : Type 0} (w : World S) where
  pub unmap_fails : ledger w.log ≡ none → ledger (led_unmap k w).1.log ≡ none
  unfolding led_unmap
  unmap_fails h = ground arith

-- Mapping the registers and setting them up, for a driver that holds nothing: all are mapped and
-- stay so, or one that could not be mapped is used all the same.
abbrev pub SetsUp : List Event → Type 0
SetsUp log =
    ((unmapped log ≡ false) × (ledger log ≡ some (registers [])))
    ⊎ ((unmapped log ≡ true) × (ledger log ≡ none))

module _ (k : Kernel) {S : Type 0} (w : World S) where
  pub ioremap-SetsUp :
      (address : ℕ → ℕ) (close : ℕ → ℕ)
      → ledger w.log ≡ some []
      → unmapped w.log ≡ false
      → SetsUp
          (init_registers k close
            (led_remap k (λ slot. Calls.ioremap slot (address slot)) w).1).1.log
  unfolding led_remap init_registers
  ioremap-SetsUp address close h f = ground arith

  pub of_iomap-SetsUp :
      (close : ℕ → ℕ)
      → ledger w.log ≡ some []
      → unmapped w.log ≡ false
      → SetsUp (init_registers k close (led_remap k Calls.of_iomap w).1).1.log
  unfolding led_remap init_registers
  of_iomap-SetsUp close h f = ground arith
