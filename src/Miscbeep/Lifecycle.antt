-- ===== src/Miscbeep/Lifecycle.antt =====
-- What miscbeep.c holds when it has been bound to a device, and after it has been unbound.
use learning_kernel.Prelude.{
  ℤ, pos, Bool, true, [], some, none, ◌≡◌, ◌⊎◌, arith, is_neg, eqb_ℤ-refl,
}
use learning_kernel.Kernel.Calls.{Kernel}
use learning_kernel.Kernel.Run.{World}
use learning_kernel.Kernel.Ledger.{ledger}
use learning_kernel.Miscbeep.{BeepDevice, miscbeep_probe, miscbeep_remove}

module _ (k : Kernel) (gpio_is_valid : ℤ → Bool) (w : World BeepDevice) where
  abbrev pub probed : ℤ × World BeepDevice
  probed = miscbeep_probe k gpio_is_valid w

  -- For a driver that holds nothing at first: a probe that fails leaves nothing held; a probe that
  -- succeeds has given the buzzer's line back, and the remove uses the line that is no longer held.
  pub probe_frees :
      ledger w.log ≡ some []
      → (is_neg probed.0 ≡ true) × (ledger probed.1.log ≡ some [])
        ⊎ (probed.0 ≡ pos 0) × (ledger (miscbeep_remove k probed.1).1.log ≡ none)
  unfolding miscbeep_probe miscbeep_remove
  probe_frees h = ground (arith, eqb_ℤ-refl probed.1.dev.gpio)
