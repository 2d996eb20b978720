-- ===== src/Icm20608/Binding.antt =====
-- The driver tables of icm20608.c, and what the driver holds while a device is bound to it.
use learning_kernel.Prelude.{ℕ, false, List, [], ◌∷◌, some, ◌≡◌, refl, arith, String, is_nonzero}
use learning_kernel.DeviceTree.{is_null}
use learning_kernel.Kernel.Calls.{Kernel}
use learning_kernel.Kernel.Run.{World}
use learning_kernel.Kernel.Ledger.{Resource, ledger}
use learning_kernel.Kernel.Bus.{Driver}
use learning_kernel.Kernel.Bus.Binding.{Binds, accepting}
use learning_kernel.Icm20608.{Icm20608Device, icm20608_probe, icm20608_remove}
use learning_kernel.Icm20608.Setup.{registered, reginit-Programs}

abbrev pub icm20608_id : List String
icm20608_id = "alientek,icm20608" ∷ []

abbrev pub icm20608_of_match : List String
icm20608_of_match = "alientek,icm20608" ∷ []

abbrev pub icm20608_driver : Kernel → Driver Icm20608Device
icm20608_driver k = record {
  identity = record { name = "icm20608"; compatible = icm20608_of_match; ids = icm20608_id };
  probe = icm20608_probe k;
  remove = icm20608_remove k;
}

abbrev pub Free : World Icm20608Device → Type 0
Free w = ledger w.log ≡ some []

-- The misc device is registered, and the SPI device is set.
abbrev pub Bound : World Icm20608Device → Type 0
Bound w = (ledger w.log ≡ some (Resource.misc ∷ [])) × (is_null w.dev.spi ≡ false)

module _ (k : Kernel) where
  probe-Bound :
      (spi : ℕ) (w : World Icm20608Device) → Free w → Bound (icm20608_probe (accepting k) spi w).1
  unfolding icm20608_probe
  probe-Bound spi w f =
      let ready = registered (accepting k) w spi in
      let programs = reginit-Programs (accepting k) in
      ground (arith, programs.kept ready (Resource.misc ∷ []), programs.same_dev ready)

  -- The probe always returns 0.
  pub probe-zero :
      (spi : ℕ) (w : World Icm20608Device)
      → Free w
      → is_nonzero ((icm20608_driver (accepting k)).probe spi w).0 ≡ false
  unfolding icm20608_probe
  probe-zero spi w f = refl

  pub icm20608-Binds : Binds (icm20608_driver (accepting k)) Free Bound
  unfolding icm20608_remove
  icm20608-Binds = record {
    probe_fails = λ spi w f e. absurd (ground (arith, probe-zero spi w f));
    probe_binds = λ spi w f e. probe-Bound spi w f;
    remove_frees = λ w b. ground arith;
  }
