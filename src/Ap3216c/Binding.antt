-- ===== src/Ap3216c/Binding.antt =====
-- The driver tables of ap3216c.c, and what the driver holds while a device is bound to it.
use learning_kernel.Prelude.{false, List, [], ◌∷◌, some, ℕ, ◌≡◌, pos, arith, is_nonzero, String}
use learning_kernel.DeviceTree.{is_null}
use learning_kernel.Kernel.Calls
use learning_kernel.Kernel.Calls.{Kernel, Event}
use learning_kernel.Kernel.Run.{World}
use learning_kernel.Kernel.Ledger.{Resource, ledger}
use learning_kernel.Kernel.Bus.{Driver}
use learning_kernel.Kernel.Bus.Binding.{Binds, accepting}
use learning_kernel.Ap3216c.{Ap3216cDevice, ap3216c_probe, ap3216c_remove}

abbrev pub ap3216c_id : List String
ap3216c_id = "ap3216c" ∷ []

abbrev pub ap3216c_of_match : List String
ap3216c_of_match = "LiteOn,ap3216c" ∷ []

-- Built with the device tree.
abbrev pub ap3216c_driver : Kernel → Driver Ap3216cDevice
ap3216c_driver k = record {
  identity = record { name = "ap3216c"; compatible = ap3216c_of_match; ids = ap3216c_id };
  probe = ap3216c_probe k;
  remove = ap3216c_remove k;
}

abbrev pub Free : World Ap3216cDevice → Type 0
Free w = ledger w.log ≡ some []

-- The misc device is registered, and the client is set.
abbrev pub Bound : World Ap3216cDevice → Type 0
Bound w = (ledger w.log ≡ some (Resource.misc ∷ [])) × (is_null w.dev.client ≡ false)

module _ (k : Kernel) where
  pub ap3216c-Binds : Binds (ap3216c_driver (accepting k)) Free Bound
  unfolding ap3216c_probe ap3216c_remove
  ap3216c-Binds = record {
    probe_fails = λ client w f e. ground arith;
    probe_binds = λ client w f e. ground arith;
    remove_frees = λ w b. ground arith;
  }

  -- The probe succeeds if the sensor's registers can be written.
  pub probe-zero :
      ((log : List Event) (reg value : ℕ) → k.int log (Calls.i2c_write reg value) ≡ pos 1)
      → (client : ℕ) (w : World Ap3216cDevice) → Free w
      → is_nonzero ((ap3216c_driver (accepting k)).probe client w).0 ≡ false
  unfolding ap3216c_probe
  probe-zero writes client w f =
      let reset : Event = record { call = Calls.i2c_write 0x00 0x04; ret = pos 1; out = 0 } in
      let delay : Event = record { call = Calls.mdelay 50; ret = pos 0; out = 0 } in
      ground (arith, writes w.log 0x00 0x04, writes (delay ∷ reset ∷ w.log) 0x00 0x03)
