-- ===== src/Keyinput/Binding.antt =====
-- The driver tables of keyinput.c, and what the driver holds while a device is bound to it.
use learning_kernel.Prelude.{
  ℕ, Bool, List, [], ◌∷◌, ◌++◌, Option, none, some, ◌≡◌, arith, String, is_nonzero, false, true,
  eqb_ℤ-refl,
}
use learning_kernel.Kernel.Calls.{Kernel}
use learning_kernel.Kernel.Run.{World}
use learning_kernel.Kernel.Ledger.{Resource, ledger}
use learning_kernel.Kernel.Bus.{Driver}
use learning_kernel.Kernel.Bus.Binding.{Binds}
use learning_kernel.Keyinput.{KeyDev, mykey_probe, mykey_remove}
use learning_kernel.Keyinput.Lifecycle.{left}

abbrev pub key_of_match : List String
key_of_match = "alex,key" ∷ []

abbrev pub mykey_driver : Kernel → Driver KeyDev
mykey_driver k = record {
  identity = record { name = "keyboard"; compatible = key_of_match; ids = [] };
  probe = λ device. mykey_probe k;
  remove = mykey_remove k;
}

-- What failed calls have left, and nothing else.
abbrev pub Free : World KeyDev → Type 0
Free w = ledger w.log ≡ some (left w.log)

abbrev inputs : Option ℕ → List Resource
inputs none = []
inputs (some p) = Resource.input p ∷ []

abbrev pub has_input : Option ℕ → Bool
has_input none = false
has_input (some p) = true

-- There is an input device, and the driver holds it, the interrupt and the line besides.
abbrev pub Bound : World KeyDev → Type 0
Bound w =
    (has_input w.dev.iputdev ≡ true)
    × (ledger w.log
        ≡ some (
            inputs w.dev.iputdev ++ Resource.irq w.dev.irq ∷ Resource.gpio w.dev.gpio ∷ left w.log))

module _ (k : Kernel) (w : World KeyDev) where
  probe-Free : Free w → is_nonzero (mykey_probe k w).0 ≡ true → Free (mykey_probe k w).1
  unfolding mykey_probe
  probe-Free f e =
      ground
        (arith, eqb_ℤ-refl (mykey_probe k w).1.dev.gpio, eqb_ℤ-refl (mykey_probe k w).1.dev.irq)

  probe-Bound : Free w → is_nonzero (mykey_probe k w).0 ≡ false → Bound (mykey_probe k w).1
  unfolding mykey_probe
  probe-Bound f e =
      ground
        (arith, eqb_ℤ-refl (mykey_probe k w).1.dev.gpio, eqb_ℤ-refl (mykey_probe k w).1.dev.irq)

  remove-Free : Bound w → Free (mykey_remove k w).1
  unfolding mykey_remove
  remove-Free b = ground (arith, eqb_ℤ-refl w.dev.gpio, eqb_ℤ-refl w.dev.irq)

pub mykey-Binds : (k : Kernel) → Binds (mykey_driver k) Free Bound
mykey-Binds k = record {
  probe_fails = λ device w f e. probe-Free k w f e;
  probe_binds = λ device w f e. probe-Bound k w f e;
  remove_frees = λ w b. remove-Free k w b;
}
