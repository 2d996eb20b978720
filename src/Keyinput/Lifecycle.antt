-- ===== src/Keyinput/Lifecycle.antt =====
-- What keyinput.c holds when it has been bound to a device, and after it has been unbound.
use learning_kernel.Prelude.{
  Bool, List, [], ◌∷◌, some, ◌≡◌, arith, if◌then◌else◌, is_nonzero, eqb_ℤ-refl,
}
use learning_kernel.Kernel.Calls.{Kernel, Event, Call}
use learning_kernel.Kernel.Run.{World}
use learning_kernel.Kernel.Ledger.{Resource, ledger}
use learning_kernel.Keyinput.{KeyDev, mykey_probe, mykey_remove, bind_unbind}

-- What is left to the failed call.
abbrev pub left_by : Call → Bool → List Resource → List Resource
left_by (Call.gpio_direction_input g) failed rest = if failed then Resource.gpio g ∷ rest else rest
left_by (Call.input_register_device p) failed rest =
    if failed then Resource.input p ∷ rest else rest
left_by _ failed rest = rest

-- The lines whose direction could not be set, and the input devices that could not be registered.
abbrev pub left : List Event → List Resource
left [] = []
left (e ∷ es) = left_by e.call (is_nonzero e.ret) (left es)

module _ (k : Kernel) (w : World KeyDev) where
  -- For a driver that holds nothing and has left nothing at first: a probe and, if it succeeds, a
  -- remove give back every resource once, whichever call fails; but a line whose direction could not
  -- be set, and an input device that could not be registered, are held for good.
  pub bind_unbind-left :
      ledger w.log ≡ some []
      → left w.log ≡ []
      → ledger (bind_unbind k w).log ≡ some (left (bind_unbind k w).log)
  unfolding bind_unbind mykey_probe mykey_remove
  bind_unbind-left h l =
      ground
        (arith, eqb_ℤ-refl (mykey_probe k w).1.dev.gpio, eqb_ℤ-refl (mykey_probe k w).1.dev.irq)
