-- ===== src/Ft5x06/Driver/Lifecycle.antt =====
-- What ft5x06.c leaves to the kernel when a probe has failed, and after a remove.
use learning_kernel.Prelude.{
  ℕ, suc, zero, ℤ, pos, negsuc, Bool, true, List, [], ◌∷◌, none, some, ◌≡◌, ◌⊎◌, arith,
  if◌then◌else◌, is_nonzero, eqb_ℤ-refl,
}
use learning_kernel.Kernel.Calls
use learning_kernel.Kernel.Calls.{Kernel, Event, Call}
use learning_kernel.Kernel.Run.{World, run_call, call_object}
use learning_kernel.Kernel.Ledger.{Resource, ledger, drop_one}
use learning_kernel.Ft5x06.Driver.{
  EdtFt5426Dev, edt_ft5426_ts_reset, edt_ft5426_ts_irq, edt_ft5426_ts_write, register_input,
  edt_ft5426_ts_probe, edt_ft5426_ts_remove, bind_unbind,
}

abbrev obtained : ℤ → (ℕ → Resource) → List Resource → List Resource
obtained (pos zero) r rest = rest
obtained (pos (suc p)) r rest = r p ∷ rest
obtained (negsuc n) r rest = rest

abbrev managed_by : Event → List Resource → List Resource
managed_by e rest = elim e.call [
  | Calls.devm_kmalloc ↦ obtained e.ret Resource.memory rest
  | Calls.devm_input_allocate_device ↦ obtained e.ret Resource.input rest
  | Calls.devm_gpio_request_one g ↦ if is_nonzero e.ret then rest else Resource.gpio g ∷ rest
  | Calls.devm_request_threaded_irq i ↦ if is_nonzero e.ret then rest else Resource.irq i ∷ rest
  | Calls.input_unregister_device input ↦ elim input [
    | none ↦ rest
    | some p ↦ drop_one (Resource.input p) rest
  ]
  | _ ↦ rest
]

-- What the `devm_` calls have obtained, without an input device that has been unregistered, which
-- ends its management. The kernel gives it back by itself when the device is unbound.
abbrev pub managed : List Event → List Resource
managed [] = []
managed (e ∷ es) = managed_by e (managed es)

-- Everything that is held is managed.
abbrev pub Managed : World EdtFt5426Dev → Type 0
Managed w = ledger w.log ≡ some (managed w.log)

module _ (k : Kernel) (gpio_is_valid : ℤ → Bool) (gpio_to_irq : ℤ → ℤ)
    (w : World EdtFt5426Dev) where
  abbrev after_reset : ℤ × World EdtFt5426Dev
  after_reset = edt_ft5426_ts_reset k gpio_is_valid gpio_to_irq w

  reset-Managed : Managed w → Managed after_reset.1
  unfolding edt_ft5426_ts_reset
  reset-Managed h = ground (arith, eqb_ℤ-refl after_reset.1.dev.reset_gpio)

  irq-Managed : Managed w → Managed (edt_ft5426_ts_irq k gpio_is_valid gpio_to_irq w).1
  unfolding edt_ft5426_ts_irq
  irq-Managed h = ground arith

  -- Until the second register is written.
  abbrev after_modes : World EdtFt5426Dev
  after_modes =
      let w1 = (run_call k (Calls.msleep 5) w).1 in
      let w2 = (edt_ft5426_ts_write k 0x00 (0 ∷ []) w1).1 in
      (edt_ft5426_ts_write k 0xA4 (1 ∷ []) w2).1

  modes-Managed : Managed w → Managed after_modes
  unfolding edt_ft5426_ts_write
  modes-Managed h = ground arith

  abbrev with_input : World EdtFt5426Dev
  with_input = (call_object k Calls.devm_input_allocate_device w).1

  abbrev registered : ℤ × World EdtFt5426Dev
  registered =
      register_input k gpio_is_valid gpio_to_irq (k.object w.log Calls.devm_input_allocate_device)
        with_input

  register-Managed :
      Managed w
      → (is_nonzero registered.0 ≡ true) × Managed registered.1
        ⊎ (registered.0 ≡ pos 0)
          × Managed (edt_ft5426_ts_remove k gpio_is_valid gpio_to_irq registered.1).1
  unfolding register_input edt_ft5426_ts_remove
  register-Managed h = ground arith

module _ (k : Kernel) (gpio_is_valid : ℤ → Bool) (gpio_to_irq : ℤ → ℤ)
    (w : World EdtFt5426Dev) where
  abbrev started : World EdtFt5426Dev
  started = (call_object k Calls.devm_kmalloc w).1

  abbrev reset_done : World EdtFt5426Dev
  reset_done = (edt_ft5426_ts_reset k gpio_is_valid gpio_to_irq started).1

  abbrev modes_set : World EdtFt5426Dev
  modes_set = after_modes k gpio_is_valid gpio_to_irq reset_done

  abbrev irq_taken : World EdtFt5426Dev
  irq_taken = (edt_ft5426_ts_irq k gpio_is_valid gpio_to_irq modes_set).1

  started-Managed : Managed w → Managed started
  started-Managed h = ground arith

  -- If everything that is held was obtained from managed calls at first, it is so after a probe that
  -- fails, at whichever call, and after a successful probe and a remove: what remains is given back
  -- by the kernel, and no buffer is overrun.
  pub bind_unbind-Managed : Managed w → Managed (bind_unbind k gpio_is_valid gpio_to_irq w)
  unfolding bind_unbind edt_ft5426_ts_probe
  bind_unbind-Managed h = ground (
    arith,
    started-Managed h,
    reset-Managed k gpio_is_valid gpio_to_irq started,
    modes-Managed k gpio_is_valid gpio_to_irq reset_done,
    irq-Managed k gpio_is_valid gpio_to_irq modes_set,
    register-Managed k gpio_is_valid gpio_to_irq irq_taken,
  )
