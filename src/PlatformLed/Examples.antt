-- ===== src/PlatformLed/Examples.antt =====
-- The theorem on openedv/linux/stm32mp157/17_platform for a concrete kernel.
use learning_kernel.Prelude.{ℕ, pos, [], ◌∷◌, Option, none, some, refl}
use learning_kernel.Kernel.Calls.{Kernel, Call}
use learning_kernel.Kernel.Run.{World}
use learning_kernel.Kernel.Friendly.{friendly}
use learning_kernel.PlatformLed.Bus.{
  IsConsistent, acts, giving, empty_bus, load, unload, leddevice, leddriver, acts-IsConsistent,
}

-- The device has a single memory resource.
abbrev found : Call → Option ℕ
found (Call.platform_get_resource (ℕ.suc i)) = none
found _ = some 1

abbrev willing : Kernel
willing = friendly "" (λ log. pos 0) 0

abbrev short : Kernel
short = record (friendly "" (λ log. pos 0) 0) { object = λ log c. found c }

abbrev cold : World (Unit {0})
cold = record { dev = tt; log = [] }

acts-IsConsistent_example : IsConsistent (
    acts
      (giving willing (λ log c. 1))
      (load leddriver ∷ load leddevice ∷ unload leddevice ∷ load leddevice ∷ [])
      (empty_bus cold))
acts-IsConsistent_example =
    acts-IsConsistent willing (λ log c. 1)
      (load leddriver ∷ load leddevice ∷ unload leddevice ∷ load leddevice ∷ []) (empty_bus cold)
      (refl, refl)
