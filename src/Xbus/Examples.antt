-- ===== src/Xbus/Examples.antt =====
-- The theorems on the modules of drivers/xbus for a concrete kernel and concrete devices.
use learning_kernel.Prelude.{
  ℕ, pos, true, String, List, [], ◌∷◌, ◌++◌, ◌≡◌, ◌↔◌, refl, ◌==◌, if◌then◌else◌,
}
use learning_kernel.Kernel.Bus
use learning_kernel.Kernel.Bus.{arrive, leave}
use learning_kernel.Kernel.Run.{World}
use learning_kernel.Xbus.{xdev_name}
use learning_kernel.Xbus.Binding.{after, Named, xdrv-bound}
use learning_kernel.Kernel.Calls.{Kernel}
use learning_kernel.Kernel.Friendly.{friendly}
use learning_kernel.Xbus.Modules.{
  System, Holds, acts, welcoming, load, unload, xbus, xdev, xdrv, acts-Holds,
}

abbrev friend : Kernel
friend = friendly "" (λ log. pos 0) 0

abbrev cold : System
cold = record { loaded = []; world = record { dev = tt; log = [] } }

acts-Holds_example : Holds (
    acts
      (welcoming friend)
      (load xbus ∷ load xdrv ∷ load xdev ∷ unload xbus ∷ unload xdrv ∷ [])
      cold)
acts-Holds_example =
    acts-Holds friend (load xbus ∷ load xdrv ∷ load xdev ∷ unload xbus ∷ unload xdrv ∷ []) cold refl

-- Device 1 is "xdev2", any other "xde".
abbrev names : ℕ → List ℕ
names device = if device == 1 then xdev_name ++ 50 ∷ [] else 120 ∷ 100 ∷ 101 ∷ []

-- Every name of the example is "xdev".
abbrev spelling : String → List ℕ
spelling s = xdev_name

abbrev nothing : World (Unit {0})
nothing = record { dev = tt; log = [] }

abbrev story : List Bus.Action
story = arrive 2 ∷ Bus.load ∷ leave ∷ arrive 1 ∷ []

xdrv-bound_example : ((after spelling names story nothing).bound ≡ true) ↔ (
    ((after spelling names story nothing).driver ≡ true)
    × Named names (after spelling names story nothing).device)
xdrv-bound_example = xdrv-bound spelling names story nothing refl
