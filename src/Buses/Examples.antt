-- ===== src/Buses/Examples.antt =====
-- The theorems on drivers and buses for a device that comes, goes and comes again.
use learning_kernel.Prelude.{ℕ, pos, Bool, [], ◌∷◌, none, refl, List, ◌==◌}
use learning_kernel.Kernel.Calls.{Kernel}
use learning_kernel.Kernel.Run.{World}
use learning_kernel.Kernel.Friendly.{friendly}
use learning_kernel.Kernel.Bus.{Identity, Action, arrive, leave, load, unload}
use learning_kernel.Ap3216c.{Ap3216cDevice}
use learning_kernel.Icm20608.{Icm20608Device}
use learning_kernel.Keyinput.{KeyDev}
use learning_kernel.Buses.{
  ap3216c_bus, icm20608_bus, Ap3216cConsistent, Icm20608Consistent, KeyinputConsistent, Ap3216cUsed,
  Icm20608Used, drivers-IsConsistent, sensors-used,
}

-- Device 7 matches, whatever the driver.
abbrev seventh : Identity → ℕ → Bool
seventh identity device = device == 7

abbrev willing : Kernel
willing = friendly "" (λ log. pos 0) 0

abbrev story : List Action
story = arrive 3 ∷ load ∷ leave ∷ arrive 7 ∷ unload ∷ load ∷ leave ∷ arrive 7 ∷ []

abbrev cold_sensor : World Ap3216cDevice
cold_sensor = record { dev = record { client = none }; log = [] }

abbrev cold_motion : World Icm20608Device
cold_motion = record { dev = record { spi = none }; log = [] }

abbrev cold_key : World KeyDev
cold_key = record { dev = record { iputdev = none; gpio = pos 0; irq = pos 0 }; log = [] }

drivers-IsConsistent_example :
    Ap3216cConsistent seventh willing story cold_sensor
    × Icm20608Consistent seventh willing story cold_motion
    × KeyinputConsistent seventh willing story cold_key
drivers-IsConsistent_example =
    drivers-IsConsistent seventh willing story cold_sensor cold_motion cold_key refl refl refl

sensors-used_example :
    Ap3216cUsed seventh willing story (ap3216c_bus seventh willing story cold_sensor)
    × Icm20608Used seventh willing story (icm20608_bus seventh willing story cold_motion)
sensors-used_example =
    sensors-used seventh willing story cold_sensor cold_motion (λ log reg value. refl) refl refl
