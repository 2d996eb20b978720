-- ===== src/PlatformLed/Bus.antt =====
-- The two modules of 17_platform on the platform bus: leddevice.c registers the device, leddriver.c
-- the driver, and the bus binds them when it has both.
use text.Mathlib.Text.{◌==◌ as str_eq}
use learning_kernel.Prelude.{
  ℕ, ℤ, Bool, true, false, not, ◌&&◌, ◌||◌, String, List, [], ◌∷◌, some, is_nonzero, ◌≡◌, refl,
  arith, if◌then◌else◌,
}
use learning_kernel.Kernel.Calls
use learning_kernel.Kernel.Calls.{Kernel, Event, Call, Status}
use learning_kernel.Kernel.Run.{World, M, run_call, call_status}
use learning_kernel.Kernel.Ledger.{Resource, ledger}
use learning_kernel.Mmio
use learning_kernel.Mmio.{init_registers}
use learning_kernel.Mmio.Mapping.{registers}
use learning_kernel.Led.{led_major}
use learning_kernel.PlatformLed.{led_probe, led_remove}
use learning_kernel.PlatformLed.Lifecycle.{remove_releases}

-- The names of the device and of the driver.
abbrev pub leddevice_name : String
leddevice_name = "stm32mp1-led"

abbrev pub led_driver_name : String
led_driver_name = "stm32mp1-led"

module _ (k : Kernel) where
  pub leddevice_init : M (Unit {0}) ℤ
  leddevice_init = call_status k Calls.platform_device_register

  pub leddevice_exit : M (Unit {0}) (Unit {0})
  leddevice_exit = run_call k Calls.platform_device_unregister

  pub leddriver_init : M (Unit {0}) ℤ
  leddriver_init = call_status k Calls.platform_driver_register

  pub leddriver_exit : M (Unit {0}) (Unit {0})
  leddriver_exit = run_call k Calls.platform_driver_unregister

-- What is registered, and whether the driver is bound to the device.
pub record Platform : Type 0 where
  pub device : Bool
  pub driver : Bool
  pub bound : Bool
  pub world : World (Unit {0})

pub data Module : Type 0 where
  leddevice leddriver : Module

pub data Action : Type 0 where
  load unload : Module → Action

module _ (k : Kernel) where
  -- With a device and a driver of the same name the bus calls the probe, and binds them if it
  -- returns 0.
  pub settle : Platform → Platform
  settle p =
      let probed = led_probe k p.world in
      if p.device && p.driver && not p.bound && str_eq leddevice_name led_driver_name
      then record p { bound = not (is_nonzero probed.0); world = probed.1 }
      else p

  -- Either of the two goes: the remove is called before.
  pub unbind : Platform → Platform
  unbind p = if p.bound then record p { bound = false; world = (led_remove k p.world).1 } else p

  -- A module is loaded only once, and only a loaded module is unloaded.
  pub act : Action → Platform → Platform
  unfolding settle unbind leddevice_init leddevice_exit leddriver_init leddriver_exit
  act (load leddevice) p =
      let r = leddevice_init k p.world in
      if p.device then p else settle (record p { device = not (is_nonzero r.0); world = r.1 })
  act (load leddriver) p =
      let r = leddriver_init k p.world in
      if p.driver then p else settle (record p { driver = not (is_nonzero r.0); world = r.1 })
  act (unload leddevice) p =
      let q = unbind p in
      if p.device then record q { device = false; world = (leddevice_exit k q.world).1 } else p
  act (unload leddriver) p =
      let q = unbind p in
      if p.driver then record q { driver = false; world = (leddriver_exit k q.world).1 } else p

  pub acts : List Action → Platform → Platform
  acts [] p = p
  acts (a ∷ rest) p = acts rest (act a p)

abbrev pub bound_held : List Resource
bound_held = Resource.chrdev led_major ∷ registers []

-- A bound driver has its device and holds the registers and the character device, and one that is
-- not bound holds nothing.
abbrev pub IsConsistent : Platform → Type 0
IsConsistent p =
    (ledger p.world.log ≡ some (if p.bound then bound_held else []))
    × (not p.bound || (p.device && p.driver) ≡ true)

-- A kernel in which the device has its resources and every register can be mapped.
abbrev pub giving : Kernel → (List Event → Call → ℕ) → Kernel
giving k object = record k { object = λ log c. some (object log c) }

module _ (k0 : Kernel) (object : List Event → Call → ℕ) where
  abbrev k : Kernel
  k = giving k0 object

  probe_holds :
      (w : World (Unit {0}))
      → ledger w.log ≡ some []
      → ledger (led_probe k w).1.log
        ≡ some (if not (is_nonzero (led_probe k w).0) then bound_held else [])
  unfolding led_probe Mmio.led_unmap init_registers
  probe_holds w h = ground arith

  settle-IsConsistent : (p : Platform) → IsConsistent p → IsConsistent (settle k p)
  unfolding settle
  settle-IsConsistent p c = ground (arith, probe_holds p.world)

  act-IsConsistent : (a : Action) (p : Platform) → IsConsistent p → IsConsistent (act k a p)
  unfolding act unbind
  act-IsConsistent (load leddevice) p c =
      let r = leddevice_init k p.world in
      ground (arith, settle-IsConsistent (record p { device = not (is_nonzero r.0); world = r.1 }))
  act-IsConsistent (load leddriver) p c =
      let r = leddriver_init k p.world in
      ground (arith, settle-IsConsistent (record p { driver = not (is_nonzero r.0); world = r.1 }))
  act-IsConsistent (unload leddevice) p c = ground (arith, remove_releases k p.world)
  act-IsConsistent (unload leddriver) p c = ground (arith, remove_releases k p.world)

  -- With the device's resources there and its registers mapped, the two modules may be loaded and
  -- unloaded in any order and as often as one likes, and registrations may fail: from a consistent
  -- state, a bound driver has its device and holds its six registers and its character device,
  -- once each, and a driver that is not bound holds nothing.
  pub acts-IsConsistent :
      (todo : List Action) (p : Platform) → IsConsistent p → IsConsistent (acts k todo p)
  unfolding acts
  acts-IsConsistent [] p c = c
  acts-IsConsistent (a ∷ rest) p c = acts-IsConsistent rest (act k a p) (act-IsConsistent a p c)

-- Neither is registered.
abbrev pub empty_bus : World (Unit {0}) → Platform
empty_bus w = record { device = false; driver = false; bound = false; world = w }

module _ (k0 : Kernel) (object : List Event → Call → ℕ) where
  -- Every registration succeeds as well.
  abbrev pub welcoming : Kernel
  welcoming = record (giving k0 object) { status = λ log c. Status.success }

  -- If every registration succeeds, the resources are there and the registers can be mapped, the
  -- driver is bound once both modules are loaded, whichever comes first: the names are the same.
  pub both-bound :
      (w : World (Unit {0}))
      → ((acts welcoming (load leddevice ∷ load leddriver ∷ []) (empty_bus w)).bound ≡ true)
        × ((acts welcoming (load leddriver ∷ load leddevice ∷ []) (empty_bus w)).bound ≡ true)
  unfolding acts act settle led_probe
  both-bound w = (refl, refl)
