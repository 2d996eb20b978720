-- ===== src/Buses.antt =====
-- The drivers under openedv/linux/stm32mp157 that a bus binds to their devices: 19_miscbeep,
-- 20_input/keyinput.c, 21_iic, 22_spi and 23_multitouch. How the bus matches a device with a driver
-- is a parameter, which sees the driver's tables.
mod Tables
mod Examples
use learning_kernel.Prelude.{
  Bool-cases, ℕ, ℤ, pos, Bool, true, false, ◌&&◌, ◌||◌, String, List, [], ◌∷◌, some, ◌≡◌, ◌≤◌, inl,
  inr, refl, arith, suc, is_nonzero, if◌then◌else◌,
}
use learning_kernel.Kernel.Calls
use learning_kernel.Kernel.Calls.{Kernel, Event}
use learning_kernel.Kernel.Run.{World}
use learning_kernel.Kernel.Bus.{Identity, Action, System, fits, acts, vacant}
use learning_kernel.Kernel.Bus.Binding.{IsConsistent, accepting, acts-IsConsistent, acts-IsUsed}
use learning_kernel.Ap3216c
use learning_kernel.Icm20608
use learning_kernel.Keyinput

module _ (matches : Identity → ℕ → Bool) (k : Kernel) (todo : List Action) where
  -- What has become of a driver for which nothing was there at first.
  abbrev pub ap3216c_bus : World Ap3216c.Ap3216cDevice → System Ap3216c.Ap3216cDevice
  ap3216c_bus w = acts matches (Ap3216c.Binding.ap3216c_driver (accepting k)) todo (vacant w)

  abbrev pub icm20608_bus : World Icm20608.Icm20608Device → System Icm20608.Icm20608Device
  icm20608_bus w = acts matches (Icm20608.Binding.icm20608_driver (accepting k)) todo (vacant w)

  abbrev pub keyinput_bus : World Keyinput.KeyDev → System Keyinput.KeyDev
  keyinput_bus w = acts matches (Keyinput.Binding.mykey_driver k) todo (vacant w)

  abbrev pub Ap3216cConsistent : World Ap3216c.Ap3216cDevice → Type 0
  Ap3216cConsistent w =
      IsConsistent matches (Ap3216c.Binding.ap3216c_driver (accepting k)) Ap3216c.Binding.Free
        Ap3216c.Binding.Bound (ap3216c_bus w)

  abbrev pub Icm20608Consistent : World Icm20608.Icm20608Device → Type 0
  Icm20608Consistent w =
      IsConsistent matches (Icm20608.Binding.icm20608_driver (accepting k)) Icm20608.Binding.Free
        Icm20608.Binding.Bound (icm20608_bus w)

  abbrev pub KeyinputConsistent : World Keyinput.KeyDev → Type 0
  KeyinputConsistent w =
      IsConsistent matches (Keyinput.Binding.mykey_driver k) Keyinput.Binding.Free
        Keyinput.Binding.Bound (keyinput_bus w)

  -- However the bus matches, devices may come and go and the modules of ap3216c.c, icm20608.c and
  -- keyinput.c may be loaded and unloaded in any order and as often as one likes, from a driver that
  -- is not loaded and holds nothing: a driver that is bound has its module loaded and a device that
  -- matches. If misc devices can be registered, a bound ap3216c.c or icm20608.c holds its misc
  -- device, once, and knows its client or SPI device, and one that is not bound holds nothing. A
  -- bound keyinput.c holds its input device, interrupt and line, once each, and besides only what
  -- failed calls have left; one that is not bound holds only that.
  pub drivers-IsConsistent :
      (wa : World Ap3216c.Ap3216cDevice) (wi : World Icm20608.Icm20608Device)
      (wk : World Keyinput.KeyDev)
      → Ap3216c.Binding.Free wa
      → Icm20608.Binding.Free wi
      → Keyinput.Binding.Free wk
      → Ap3216cConsistent wa × Icm20608Consistent wi × KeyinputConsistent wk
  drivers-IsConsistent wa wi wk fa fi fk = (
    acts-IsConsistent matches (Ap3216c.Binding.ap3216c_driver (accepting k)) Ap3216c.Binding.Free
        Ap3216c.Binding.Bound (Ap3216c.Binding.ap3216c-Binds k) todo (vacant wa) (inr (refl, fa)),
    acts-IsConsistent matches (Icm20608.Binding.icm20608_driver (accepting k)) Icm20608.Binding.Free
        Icm20608.Binding.Bound (Icm20608.Binding.icm20608-Binds k) todo (vacant wi)
        (inr (refl, fi)),
    acts-IsConsistent matches (Keyinput.Binding.mykey_driver k) Keyinput.Binding.Free
        Keyinput.Binding.Bound (Keyinput.Binding.mykey-Binds k) todo (vacant wk) (inr (refl, fk)),
  )

  -- The driver is bound exactly if it is loaded and a device that matches it is there.
  abbrev pub Ap3216cUsed : System Ap3216c.Ap3216cDevice → Type 0
  Ap3216cUsed p =
      p.bound ≡ (p.driver && fits matches (Ap3216c.Binding.ap3216c_driver (accepting k)) p.device)

  abbrev pub Icm20608Used : System Icm20608.Icm20608Device → Type 0
  Icm20608Used p =
      p.bound ≡ (p.driver && fits matches (Icm20608.Binding.icm20608_driver (accepting k)) p.device)

  -- However the bus matches, and in whichever order devices come and go and modules are loaded and
  -- unloaded: if misc devices can be registered, icm20608.c is bound exactly if its module is loaded
  -- and a device that matches is there, and ap3216c.c is so if the sensor's registers can be written.
  pub sensors-used :
      (wa : World Ap3216c.Ap3216cDevice) (wi : World Icm20608.Icm20608Device)
      → ((log : List Event) (reg value : ℕ) → k.int log (Calls.i2c_write reg value) ≡ pos 1)
      → Ap3216c.Binding.Free wa
      → Icm20608.Binding.Free wi
      → Ap3216cUsed (ap3216c_bus wa) × Icm20608Used (icm20608_bus wi)
  sensors-used wa wi writes fa fi = (
    acts-IsUsed matches (Ap3216c.Binding.ap3216c_driver (accepting k)) Ap3216c.Binding.Free
        Ap3216c.Binding.Bound (Ap3216c.Binding.ap3216c-Binds k)
        (Ap3216c.Binding.probe-zero k writes) todo (vacant wa) (inr (refl, fa)) refl,
    acts-IsUsed matches (Icm20608.Binding.icm20608_driver (accepting k)) Icm20608.Binding.Free
        Icm20608.Binding.Bound (Icm20608.Binding.icm20608-Binds k) (Icm20608.Binding.probe-zero k)
        todo (vacant wi) (inr (refl, fi)) refl,
  )
