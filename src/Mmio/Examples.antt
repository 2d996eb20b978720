-- ===== src/Mmio/Examples.antt =====
-- The theorems on the LED's registers for a concrete kernel.
use learning_kernel.Prelude.{
  ◌==◌, length, ℕ, ◌-◌, pos, List, [], ◌∷◌, some, none, ◌≡◌, refl, arith, if◌then◌else◌,
}
use learning_kernel.Kernel.Calls
use learning_kernel.Kernel.Calls.{Kernel, Event}
use learning_kernel.Kernel.Run.{World}
use learning_kernel.Kernel.Ledger.{ledger}
use learning_kernel.Kernel.Friendly.{friendly}
use learning_kernel.Chrdev.{Chrdev}
use learning_kernel.Mmio.{set, init_registers}
use learning_kernel.Mmio.Mapping.{unmapped}
use learning_kernel.Mmio.Fields.{Configured, init_registers-Configured}
use learning_kernel.Mmio.Pins.{pin, level, dark, obeys}
use learning_kernel.Mmio.Pins.Session.{session, commands, session-lamp}
use learning_kernel.Mmio.Modules.{led_modules_clean}
use learning_kernel.Led
use learning_kernel.Newchrled.Lifecycle.{set_up as newchrled_set_up}
use learning_kernel.Dtsled.Lifecycle.{set_up as dtsled_set_up}
use learning_kernel.Newchrled
use learning_kernel.Dtsled

abbrev willing : Kernel
willing = friendly "" (λ log. pos 0) 0

-- A text of one digit.
abbrev digit : List ℕ → ℕ
digit [] = 0
digit (c ∷ cs) = c - 48

abbrev mapped : Event
mapped = record { call = Calls.ioremap 0 0; ret = pos 2; out = 0 }

abbrev cold : World (Unit {0})
cold = record { dev = tt; log = [] }

abbrev chrdev : Chrdev
chrdev = record { devid = 0; major = 0; minor = 0; class_ptr = pos 0; device_ptr = pos 0 }

abbrev cold_chrdev : World Chrdev
cold_chrdev = record { dev = chrdev; log = [] }

abbrev cold_dtsled : World Dtsled.DtsledDev
cold_dtsled = record { dev = record { chr = chrdev; nd = none }; log = [] }

-- The user writes one digit after the other.
abbrev typing : Kernel
typing = record (friendly "" (λ log. pos 0) 0) {
  bytes = λ log c. if length log == 13 then 49 ∷ [] else 48 ∷ [];
}

session-lamp_example :
    let ready = (init_registers typing (set 0x1) cold).1 in
    pin 0 (session typing 128 digit (1 ∷ 1 ∷ []) ready).log
    ≡ some (level (obeys (commands typing 128 digit (1 ∷ 1 ∷ []) ready) dark))
session-lamp_example =
    session-lamp typing 128 digit (λ log. refl) (λ log n. omega arith) (omega arith) (1 ∷ 1 ∷ [])
      cold (omega arith, (omega arith, tt))

init_registers-Configured_example : Configured (init_registers willing (set 0x1) cold).1.log
init_registers-Configured_example = init_registers-Configured willing (set 0x1) cold

led_modules_clean_example :
    (ledger (Led.load_unload willing cold).log
      ≡ (if unmapped (Led.load_unload willing cold).log then none else some []))
    × (ledger (Newchrled.load_unload willing cold_chrdev).log
        ≡ (if unmapped (newchrled_set_up willing cold_chrdev).log then none else some []))
    × (ledger (Dtsled.load_unload willing cold_dtsled).log
        ≡ (if unmapped (dtsled_set_up willing cold_dtsled).log then none else some []))
led_modules_clean_example =
    led_modules_clean willing cold cold_chrdev cold_dtsled refl refl refl refl refl refl
