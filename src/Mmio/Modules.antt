-- ===== src/Mmio/Modules.antt =====
-- The modules of the LED: 02_led/led.c, 03_newchrled/newchrled.c and 04_dtsled/dtsled.c.
use learning_kernel.Prelude.{false, [], some, none, ◌≡◌, if◌then◌else◌}
use learning_kernel.Kernel.Calls.{Kernel}
use learning_kernel.Kernel.Run.{World}
use learning_kernel.Kernel.Ledger.{ledger}
use learning_kernel.Chrdev.{Chrdev}
use learning_kernel.Mmio.Mapping.{unmapped}
use learning_kernel.Led
use learning_kernel.Led.Lifecycle.{led_module_clean}
use learning_kernel.Newchrled
use learning_kernel.Newchrled.Lifecycle.{set_up as newchrled_set_up}
use learning_kernel.Newchrled.Lifecycle.{newchrled_module_clean}
use learning_kernel.Dtsled
use learning_kernel.Dtsled.Lifecycle.{set_up as dtsled_set_up}
use learning_kernel.Dtsled.Lifecycle.{dtsled_module_clean}

module _ (k : Kernel) (u : World (Unit {0})) (v : World Chrdev) (w : World Dtsled.DtsledDev) where
  -- For each of led.c, newchrled.c and dtsled.c, holding nothing and having failed to map nothing at
  -- first: loading the module and, if that went well, unloading it give back every mapping, the
  -- device numbers, the cdev, the class and the device once, whichever step of the registration
  -- fails, if all six registers could be mapped. If one could not be mapped, it is used or unmapped
  -- all the same.
  pub led_modules_clean :
      ledger u.log ≡ some []
      → unmapped u.log ≡ false
      → ledger v.log ≡ some []
      → unmapped v.log ≡ false
      → ledger w.log ≡ some []
      → unmapped w.log ≡ false
      → (ledger (Led.load_unload k u).log
          ≡ (if unmapped (Led.load_unload k u).log then none else some []))
        × (ledger (Newchrled.load_unload k v).log
            ≡ (if unmapped (newchrled_set_up k v).log then none else some []))
        × (ledger (Dtsled.load_unload k w).log
            ≡ (if unmapped (dtsled_set_up k w).log then none else some []))
  led_modules_clean hu fu hv fv hw fw =
      (led_module_clean k u hu fu, newchrled_module_clean k v hv fv, dtsled_module_clean k w hw fw)
