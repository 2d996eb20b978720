-- ===== src/Xbus/Lifecycle.antt =====
-- What the three modules of drivers/xbus hold after they have been loaded and unloaded.
use learning_kernel.Prelude.{
  true, ◌∷◌, Bool, ◌&&◌, not, List, [], some, none, ◌≡◌, arith, is_neg, if◌then◌else◌,
}
use learning_kernel.Kernel.Calls
use learning_kernel.Kernel.Calls.{Kernel, Event}
use learning_kernel.Kernel.Run.{World}
use learning_kernel.Kernel.Ledger.{ledger}
use learning_kernel.Xbus.{
  load_unload, xbus_init, xbus_exit, xdev_init, xdev_exit, xdrv_init, xdrv_exit,
}

-- The bus, the device and the driver could be registered.
abbrev pub registered : List Event → Bool
registered [] = true
registered (e ∷ es) = elim e.call [
  | Calls.bus_register ↦ not (is_neg e.ret) && registered es
  | Calls.device_register ↦ not (is_neg e.ret) && registered es
  | Calls.driver_register ↦ not (is_neg e.ret) && registered es
  | _ ↦ registered es
]

module _ (k : Kernel) {S : Type 0} (w : World S) where
  -- From nothing held and nothing failed: loading the bus, the device and the driver and unloading
  -- them again gives back everything once if the three registrations succeed; if one fails, its
  -- attribute file is made all the same.
  xbus_modules-ledger :
      ledger w.log ≡ some []
      → registered w.log ≡ true
      → ledger (load_unload k w).log ≡ (if registered (load_unload k w).log then some [] else none)
  unfolding load_unload xbus_init xbus_exit xdev_init xdev_exit xdrv_init xdrv_exit
  xbus_modules-ledger h r = ground arith
