-- ===== src/Led/Lifecycle.antt =====
-- What led.c holds over the life of the module, and when its registers may be used.
use learning_kernel.Prelude.{false, [], some, none, ◌≡◌, arith, if◌then◌else◌}
use learning_kernel.Kernel.Calls
use learning_kernel.Kernel.Calls.{Kernel, Event}
use learning_kernel.Kernel.Run.{World}
use learning_kernel.Kernel.Ledger.{ledger}
use learning_kernel.Mmio
use learning_kernel.Mmio.{init_registers, led_remap, set}
use learning_kernel.Mmio.Mapping.{unmapped, ioremap-SetsUp}
use learning_kernel.Led.{address, led_init, led_exit, load_unload}

module _ (k : Kernel) (w : World (Unit {0})) where
  abbrev set_up : World (Unit {0})
  set_up =
      (init_registers k (set 0x1) (led_remap k (λ slot. Calls.ioremap slot (address slot)) w).1).1

  pub led_module_clean :
      ledger w.log ≡ some []
      → unmapped w.log ≡ false
      → ledger (load_unload k w).log ≡ (if unmapped (load_unload k w).log then none else some [])
  unfolding load_unload led_init led_exit Mmio.led_unmap
  led_module_clean h f = ground (arith, ioremap-SetsUp k w address (set 0x1) h f)
