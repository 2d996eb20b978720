-- ===== src/Newchrled/Lifecycle.antt =====
-- What newchrled.c holds over the life of the module, and what its registers are set to.
use learning_kernel.Prelude.{
  pos, true, false, [], ◌++◌, some, none, ◌≡◌, ◌⊎◌, arith, if◌then◌else◌, is_neg,
}
use learning_kernel.Kernel.Calls.{Kernel}
use learning_kernel.Kernel.Run.{World}
use learning_kernel.Kernel.Ledger.{ledger}
use learning_kernel.Chrdev.{
  Chrdev, register, held, register-Registers, unregister_releases, register_fails, unregister_fails,
}
use learning_kernel.Mmio
use learning_kernel.Mmio.{set, init_registers}
use learning_kernel.Mmio.Mapping.{
  unmapped, registers, ioremap-SetsUp, unmap_releases, unmap_below, unmap_fails,
}
use learning_kernel.Led.{address}
use learning_kernel.Newchrled.{led_init, led_exit, led_remap, led_unmap, load_unload}

module _ (k : Kernel) (w : World Chrdev) where
  -- The world in which the device is registered.
  abbrev pub set_up : World Chrdev
  set_up = (init_registers k (set 0xFFFFFFFE) (led_remap k w).1).1

  init_holds :
      ledger set_up.log ≡ some (registers [])
      → ((led_init k w).0 ≡ pos 0)
          × (ledger (led_init k w).1.log ≡ some (held (led_init k w).1.dev ++ registers []))
        ⊎ (is_neg (led_init k w).0 ≡ true) × (ledger (led_init k w).1.log ≡ some [])
  unfolding led_init led_remap
  init_holds h = ground (
    arith,
    register-Registers k set_up (registers []) h,
    unmap_releases k (register k set_up).1 [],
  )

  exit_releases :
      ledger w.log ≡ some (held w.dev ++ registers []) → ledger (led_exit k w).1.log ≡ some []
  unfolding led_exit led_unmap Mmio.led_unmap
  exit_releases h = unregister_releases k (Mmio.led_unmap k w).1 [] (unmap_below k w w.dev h)

  exit_fails : ledger w.log ≡ none → ledger (led_exit k w).1.log ≡ none
  unfolding led_exit led_unmap
  exit_fails h = ground (arith, unmap_fails k w h, unregister_fails k (Mmio.led_unmap k w).1)

  init_fails : ledger set_up.log ≡ none → ledger (led_init k w).1.log ≡ none
  unfolding led_init led_remap
  init_fails h = ground (arith, register_fails k set_up h, unmap_fails k (register k set_up).1)

module _ (k : Kernel) (w : World Chrdev) where
  pub newchrled_module_clean :
      ledger w.log ≡ some []
      → unmapped w.log ≡ false
      → ledger (load_unload k w).log ≡ (if unmapped (set_up k w).log then none else some [])
  unfolding load_unload led_remap
  newchrled_module_clean h f = ground (
    arith,
    ioremap-SetsUp k w address (set 0xFFFFFFFE) h f,
    init_holds k w,
    init_fails k w,
    exit_releases k (led_init k w).1,
    exit_fails k (led_init k w).1,
  )
