-- ===== src/Dtsled/Lifecycle.antt =====
-- What dtsled.c holds over the life of the module.
use learning_kernel.Prelude.{
  pos, true, false, [], ◌++◌, some, none, ◌≡◌, ◌⊎◌, arith, if◌then◌else◌, is_neg,
}
use learning_kernel.Kernel.Calls.{Kernel}
use learning_kernel.Kernel.Run.{World}
use learning_kernel.Kernel.Ledger.{ledger}
use learning_kernel.Chrdev.{
  Chrdev, register, held, register-Registers, unregister_releases, register_fails, unregister_fails,
}
use learning_kernel.Mmio
use learning_kernel.Mmio.{set, init_registers}
use learning_kernel.Mmio.Mapping.{
  unmapped, registers, SetsUp, of_iomap-SetsUp, unmap_releases, unmap_below, unmap_fails,
}
use learning_kernel.Dtsled.{
  DtsledDev, led_init, led_exit, read_node, led_remap, led_unmap, load_unload,
}

abbrev chr_world : World DtsledDev → World Chrdev
chr_world w = record { dev = w.dev.chr; log = w.log }

abbrev with_chr : World DtsledDev → World Chrdev → World DtsledDev
with_chr w c = record { dev = record w.dev { chr = c.dev }; log = c.log }

module _ (k : Kernel) (w : World DtsledDev) where
  -- The world in which the device is registered.
  abbrev pub set_up : World DtsledDev
  set_up = (init_registers k (set 0xFFFFFFFE) (led_remap k w).1).1

  abbrev registered : World DtsledDev
  registered = with_chr set_up (register k (chr_world set_up)).1

  init_holds :
      ledger set_up.log ≡ some (registers [])
      → ((led_init k w).0 ≡ pos 0)
          × (ledger (led_init k w).1.log ≡ some (held (led_init k w).1.dev.chr ++ registers []))
        ⊎ (is_neg (led_init k w).0 ≡ true) × (ledger (led_init k w).1.log ≡ some [])
  unfolding led_init led_remap
  init_holds h = ground (
    arith,
    register-Registers k (chr_world set_up) (registers []) h,
    unmap_releases k registered [],
  )

  init_fails : ledger set_up.log ≡ none → ledger (led_init k w).1.log ≡ none
  unfolding led_init led_remap
  init_fails h = ground (arith, register_fails k (chr_world set_up) h, unmap_fails k registered)

  exit_releases :
      ledger w.log ≡ some (held w.dev.chr ++ registers []) → ledger (led_exit k w).1.log ≡ some []
  unfolding led_exit led_unmap Mmio.led_unmap
  exit_releases h =
      unregister_releases k (chr_world (Mmio.led_unmap k w).1) [] (unmap_below k w w.dev.chr h)

  exit_fails : ledger w.log ≡ none → ledger (led_exit k w).1.log ≡ none
  unfolding led_exit led_unmap
  exit_fails h = unregister_fails k (chr_world (Mmio.led_unmap k w).1) (unmap_fails k w h)

  set_up-SetsUp : ledger w.log ≡ some [] → unmapped w.log ≡ false → SetsUp set_up.log
  unfolding led_remap read_node
  set_up-SetsUp h f =
      of_iomap-SetsUp k (read_node k w).1 (set 0xFFFFFFFE) (ground arith) (ground arith)

module _ (k : Kernel) (w : World DtsledDev) where
  pub dtsled_module_clean :
      ledger w.log ≡ some []
      → unmapped w.log ≡ false
      → ledger (load_unload k w).log ≡ (if unmapped (set_up k w).log then none else some [])
  unfolding load_unload
  dtsled_module_clean h f = ground (
    arith,
    set_up-SetsUp k w h f,
    init_holds k w,
    init_fails k w,
    exit_releases k (led_init k w).1,
    exit_fails k (led_init k w).1,
  )
