-- ===== src/Sysfstest/Lifecycle.antt =====
-- What sysfstest.c holds after it has been loaded and unloaded.
use learning_kernel.Prelude.{ℤ, pos, true, List, [], ◌∷◌, some, none, ◌≡◌, ◌⊎◌, arith, is_nonzero}
use learning_kernel.Kernel.Calls.{Kernel}
use learning_kernel.Kernel.Run.{World}
use learning_kernel.Kernel.Errno.{enomem}
use learning_kernel.Kernel.Ledger.{Resource, ledger}
use learning_kernel.Sysfstest.{Sysfstest, chrdev_init, chrdev_exit, load_unload}

-- The kset of the device.
abbrev pub the_kset : Sysfstest → List Resource
the_kset d = elim d.chrdev_kset [ none ↦ [] | some kset ↦ Resource.kset kset ∷ [] ]

module _ (k : Kernel) (w : World Sysfstest) where
  abbrev pub rc : ℤ
  rc = (chrdev_init k w).0

  -- For a driver that holds nothing at first: after loading the module and, if that went well,
  -- unloading it, its kset is still held when the load succeeded or was out of memory; in any other
  -- failure of the load, an object is used that has been given back.
  pub load_unload-kset :
      ledger w.log ≡ some []
      → (ledger (load_unload k w).log ≡ some (the_kset (load_unload k w).dev))
          × ((rc ≡ pos 0) ⊎ (rc ≡ enomem))
        ⊎ (ledger (load_unload k w).log ≡ none) × (is_nonzero rc ≡ true)
  unfolding load_unload chrdev_init chrdev_exit
  load_unload-kset h = ground arith
