-- ===== src/Myclass/Lifecycle.antt =====
-- What myclass.c holds when it has been loaded, and after it has been unloaded.
use learning_kernel.Prelude.{
  ℕ, ◌+◌, ℤ, Bool, true, false, List, [], ◌∷◌, some, ◌≡◌, arith, if◌then◌else◌, is_neg, zero, suc,
  eqb_ℤ-refl,
}
use learning_kernel.Kernel.Calls
use learning_kernel.Kernel.Calls.{Kernel, Event}
use learning_kernel.Kernel.Run.{World, call_status_out, call_pointer}
use learning_kernel.Kernel.Ledger.{Resource, ledger, regions}
use learning_kernel.Myclass.{
  Myclass, led_chrdev_init, led_chrdev_exit, cur_dev, add_all, remove_all, load_unload,
}

-- No call has failed.
abbrev pub flawless : List Event → Bool
flawless [] = true
flawless (e ∷ es) = if is_neg e.ret then false else flawless es

-- The device numbers of the loops are those of the region.
cur_dev-devno : (d i : ℕ) → cur_dev d i ≡ d + i
cur_dev-devno d i = omega arith

-- What `n` rounds of the first loop add to the class and the region.
abbrev built : ℤ → ℕ → ℕ → List Resource
built c d zero = Resource.class c ∷ regions d 3
built c d (suc n) = Resource.device c (cur_dev d n) ∷ Resource.cdev n ∷ built c d n

module _ (k : Kernel) (w : World Myclass) where
  abbrev c : ℤ
  c = w.dev.led_chrdev_class

  add_all-built :
      ledger w.log ≡ some (built c w.dev.devno 0)
      → flawless (add_all k 3 0 w).1.log ≡ true
      → ledger (add_all k 3 0 w).1.log ≡ some (built c w.dev.devno 3)
  unfolding add_all
  add_all-built h f = ground (
    arith,
    cur_dev-devno w.dev.devno 0,
    cur_dev-devno w.dev.devno 1,
    cur_dev-devno w.dev.devno 2,
    eqb_ℤ-refl c,
  )

  exit_releases :
      ledger w.log ≡ some (built c w.dev.devno 3) → ledger (led_chrdev_exit k w).1.log ≡ some []
  unfolding led_chrdev_exit remove_all
  exit_releases h = ground (arith, eqb_ℤ-refl c)

module _ (k : Kernel) (w : World Myclass) where
  -- The world after class_create.
  abbrev numbered : World Myclass
  numbered =
      let r = call_status_out k (Calls.alloc_chrdev_regions 3) w in
      let d = if is_neg r.0.0 then w.dev else record w.dev { devno = r.0.1 } in
      let class = call_pointer k Calls.class_create (record { dev = d; log = r.1.log }) in
      record { dev = record d { led_chrdev_class = class.0 }; log = class.1.log }

  flawless-numbered : flawless (add_all k 3 0 numbered).1.log ≡ true → flawless numbered.log ≡ true
  unfolding add_all
  flawless-numbered f = ground arith

  numbered-built :
      ledger w.log ≡ some []
      → flawless numbered.log ≡ true
      → ledger numbered.log ≡ some (built numbered.dev.led_chrdev_class numbered.dev.devno 0)
  numbered-built h f = ground arith

  init-built :
      ledger w.log ≡ some []
      → flawless (led_chrdev_init k w).1.log ≡ true
      → ledger (led_chrdev_init k w).1.log
        ≡ some
            (built (led_chrdev_init k w).1.dev.led_chrdev_class (led_chrdev_init k w).1.dev.devno 3)
  unfolding led_chrdev_init add_all
  init-built h f = add_all-built k numbered (numbered-built h (flawless-numbered f)) f

  -- For a driver that holds nothing at first, when no call fails: loading the module and unloading
  -- it give back the three device numbers, the class, and the cdev and the device of every LED, once.
  pub myclass_module_clean :
      ledger w.log ≡ some []
      → flawless (load_unload k w).log ≡ true
      → ledger (load_unload k w).log ≡ some []
  unfolding load_unload led_chrdev_exit remove_all
  myclass_module_clean h f = exit_releases k (led_chrdev_init k w).1 (init-built h f)
