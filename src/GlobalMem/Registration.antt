-- ===== src/GlobalMem/Registration.antt =====
-- The loading and unloading of drivers/globalMem/global_mem.c.
use learning_kernel.Prelude.{
  ℕ, ℤ, pos, Bool, true, false, not, ◌||◌, ◌==◌, ◌≡◌, arith, List, [], ◌∷◌, Option, none, some,
  is_neg, if◌then◌else◌,
}
use learning_kernel.Kernel.Calls
use learning_kernel.Kernel.Calls.{Kernel, Event, Call}
use learning_kernel.Kernel.Errno.{enomem}
use learning_kernel.Kernel.Ledger.{ledger}
use learning_kernel.Kernel.Run.{
  World, M, pure, ◌>>=◌, ◌>>◌, get, modify, run_call, call_status, call_object, call_status_out,
}
use learning_kernel.Chrdev.{mkdev, major_of, minor_of}

-- `globalmem_major` and `globalmem_devp`.
pub record Globals : Type 0 where
  pub globalmem_major : ℕ
  pub globalmem_devp : Option ℕ

module _ (k : Kernel) where
  register_given : ℕ → M Globals (ℤ × ℕ)
  register_given devno = do
    result ← call_status k (Calls.register_chrdev_region devno)
    pure (result, devno)

  -- alloc_chrdev_region stores the number only when it succeeds; the major number is set anyway.
  register_any : ℕ → M Globals (ℤ × ℕ)
  register_any devno = do
    r ← call_status_out k Calls.alloc_chrdev_region
    number ← pure (if is_neg r.0 then devno else r.1)
    modify (λ d. record d { globalmem_major = major_of number })
    pure (r.0, number)

  take_numbers : M Globals (ℤ × ℕ)
  unfolding register_given register_any
  take_numbers = do
    d ← get
    let devno = mkdev d.globalmem_major 0 in
        if not (d.globalmem_major == 0) then register_given devno else register_any devno

  -- A failure is only printed.
  pub globalmem_setup_cdev : ℕ → M Globals (Unit {0})
  globalmem_setup_cdev index = do
    d ← get
    call_status k (Calls.cdev_add 0 (mkdev d.globalmem_major index))
    pure tt

  set_up : ℕ → Option ℕ → M Globals ℤ
  unfolding globalmem_setup_cdev
  set_up devno none = do run_call k (Calls.unregister_chrdev_region devno); pure enomem
  set_up devno (some devp) = do globalmem_setup_cdev 0; pure (pos 0)

  pub globalmem_init : M Globals ℤ
  unfolding take_numbers set_up
  globalmem_init = do
    r ← take_numbers
    if is_neg r.0 then pure r.0 else do
      devp ← call_object k Calls.kmalloc
      modify (λ d. record d { globalmem_devp = devp })
      set_up r.1 devp

  free_memory : Option ℕ → M Globals (Unit {0})
  free_memory none = pure tt
  free_memory (some devp) = run_call k (Calls.kfree devp)

  pub globalmem_exit : M Globals (Unit {0})
  unfolding free_memory
  globalmem_exit = do
    d ← get
    run_call k (Calls.cdev_del 0)
    free_memory d.globalmem_devp
    run_call k (Calls.unregister_chrdev_region (mkdev d.globalmem_major 0))

  -- The module is loaded and, if that went well, unloaded again.
  pub load_unload : World Globals → World Globals
  load_unload w = let r = globalmem_init w in if is_neg r.0 then r.1 else (globalmem_exit r.1).1

abbrev adds : Call → Bool
adds (Call.cdev_add slot d) = true
adds _ = false

-- A cdev could not be added.
abbrev pub add_failed : List Event → Bool
add_failed [] = false
add_failed (e ∷ es) = if adds e.call then is_neg e.ret || add_failed es else add_failed es

-- If the kernel allocates minor number 0, which it is asked for, and nothing is held at first:
-- loading the module and unloading it give back every resource once, with a fixed as with a dynamic
-- major number, and whichever call fails, except for cdev_add; its failure is not noticed, and then
-- unloading deletes a cdev that was never added.
pub globalmem_module_clean :
    (k : Kernel) (w : World Globals)
    → ((log : List Event) → minor_of (k.number log Calls.alloc_chrdev_region) ≡ 0)
    → ledger w.log ≡ some []
    → add_failed w.log ≡ false
    → ledger (load_unload k w).log ≡ (if add_failed (load_unload k w).log then none else some [])
unfolding load_unload globalmem_init globalmem_exit
globalmem_module_clean k w first h f = ground (arith, first w.log)
