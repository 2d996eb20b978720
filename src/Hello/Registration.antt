-- ===== src/Hello/Registration.antt =====
-- The loading and unloading of drivers/helloDev/hello.c.
pub mod Lifecycle
use learning_kernel.Prelude.{ℕ, ℤ, pos, Option, none, some, is_neg, is_nonzero, if◌then◌else◌}
use learning_kernel.Kernel.Calls
use learning_kernel.Kernel.Calls.{Kernel}
use learning_kernel.Kernel.Errno.{enomem}
use learning_kernel.Kernel.Run.{
  World, M, pure, ◌>>=◌, ◌>>◌, get, modify, run_call, call_status, call_pointer, call_object,
  call_status_out,
}
use learning_kernel.Chrdev.{mkdev, major_of, minor_of}
use learning_kernel.Hello.{HelloDev}

module _ (k : Kernel) where
  -- The labels, each with those that it falls through to. `err` is what is returned.
  unregister : ℤ → M HelloDev ℤ
  unregister err = do
    d ← get
    run_call k (Calls.unregister_chrdev_region (mkdev d.hello_major d.hello_minor))
    pure err

  cleanup : ℕ → ℤ → M HelloDev ℤ
  unfolding unregister
  cleanup dev err = do run_call k (Calls.kfree dev); unregister err

  destroy_cdev : ℕ → ℤ → M HelloDev ℤ
  unfolding cleanup
  destroy_cdev dev err = do run_call k (Calls.cdev_del 0); cleanup dev err

  destroy_class : ℕ → ℤ → M HelloDev ℤ
  unfolding destroy_cdev
  destroy_class dev err = do
    d ← get
    run_call k (Calls.class_destroy d.hello_class)
    destroy_cdev dev err

  destroy_device : ℕ → ℕ → ℤ → M HelloDev ℤ
  unfolding destroy_class
  destroy_device devno dev err = do
    d ← get
    run_call k (Calls.device_destroy d.hello_class devno)
    destroy_class dev err

  -- `__hello_setup_dev`: the memory is cleared first.
  pub hello_setup_dev : M HelloDev ℤ
  hello_setup_dev = do
    modify (λ d. record d { val = pos 0 })
    d ← get
    err ← call_status k (Calls.cdev_add 0 (mkdev d.hello_major d.hello_minor))
    if is_nonzero err then pure err else do modify (λ d'. record d' { val = pos 0 }); pure (pos 0)

  -- From `class_create` on.
  create_files : ℕ → ℕ → M HelloDev ℤ
  unfolding destroy_device
  create_files devno dev = do
    class ← call_pointer k Calls.class_create
    modify (λ d. record d { hello_class = class })
    if is_neg class then destroy_cdev dev class else do
      temp ← call_pointer k (Calls.device_create class devno)
      if is_neg temp then destroy_class dev temp else do
        err ← call_status k (Calls.device_create_file temp)
        if is_neg err
            then destroy_device devno dev err
            else do run_call k (Calls.dev_set_drvdata temp); pure (pos 0)

  set_up : ℕ → Option ℕ → M HelloDev ℤ
  unfolding unregister
  set_up devno none = unregister enomem
  set_up devno (some dev) = do
    err ← hello_setup_dev
    if is_nonzero err then cleanup dev err else create_files devno dev

  pub hello_init : M HelloDev ℤ
  hello_init = do
    r ← call_status_out k Calls.alloc_chrdev_region
    if is_neg r.0 then pure r.0 else do
      modify (λ d. record d { hello_major = major_of r.1; hello_minor = minor_of r.1 })
      dev ← call_object k Calls.kmalloc
      modify (λ d. record d { hello_dev = dev })
      set_up r.1 dev

  delete_dev : Option ℕ → M HelloDev (Unit {0})
  delete_dev none = pure tt
  delete_dev (some dev) = do run_call k (Calls.cdev_del 0); run_call k (Calls.kfree dev)

  delete_class : ℤ → ℕ → M HelloDev (Unit {0})
  delete_class class devno =
      if is_nonzero class
      then (do
        run_call k (Calls.device_destroy class devno)
        run_call k (Calls.class_destroy class))
      else pure tt

  pub hello_exit : M HelloDev (Unit {0})
  unfolding delete_dev delete_class
  hello_exit = do
    d ← get
    delete_class d.hello_class (mkdev d.hello_major d.hello_minor)
    delete_dev d.hello_dev
    run_call k (Calls.unregister_chrdev_region (mkdev d.hello_major d.hello_minor))

  -- The module is loaded and, if that went well, unloaded again.
  pub load_unload : World HelloDev → World HelloDev
  load_unload w = let r = hello_init w in if is_neg r.0 then r.1 else (hello_exit r.1).1
