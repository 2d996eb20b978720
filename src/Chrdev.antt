-- ===== src/Chrdev.antt =====
-- The registration of a character device, the ladder of steps and `goto` labels that the init
-- functions of openedv/linux/stm32mp157 share.
mod Examples
use learning_kernel.Prelude.{
  ℕ, ℤ, pos, Bool, true, false, List, ◌∷◌, ◌++◌, [], is_neg, is_nonzero, if◌then◌else◌, ◌/◌, ◌%◌,
  ◌*◌, ◌+◌, ◌^◌, ◌≡◌, ◌⊎◌, ◌==◌, not, ◌≢◌, refl, none, some, arith,
}
use learning_kernel.Kernel.Calls
use learning_kernel.Kernel.Calls.{Kernel}
use learning_kernel.Kernel.Run.{
  World, M, pure, ◌>>=◌, ◌>>◌, get, modify, run_call, call_status, call_pointer, call_status_out,
}
use learning_kernel.Kernel.Ledger
use learning_kernel.Kernel.Ledger.{Resource, ledger}

-- The fields that every such driver's struct has.
pub record Chrdev : Type 0 where
  pub devid : ℕ
  pub major : ℕ
  pub minor : ℕ
  pub class_ptr : ℤ
  pub device_ptr : ℤ

-- MAJOR, MINOR and MKDEV: a dev_t has 20 bits for the minor number.
abbrev pub major_of : ℕ → ℕ
major_of d = d / 2 ^ 20

abbrev pub minor_of : ℕ → ℕ
minor_of d = d % 2 ^ 20

abbrev pub mkdev : ℕ → ℕ → ℕ
mkdev ma mi = ma * 2 ^ 20 + mi

module _ (k : Kernel) where
  -- The labels, each with those that it falls through to.
  pub del_unregister : M Chrdev Bool
  del_unregister = do d ← get; run_call k (Calls.unregister_chrdev_region d.devid); pure false

  pub del_cdev : M Chrdev Bool
  unfolding del_unregister
  del_cdev = do run_call k (Calls.cdev_del 0); del_unregister

  pub destroy_class : M Chrdev Bool
  unfolding del_cdev
  destroy_class = do d ← get; run_call k (Calls.class_destroy d.class_ptr); del_cdev

  -- From `cdev_init` to the end, once the device numbers are taken.
  pub add_device : M Chrdev Bool
  unfolding destroy_class
  add_device = do
    d ← get
    ret ← call_status k (Calls.cdev_add 0 d.devid)
    if is_neg ret then del_unregister else do
      class ← call_pointer k Calls.class_create
      modify (λ d'. record d' { class_ptr = class })
      if is_neg class then del_cdev else do
        device ← call_pointer k (Calls.device_create class d.devid)
        modify (λ d'. record d' { device_ptr = device })
        if is_neg device then destroy_class else pure true

  -- alloc_chrdev_region stores the numbers only when it succeeds.
  unfoldable pub register_dynamic : M Chrdev Bool
  unfolding add_device
  register_dynamic = do
    r ← call_status_out k Calls.alloc_chrdev_region
    if is_neg r.0 then pure false else do modify (λ d. record d { devid = r.1 }); add_device

  register_any : M Chrdev Bool
  unfolding add_device
  register_any = do
    r ← call_status_out k Calls.alloc_chrdev_region
    if is_neg r.0 then pure false else do
      modify (λ d. record d { devid = r.1; major = major_of r.1; minor = minor_of r.1 })
      add_device

  register_given : ℕ → M Chrdev Bool
  unfolding add_device
  register_given devid = do
    modify (λ d. record d { devid = devid })
    ret ← call_status k (Calls.register_chrdev_region devid)
    if is_neg ret then pure false else add_device

  -- The drivers with a `major` field: a number that is set is asked for, 0 means any.
  unfoldable pub register : M Chrdev Bool
  unfolding register_any register_given
  register = do
    d ← get
    if not (d.major == 0) then register_given (mkdev d.major 0) else register_any

  -- The first four calls of the exit functions.
  unfoldable pub unregister : M Chrdev (Unit {0})
  unregister = do
    d ← get
    run_call k (Calls.cdev_del 0)
    run_call k (Calls.unregister_chrdev_region d.devid)
    run_call k (Calls.device_destroy d.class_ptr d.devid)
    run_call k (Calls.class_destroy d.class_ptr)

-- What a registered device holds.
abbrev pub held : Chrdev → List Resource
held d =
    Resource.device d.class_ptr d.devid
    ∷ Resource.class d.class_ptr
    ∷ Resource.cdev 0
    ∷ Resource.region d.devid
    ∷ []

-- Either the device is there and holds its four resources, or nothing more is held than before.
abbrev pub Registers : List Resource → Bool × World Chrdev → Type 0
Registers rs r =
    ((r.0 ≡ true) × (ledger r.1.log ≡ some (held r.1.dev ++ rs)))
    ⊎ ((r.0 ≡ false) × (ledger r.1.log ≡ some rs))

module _ (k : Kernel) (w : World Chrdev) (rs : List Resource) where
  add_device-Registers :
      ledger w.log ≡ some (Resource.region w.dev.devid ∷ rs) → Registers rs (add_device k w)
  unfolding add_device
  add_device-Registers h = ground arith

  pub register_dynamic-Registers : ledger w.log ≡ some rs → Registers rs (register_dynamic k w)
  unfolding register_dynamic
  register_dynamic-Registers h = ground arith

  -- From whatever a driver holds, the registration either succeeds and has added exactly the region,
  -- the cdev, the class and the device, or fails and has given back what it took, at each of its
  -- five steps, and with a fixed as with a dynamic major number.
  pub register-Registers : ledger w.log ≡ some rs → Registers rs (register k w)
  unfolding register
  register-Registers h = ground arith

  pub unregister_releases :
      ledger w.log ≡ some (held w.dev ++ rs) → ledger (unregister k w).1.log ≡ some rs
  unfolding unregister
  unregister_releases h = ground arith

-- What has gone wrong before stays wrong.
module _ (k : Kernel) (w : World Chrdev) where
  pub register_fails : ledger w.log ≡ none → ledger (register k w).1.log ≡ none
  unfolding register
  register_fails h = ground arith

  pub unregister_fails : ledger w.log ≡ none → ledger (unregister k w).1.log ≡ none
  unfolding unregister
  unregister_fails h = ground arith

-- A device number is put together again from its parts.
pub mkdev-major-minor : (d : ℕ) → mkdev (major_of d) (minor_of d) ≡ d
mkdev-major-minor d = omega arith
