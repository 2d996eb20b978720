-- ===== src/Ap3216c/Ioctl.antt =====
-- What the ioctl of ap3216c.c copies, and what loading and unloading the driver leave.
use learning_kernel.Prelude.{
  ℕ, ℤ, pos, negsuc, Bool, true, false, ◌||◌, ◌≡◌, ◌⊎◌, arith, List, [], ◌∷◌, some, none, is_neg,
  is_nonzero, if◌then◌else◌,
}
use learning_kernel.Kernel.Calls
use learning_kernel.Kernel.Calls.{Kernel, Event, Call}
use learning_kernel.Kernel.Run.{World}
use learning_kernel.Kernel.Lines.{last_copy}
use learning_kernel.Kernel.Ledger.{ledger}
use learning_kernel.Ap3216c.{
  Ap3216cDevice, get_ir, get_als, get_ps, show_ir, show_als, show_ps, ap3216c_ioctl, ap3216c_probe,
  ap3216c_remove,
}

pub data Quantity : Type 0 where
  infrared ambient proximity : Quantity

-- The ioctl command and the attribute for a quantity.
abbrev pub command : Quantity → ℕ
command infrared = get_ir
command ambient = get_als
command proximity = get_ps

pub attribute : Kernel → Quantity → World Ap3216cDevice → ℤ
attribute k infrared w = (show_ir k w).0
attribute k ambient w = (show_als k w).0
attribute k proximity w = (show_ps k w).0

-- The newest call, the copy to the user, has left bytes uncopied.
abbrev pub copy_failed : List Event → Bool
copy_failed [] = false
copy_failed (e ∷ es) = elim e.call [ Calls.copy_to_user v ↦ is_nonzero e.ret | _ ↦ false ]

-- The ioctl copies the number that the attribute would print and returns 0, or -1 exactly if the
-- copy fails. Where the attribute prints -1 the ioctl returns -1; but it still copies to the user
-- whatever its local variable held, `junk`.
pub ap3216c_ioctl-attribute :
    (k : Kernel) (q : Quantity) (junk : ℕ) (w : World Ap3216cDevice)
    → let v = attribute k q w in
      let r = ap3216c_ioctl k junk (command q) w in
      (v ≡ negsuc 0) × (r.0 ≡ negsuc 0) × (last_copy r.1.log ≡ some (pos junk))
      ⊎ (is_neg v ≡ false)
        × (last_copy r.1.log ≡ some v)
        × (r.0 ≡ (if copy_failed r.1.log then negsuc 0 else pos 0))
unfolding ap3216c_ioctl attribute show_ir show_als show_ps
ap3216c_ioctl-attribute k infrared junk w = ground arith
ap3216c_ioctl-attribute k ambient junk w = ground arith
ap3216c_ioctl-attribute k proximity junk w = ground arith

abbrev registers : Call → Bool
registers Call.misc_register = true
registers _ = false

-- A registration of a misc device has failed.
abbrev pub register_failed : List Event → Bool
register_failed [] = false
register_failed (e ∷ es) =
    if registers e.call then is_neg e.ret || register_failed es else register_failed es

-- For a driver that holds nothing at first: binding it to a sensor and unbinding it give back the
-- misc device once; but if the registration of the misc device failed, which the probe does not
-- look at, it is deregistered all the same.
pub probe-remove :
    (k : Kernel) (client : ℕ) (w : World Ap3216cDevice)
    → ledger w.log ≡ some []
    → register_failed w.log ≡ false
    → let p = ap3216c_probe k client w in
      let r = ap3216c_remove k p.1 in
      (p.0 ≡ negsuc 0) × (ledger p.1.log ≡ some [])
      ⊎ (p.0 ≡ pos 0) × (ledger r.1.log ≡ (if register_failed p.1.log then none else some []))
unfolding ap3216c_probe ap3216c_remove
probe-remove k client w h f = ground arith
