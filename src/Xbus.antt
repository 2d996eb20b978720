-- ===== src/Xbus.antt =====
-- drivers/xbus: xbus.c, a bus; xdev.c, a device on it with a number as an attribute; and xdrv.c, a
-- driver for the device. Characters are numbers.
pub mod Matching
pub mod Lifecycle
pub mod Modules
pub mod Binding
mod Examples
use learning_kernel.Prelude.{
  ℕ, zero, suc, ◌-◌, ◌%◌, ◌^◌, ℤ, pos, negsuc, Bool, true, false, ◌&&◌, ◌==◌, ltb, List, [], ◌∷◌,
  length, is_nonzero, if◌then◌else◌,
}
use learning_kernel.Kernel.Calls
use learning_kernel.Kernel.Calls.{Kernel}
use learning_kernel.Kernel.Run.{
  World, M, pure, ◌>>=◌, ◌>>◌, get, modify, run_call, call_status, call_status_out,
}

-- `!strncmp(a, b, n)`: the first `n` characters are the same, or both texts end before.
pub same_start : ℕ → List ℕ → List ℕ → Bool
same_start zero a b = true
same_start (suc n) [] [] = true
same_start (suc n) [] (y ∷ b) = false
same_start (suc n) (x ∷ a) [] = false
same_start (suc n) (x ∷ a) (y ∷ b) = (x == y) && same_start n a b

-- By the names of the device and the driver.
pub xbus_match : List ℕ → List ℕ → ℤ
unfolding same_start
xbus_match dev drv = if same_start (length drv) dev drv then pos 1 else pos 0

-- "xdev", the name of the device and of the driver.
abbrev pub xdev_name : List ℕ
xdev_name = 120 ∷ 100 ∷ 101 ∷ 118 ∷ []

-- The global `id` of xdev.c.
pub record Xdev : Type 0 where
  pub id : ℕ

-- The value of an unsigned long, printed by `%ld`.
abbrev pub as_long : ℕ → ℤ
as_long n = if ltb n (2 ^ 63) then pos n else negsuc (2 ^ 64 - n - 1)

pub xdev_id_show : Xdev → ℤ
xdev_id_show d = as_long d.id

module _ (k : Kernel) where
  -- kstrtoul stores the number only when it succeeds; its result is not looked at.
  pub xdev_id_store : ℕ → M Xdev ℤ
  xdev_id_store count = do
    r ← call_status_out k (Calls.kstrtoul_from_user 10)
    modify (λ d. if is_nonzero r.0 then d else record d { id = r.1 % 2 ^ 64 })
    pure (pos count)

module _ (k : Kernel) {S : Type 0} where
  pub xbus_init : M S ℤ
  xbus_init = do call_status k Calls.bus_register; call_status k Calls.bus_create_file; pure (pos 0)

  pub xbus_exit : M S (Unit {0})
  xbus_exit = do run_call k Calls.bus_remove_file; run_call k Calls.bus_unregister

  pub xdev_init : M S ℤ
  xdev_init = do
    call_status k Calls.device_register
    call_status k Calls.device_add_file
    pure (pos 0)

  pub xdev_exit : M S (Unit {0})
  xdev_exit = do run_call k Calls.device_remove_file; run_call k Calls.device_unregister

  pub xdrv_init : M S ℤ
  xdrv_init = do
    call_status k Calls.driver_register
    call_status k Calls.driver_create_file
    pure (pos 0)

  pub xdrv_exit : M S (Unit {0})
  xdrv_exit = do run_call k Calls.driver_remove_file; run_call k Calls.driver_unregister

  -- The three modules are loaded one after the other, and unloaded again.
  pub load_unload : World S → World S
  load_unload w =
      let loaded = (xdrv_init (xdev_init (xbus_init w).1).1).1 in
      (xbus_exit (xdev_exit (xdrv_exit loaded).1).1).1
