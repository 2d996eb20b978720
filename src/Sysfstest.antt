-- ===== src/Sysfstest.antt =====
-- drivers/sysfstest/sysfstest.c: an attribute of an object in sysfs that keeps a text. Characters
-- are numbers.
pub mod Text
pub mod Lifecycle
mod Examples
use learning_kernel.Prelude.{
  ℕ, suc, ◌+◌, ℤ, pos, Option, none, some, List, [], ◌∷◌, length, leb, is_neg, is_nonzero,
  if◌then◌else◌, ◌==◌,
}
use mathlib.Core.Option
use learning_kernel.Kernel.Calls
use learning_kernel.Kernel.Calls.{Kernel}
use learning_kernel.Kernel.Errno.{enomem}
use learning_kernel.Kernel.Run.{
  World, M, pure, ◌>>=◌, ◌>>◌, get, modify, run_call, call_status, call_object,
}

-- The globals `chrdev_kset`, `chrdev_kob` and `lbuf`, the text before its 0.
pub record Sysfstest : Type 0 where
  pub chrdev_kset : Option ℕ
  pub chrdev_kob : Option ℕ
  pub lbuf : List ℕ

-- '%'
abbrev pub percent : ℕ
percent = 37

-- What sprintf makes of a format without arguments: `%%` is a percent sign, and any other conversion
-- reads an argument that was not passed.
pub formatted : List ℕ → Option (List ℕ)
formatted [] = some []
formatted (c ∷ []) = if c == percent then none else some (c ∷ [])
formatted (c ∷ d ∷ cs) =
    let rest = formatted cs in
    let next = formatted (d ∷ cs) in
    if c == percent
    then (if d == percent then Option.map (◌∷◌ percent) rest else none)
    else Option.map (◌∷◌ c) next

pub system_name_show : Sysfstest → List ℕ
system_name_show d = d.lbuf

-- The text that fits in the 256 bytes of `lbuf` with its 0.
fitting : Option (List ℕ) → Option (List ℕ)
fitting none = none
fitting (some text) = if leb (suc (length text)) 256 then some text else none

-- `sprintf(lbuf, buf)`: the count of characters, or `none` where an argument is missing or the end
-- of `lbuf` is passed.
pub system_name_store : List ℕ → Sysfstest → Option (ℕ × Sysfstest)
unfolding fitting
system_name_store buf d =
    Option.map (λ text. (length text, record d { lbuf = text })) (fitting (formatted buf))

module _ (k : Kernel) where
  -- `chrdev_init` once the object is there.
  with_object : ℕ → M Sysfstest ℤ
  with_object kob = do
    rc ← call_status k (Calls.sysfs_create_group kob)
    if is_nonzero rc then run_call k (Calls.kobject_put kob) else pure tt
    run_call k (Calls.kobject_uevent kob)
    pure rc

  object_made : Option ℕ → M Sysfstest ℤ
  unfolding with_object
  object_made none = pure enomem
  object_made (some kob) = with_object kob

  kset_made : Option ℕ → M Sysfstest ℤ
  unfolding object_made
  kset_made none = pure enomem
  kset_made (some kset) = do
    kob ← call_object k Calls.kobject_create_and_add
    modify (λ d. record d { chrdev_kob = kob })
    object_made kob

  pub chrdev_init : M Sysfstest ℤ
  unfolding kset_made
  chrdev_init = do
    kset ← call_object k Calls.kset_create_and_add
    modify (λ d. record d { chrdev_kset = kset })
    kset_made kset

  give_back : Option ℕ → M Sysfstest (Unit {0})
  give_back none = pure tt
  give_back (some kob) = do
    run_call k (Calls.kobject_uevent kob)
    run_call k (Calls.sysfs_remove_group kob)
    run_call k (Calls.kobject_put kob)

  pub chrdev_exit : M Sysfstest (Unit {0})
  unfolding give_back
  chrdev_exit = do d ← get; give_back d.chrdev_kob

  -- The module is loaded and, if that went well, unloaded again.
  pub load_unload : World Sysfstest → World Sysfstest
  load_unload w = let r = chrdev_init w in if is_nonzero r.0 then r.1 else (chrdev_exit r.1).1
