-- ===== src/Xbus/Matching.antt =====
-- Which devices and drivers belong together on the bus of xbus.c, and the number of xdev.c.
use learning_kernel.Prelude.{
  ℕ, ◌<◌, ◌^◌, pos, true, List, [], ◌∷◌, ◌++◌, length, drop, ◌≡◌, refl, arith,
}
use learning_kernel.Kernel.Calls
use learning_kernel.Kernel.Calls.{Kernel, status_code}
use learning_kernel.Kernel.Run.{World}
use learning_kernel.Xbus.{same_start, xbus_match, xdev_name, Xdev, xdev_id_show, xdev_id_store}

same_start-append : (drv rest : List ℕ) → same_start (length drv) (drv ++ rest) drv ≡ true
unfolding same_start
same_start-append [] rest = refl
same_start-append (c ∷ drv) rest = ground (arith, same_start-append drv rest)

same_start-split :
    (drv dev : List ℕ) → same_start (length drv) dev drv ≡ true → dev ≡ drv ++ drop (length drv) dev
unfolding same_start
same_start-split [] dev h = refl
same_start-split (c ∷ drv) [] h = absurd (ground arith)
same_start-split (c ∷ drv) (d ∷ dev) h = ground (arith, same_start-split drv dev)

-- A driver matches every device whose name begins with its own name.
pub match-append : (drv rest : List ℕ) → xbus_match (drv ++ rest) drv ≡ pos 1
unfolding xbus_match
match-append drv rest = ground (arith, same_start-append drv rest)

-- And no other device.
pub match-split :
    (drv dev : List ℕ) → xbus_match dev drv ≡ pos 1 → dev ≡ drv ++ drop (length drv) dev
unfolding xbus_match
match-split drv dev h = ground (arith, same_start-split drv dev)

-- The driver of xdrv.c has the name of the device of xdev.c.
xdev-xdrv : xbus_match xdev_name xdev_name ≡ pos 1
xdev-xdrv = match-append xdev_name []

module _ (k : Kernel) (w : World Xdev) where
  abbrev typed : ℕ
  typed = k.number w.log (Calls.kstrtoul_from_user 10)

  -- A number below 2 ^ 63 that kstrtoul accepts is shown again.
  stored-shown :
      (count : ℕ)
      → typed < 2 ^ 63
      → status_code (k.status w.log (Calls.kstrtoul_from_user 10)) ≡ pos 0
      → xdev_id_show (xdev_id_store k count w).1.dev ≡ pos typed
  unfolding xdev_id_show xdev_id_store
  stored-shown count b ok = ground arith
