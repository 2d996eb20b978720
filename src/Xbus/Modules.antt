-- ===== src/Xbus/Modules.antt =====
-- The three modules of drivers/xbus, loaded and unloaded in any order that the kernel admits: xdev.c
-- and xdrv.c use a symbol of xbus.c, so that one is loaded before them and unloaded after them.
use learning_kernel.Prelude.{
  Bool, true, false, not, ◌&&◌, ◌||◌, List, [], ◌∷◌, map, some, ◌≡◌, refl, ap, arith, if◌then◌else◌,
}
use learning_kernel.Kernel.Calls.{Kernel, Status}
use learning_kernel.Kernel.Run.{World}
use learning_kernel.Kernel.Ledger
use learning_kernel.Kernel.Ledger.{Resource, ledger, holds, drop_one}
use learning_kernel.Xbus.{xbus_init, xbus_exit, xdev_init, xdev_exit, xdrv_init, xdrv_exit}

pub data Module : Type 0 where
  xbus xdev xdrv : Module

-- What a module has registered.
abbrev pub resource : Module → Resource
resource xbus = Ledger.bus
resource xdev = Ledger.bus_device
resource xdrv = Ledger.bus_driver

abbrev pub same_module : Module → Module → Bool
same_module xbus xbus = true
same_module xdev xdev = true
same_module xdrv xdrv = true
same_module _ _ = false

abbrev pub member : Module → List Module → Bool
member m [] = false
member m (x ∷ xs) = same_module m x || member m xs

abbrev pub without : Module → List Module → List Module
without m [] = []
without m (x ∷ xs) = if same_module m x then xs else x ∷ without m xs

pub data Action : Type 0 where
  load unload : Module → Action

-- The modules that are loaded, newest first.
pub record System : Type 0 where
  pub loaded : List Module
  pub world : World (Unit {0})

abbrev pub may_load : Module → List Module → Bool
may_load xbus l = not (member xbus l)
may_load m l = not (member m l) && member xbus l

abbrev pub may_unload : Module → List Module → Bool
may_unload xbus l = member xbus l && not (member xdev l || member xdrv l)
may_unload m l = member m l

module _ (k : Kernel) where
  pub init : Module → World (Unit {0}) → World (Unit {0})
  unfolding xbus_init xdev_init xdrv_init
  init xbus w = (xbus_init k w).1
  init xdev w = (xdev_init k w).1
  init xdrv w = (xdrv_init k w).1

  pub exit : Module → World (Unit {0}) → World (Unit {0})
  unfolding xbus_exit xdev_exit xdrv_exit
  exit xbus w = (xbus_exit k w).1
  exit xdev w = (xdev_exit k w).1
  exit xdrv w = (xdrv_exit k w).1

  -- insmod and rmmod; what the kernel refuses changes nothing.
  pub act : Action → System → System
  act (load m) s =
      if may_load m s.loaded then record { loaded = m ∷ s.loaded; world = init m s.world } else s
  act (unload m) s =
      if may_unload m s.loaded
      then record { loaded = without m s.loaded; world = exit m s.world }
      else s

  pub acts : List Action → System → System
  acts [] s = s
  acts (a ∷ rest) s = acts rest (act a s)

-- What is held is what the loaded modules have registered.
abbrev pub Holds : System → Type 0
Holds s = ledger s.world.log ≡ some (map resource s.loaded)

holds-member : (m : Module) (l : List Module) → holds (resource m) (map resource l) ≡ member m l
holds-member m [] = refl
holds-member xbus (xbus ∷ l) = refl
holds-member xbus (xdev ∷ l) = holds-member xbus l
holds-member xbus (xdrv ∷ l) = holds-member xbus l
holds-member xdev (xbus ∷ l) = holds-member xdev l
holds-member xdev (xdev ∷ l) = refl
holds-member xdev (xdrv ∷ l) = holds-member xdev l
holds-member xdrv (xbus ∷ l) = holds-member xdrv l
holds-member xdrv (xdev ∷ l) = holds-member xdrv l
holds-member xdrv (xdrv ∷ l) = refl

drop_one-without :
    (m : Module) (l : List Module)
    → drop_one (resource m) (map resource l) ≡ map resource (without m l)
drop_one-without m [] = refl
drop_one-without xbus (xbus ∷ l) = refl
drop_one-without xbus (xdev ∷ l) = ap (◌∷◌ Ledger.bus_device) (drop_one-without xbus l)
drop_one-without xbus (xdrv ∷ l) = ap (◌∷◌ Ledger.bus_driver) (drop_one-without xbus l)
drop_one-without xdev (xbus ∷ l) = ap (◌∷◌ Ledger.bus) (drop_one-without xdev l)
drop_one-without xdev (xdev ∷ l) = refl
drop_one-without xdev (xdrv ∷ l) = ap (◌∷◌ Ledger.bus_driver) (drop_one-without xdev l)
drop_one-without xdrv (xbus ∷ l) = ap (◌∷◌ Ledger.bus) (drop_one-without xdrv l)
drop_one-without xdrv (xdev ∷ l) = ap (◌∷◌ Ledger.bus_device) (drop_one-without xdrv l)
drop_one-without xdrv (xdrv ∷ l) = refl

-- A kernel in which every registration succeeds.
abbrev pub welcoming : Kernel → Kernel
welcoming k = record k { status = λ log c. Status.success }

module _ (k : Kernel) where
  init-Holds :
      (m : Module) (l : List Module) (w : World (Unit {0}))
      → ledger w.log ≡ some (map resource l)
      → ledger (init (welcoming k) m w).log ≡ some (map resource (m ∷ l))
  unfolding init
  init-Holds xbus l w h = ground arith
  init-Holds xdev l w h = ground arith
  init-Holds xdrv l w h = ground arith

  exit-Holds :
      (m : Module) (l : List Module) (w : World (Unit {0}))
      → member m l ≡ true
      → ledger w.log ≡ some (map resource l)
      → ledger (exit (welcoming k) m w).log ≡ some (map resource (without m l))
  unfolding exit
  exit-Holds xbus l w i h = ground (arith, holds-member xbus l, drop_one-without xbus l)
  exit-Holds xdev l w i h = ground (arith, holds-member xdev l, drop_one-without xdev l)
  exit-Holds xdrv l w i h = ground (arith, holds-member xdrv l, drop_one-without xdrv l)

  act-Holds : (a : Action) (s : System) → Holds s → Holds (act (welcoming k) a s)
  unfolding act
  act-Holds (load xbus) s h = ground (arith, init-Holds xbus s.loaded s.world)
  act-Holds (load xdev) s h = ground (arith, init-Holds xdev s.loaded s.world)
  act-Holds (load xdrv) s h = ground (arith, init-Holds xdrv s.loaded s.world)
  act-Holds (unload xbus) s h = ground (arith, exit-Holds xbus s.loaded s.world)
  act-Holds (unload xdev) s h = ground (arith, exit-Holds xdev s.loaded s.world)
  act-Holds (unload xdrv) s h = ground (arith, exit-Holds xdrv s.loaded s.world)

  -- If every registration succeeds, the bus, the device and the driver may be loaded and unloaded
  -- in any order that the dependencies of the modules admit, as often as one likes: what is held is
  -- always what the loaded modules have registered, once each, and no attribute file is made or
  -- removed without what it belongs to.
  pub acts-Holds : (todo : List Action) (s : System) → Holds s → Holds (acts (welcoming k) todo s)
  unfolding acts
  acts-Holds [] s h = h
  acts-Holds (a ∷ rest) s h = acts-Holds rest (act (welcoming k) a s) (act-Holds a s h)
