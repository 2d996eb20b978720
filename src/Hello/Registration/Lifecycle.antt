-- ===== src/Hello/Registration/Lifecycle.antt =====
-- What hello.c holds when it has been loaded, and after unloading.
use learning_kernel.Prelude.{
  ℕ, ℤ, pos, List, [], ◌∷◌, Option, none, some, Bool, true, false, is_nonzero, is_neg, ◌≡◌, ◌⊎◌,
  refl, arith, eqb_ℤ-refl,
}
use learning_kernel.Kernel.Calls
use learning_kernel.Kernel.Calls.{Kernel}
use learning_kernel.Kernel.Run.{World}
use learning_kernel.Kernel.Ledger.{Resource, ledger, effect, and_then}
use learning_kernel.Chrdev.{mkdev, major_of, minor_of, mkdev-major-minor}
use learning_kernel.Hello.{HelloDev}
use learning_kernel.Hello.Registration.{
  hello_init, hello_exit, load_unload, create_files, hello_setup_dev, cleanup, set_up,
}

abbrev is_there : Option ℕ → Bool
is_there none = false
is_there (some dev) = true

abbrev memory_of : Option ℕ → List Resource → List Resource
memory_of none rs = rs
memory_of (some dev) rs = Resource.memory dev ∷ rs

-- What a loaded driver holds.
abbrev pub loaded : HelloDev → List Resource
loaded d =
    let devno = mkdev d.hello_major d.hello_minor in
    Resource.device d.hello_class devno
    ∷ Resource.class d.hello_class
    ∷ Resource.cdev 0
    ∷ memory_of d.hello_dev (Resource.region devno ∷ [])

-- The loaded driver has its device, its class and their resources, or nothing is held.
abbrev Loads : ℤ × World HelloDev → Type 0
Loads r =
    ((r.0 ≡ pos 0)
      × (ledger r.1.log ≡ some (loaded r.1.dev))
      × (is_there r.1.dev.hello_dev ≡ true)
      × (is_nonzero r.1.dev.hello_class ≡ true))
    ⊎ ((is_neg r.0 ≡ true) × (ledger r.1.log ≡ some []))

-- The device number in the globals is `devno`.
abbrev Numbered : ℕ → HelloDev → Type 0
Numbered devno d = mkdev d.hello_major d.hello_minor ≡ devno

module _ (k : Kernel) (w : World HelloDev) where
  create_files-Loads :
      (devno dev : ℕ)
      → Numbered devno w.dev
      → w.dev.hello_dev ≡ some dev
      → ledger w.log ≡ some (Resource.cdev 0 ∷ Resource.memory dev ∷ Resource.region devno ∷ [])
      → Loads (create_files k devno dev w)
  unfolding create_files
  create_files-Loads devno dev n e h = ground arith

  setup_holds :
      (devno dev : ℕ)
      → Numbered devno w.dev
      → ledger w.log ≡ some (Resource.memory dev ∷ Resource.region devno ∷ [])
      → ((hello_setup_dev k w).1.dev ≡ record w.dev { val = pos 0 })
        × (((hello_setup_dev k w).0 ≡ pos 0)
              × (ledger (hello_setup_dev k w).1.log
                  ≡ some (Resource.cdev 0 ∷ Resource.memory dev ∷ Resource.region devno ∷ []))
            ⊎ (is_neg (hello_setup_dev k w).0 ≡ true)
              × (ledger (hello_setup_dev k w).1.log
                  ≡ some (Resource.memory dev ∷ Resource.region devno ∷ [])))
  unfolding hello_setup_dev
  setup_holds devno dev n h = ground arith

  cleanup_releases :
      (devno dev : ℕ) (err : ℤ)
      → Numbered devno w.dev
      → ledger w.log ≡ some (Resource.memory dev ∷ Resource.region devno ∷ [])
      → ((cleanup k dev err w).0 ≡ err) × (ledger (cleanup k dev err w).1.log ≡ some [])
  unfolding cleanup
  cleanup_releases devno dev err n h = ground arith

set_up-Loads :
    (k : Kernel) (w : World HelloDev) (devno : ℕ) (o : Option ℕ)
    → Numbered devno w.dev
    → w.dev.hello_dev ≡ o
    → ledger w.log ≡ some (memory_of o (Resource.region devno ∷ []))
    → Loads (set_up k devno o w)
unfolding set_up
set_up-Loads k w devno none n e h = ground arith
set_up-Loads k w devno (some dev) n e h =
    let s = (hello_setup_dev k w).1 in
    ground (
      arith,
      setup_holds k w devno dev n h,
      create_files-Loads k s devno dev,
      cleanup_releases k s devno dev (hello_setup_dev k w).0,
    )

init-Loads : (k : Kernel) (w : World HelloDev) → ledger w.log ≡ some [] → Loads (hello_init k w)
unfolding hello_init
init-Loads k w h =
    ground (arith, set_up-Loads k ready devno o (mkdev-major-minor devno) refl, memory_taken o)
  where
    devno : ℕ
    devno = k.number w.log Calls.alloc_chrdev_region

    -- After the two allocations, when the first succeeds.
    numbers : List Calls.Event
    numbers = record { call = Calls.alloc_chrdev_region; ret = pos 0; out = devno } ∷ w.log

    o : Option ℕ
    o = k.object numbers Calls.kmalloc

    ready : World HelloDev
    ready = record {
      dev = record w.dev {
        hello_major = major_of devno;
        hello_minor = minor_of devno;
        hello_dev = o;
      };
      log = record { call = Calls.kmalloc; ret = Calls.object_code o; out = 0 } ∷ numbers;
    }

    memory_taken :
        (m : Option ℕ)
        → and_then
            (some (Resource.region devno ∷ []))
            (effect Calls.kmalloc (Calls.object_code m) 0)
          ≡ some (memory_of m (Resource.region devno ∷ []))
    memory_taken none = refl
    memory_taken (some p) = refl

module _ (k : Kernel) (w : World HelloDev) where
  exit_releases :
      is_there w.dev.hello_dev ≡ true
      → is_nonzero w.dev.hello_class ≡ true
      → ledger w.log ≡ some (loaded w.dev)
      → ledger (hello_exit k w).1.log ≡ some []
  unfolding hello_exit
  exit_releases e f h = ground (arith, eqb_ℤ-refl w.dev.hello_class)

module _ (k : Kernel) (w : World HelloDev) where
  -- For a driver that holds nothing at first: loading it and unloading it again give back every
  -- resource once, whichever of the steps of loading fails; a failed load holds nothing, and so
  -- does an unloaded driver.
  pub hello_module_clean : ledger w.log ≡ some [] → ledger (load_unload k w).log ≡ some []
  unfolding load_unload
  hello_module_clean h = ground (arith, init-Loads k w h, exit_releases k (hello_init k w).1)
