-- ===== src/IrqKeys/Lifecycle.antt =====
-- What the interrupt-driven key drivers hold after they have been loaded, and after unloading.
use learning_kernel.Prelude.{
  ℤ, pos, Bool, true, false, ◌||◌, List, [], ◌∷◌, ◌++◌, some, ◌≡◌, ◌⊎◌, arith, if◌then◌else◌,
  is_neg, is_nonzero, eqb_ℤ-refl,
}
use learning_kernel.Kernel.Calls
use learning_kernel.Kernel.Calls.{Kernel, Event, Call}
use learning_kernel.Kernel.Run.{World}
use learning_kernel.Kernel.Ledger.{Resource, ledger}
use learning_kernel.Chrdev.{
  Chrdev, held, register_dynamic, unregister, register_dynamic-Registers, unregister_releases,
}
use learning_kernel.IrqKeys.{KeyDev, key_parse, key_gpio_init, init_with, mykey_exit, load_unload}

abbrev sets_direction : Call → Bool
sets_direction (Call.gpio_direction_input g) = true
sets_direction (Call.gpio_direction_output g v) = true
sets_direction _ = false

-- Some call that sets the direction of a line has failed.
abbrev pub direction_failed : List Event → Bool
direction_failed [] = false
direction_failed (e ∷ es) =
    if sets_direction e.call then is_neg e.ret || direction_failed es else direction_failed es

-- The three ways in which setting up the line and the interrupt can end.
abbrev pub SetsUp : List Resource → ℤ × World KeyDev → Type 0
SetsUp rs r =
    ((r.0 ≡ pos 0)
      × (ledger r.1.log ≡ some (Resource.irq r.1.dev.irq_num ∷ Resource.gpio r.1.dev.key_gpio ∷ rs))
      × (direction_failed r.1.log ≡ false))
    ⊎ ((is_nonzero r.0 ≡ true) × (ledger r.1.log ≡ some rs) × (direction_failed r.1.log ≡ false))
    ⊎ ((is_nonzero r.0 ≡ true)
        × (ledger r.1.log ≡ some (Resource.gpio r.1.dev.key_gpio ∷ rs))
        × (direction_failed r.1.log ≡ true))

module _ (k : Kernel) (w : World KeyDev) where
  parse_keeps :
      (rs : List Resource)
      → ledger w.log ≡ some rs
      → direction_failed w.log ≡ false
      → (ledger (key_parse k w).1.log ≡ some rs) × (direction_failed (key_parse k w).1.log ≡ false)
  unfolding key_parse
  parse_keeps rs h f = ground arith

  pub input-SetsUp :
      (rs : List Resource)
      → ledger w.log ≡ some rs
      → direction_failed w.log ≡ false
      → SetsUp rs (key_gpio_init k Calls.gpio_direction_input w)
  unfolding key_gpio_init
  input-SetsUp rs h f = ground (arith, eqb_ℤ-refl w.dev.key_gpio)

  pub output-SetsUp :
      (rs : List Resource)
      → ledger w.log ≡ some rs
      → direction_failed w.log ≡ false
      → SetsUp rs (key_gpio_init k (λ g. Calls.gpio_direction_output g 1) w)
  unfolding key_gpio_init
  output-SetsUp rs h f = ground (arith, eqb_ℤ-refl w.dev.key_gpio)

register_keeps :
    (k : Kernel) (c : World Chrdev)
    → direction_failed (register_dynamic k c).1.log ≡ direction_failed c.log
unfolding register_dynamic
register_keeps k c = ground arith

unregister_keeps :
    (k : Kernel) (c : World Chrdev)
    → direction_failed (unregister k c).1.log ≡ direction_failed c.log
unfolding unregister
unregister_keeps k c = ground arith

-- The same for the whole of the init functions, which register the device too.
abbrev pub Loads : ℤ × World KeyDev → Type 0
Loads r =
    ((r.0 ≡ pos 0)
      × (ledger r.1.log
          ≡ some (
              held r.1.dev.chr
              ++ Resource.irq r.1.dev.irq_num ∷ Resource.gpio r.1.dev.key_gpio ∷ []))
      × (direction_failed r.1.log ≡ false))
    ⊎ ((is_nonzero r.0 ≡ true) × (ledger r.1.log ≡ some []) × (direction_failed r.1.log ≡ false))
    ⊎ ((is_nonzero r.0 ≡ true)
        × (ledger r.1.log ≡ some (Resource.gpio r.1.dev.key_gpio ∷ []))
        × (direction_failed r.1.log ≡ true))

-- What remains after loading and unloading: nothing, unless setting the direction failed, and then
-- the line.
abbrev pub Leaves : World KeyDev → Type 0
Leaves w =
    ((direction_failed w.log ≡ false) × (ledger w.log ≡ some []))
    ⊎ ((direction_failed w.log ≡ true) × (ledger w.log ≡ some (Resource.gpio w.dev.key_gpio ∷ [])))

module _ (k : Kernel) (direction : ℤ → Call)
    (set_up : (w : World KeyDev) (rs : List Resource)
      → ledger w.log ≡ some rs
      → direction_failed w.log ≡ false
      → SetsUp rs (key_gpio_init k direction w))
    (w : World KeyDev) where
  abbrev prepared : World KeyDev
  prepared = (key_gpio_init k direction (key_parse k w).1).1

  abbrev tasklet_ready : World Chrdev
  tasklet_ready = record {
    dev = prepared.dev.chr;
    log = record { call = Calls.tasklet_init; ret = pos 0; out = 0 } ∷ prepared.log;
  }

  pub init-Loads :
      ledger w.log ≡ some [] → direction_failed w.log ≡ false → Loads (init_with k direction w)
  unfolding init_with
  init-Loads h f =
      let p = parse_keeps k w [] h f in
      ground (
        arith,
        p,
        set_up (key_parse k w).1 [] p.0 p.1,
        register_keeps k tasklet_ready,
        register_dynamic-Registers k tasklet_ready
            (Resource.irq prepared.dev.irq_num ∷ Resource.gpio prepared.dev.key_gpio ∷ []),
        eqb_ℤ-refl prepared.dev.irq_num,
        eqb_ℤ-refl prepared.dev.key_gpio,
      )

pub exit_releases :
    (k : Kernel) (w : World KeyDev)
    → ledger w.log
      ≡ some (held w.dev.chr ++ Resource.irq w.dev.irq_num ∷ Resource.gpio w.dev.key_gpio ∷ [])
    → (ledger (mykey_exit k w).1.log ≡ some [])
      × (direction_failed (mykey_exit k w).1.log ≡ direction_failed w.log)
unfolding mykey_exit
exit_releases k w h =
    let c : World Chrdev = record {
      dev = w.dev.chr;
      log = record { call = Calls.del_timer_sync; ret = pos 0; out = 0 } ∷ w.log;
    } in
    ground (
      arith,
      unregister_releases k c (Resource.irq w.dev.irq_num ∷ Resource.gpio w.dev.key_gpio ∷ []),
      unregister_keeps k c,
      eqb_ℤ-refl w.dev.irq_num,
      eqb_ℤ-refl w.dev.key_gpio,
    )

load_unload-Leaves :
    (k : Kernel) (direction : ℤ → Call) (w : World KeyDev)
    → Loads (init_with k direction w)
    → Leaves (load_unload k direction w)
unfolding load_unload
load_unload-Leaves k direction w l = ground (arith, l, exit_releases k (init_with k direction w).1)

module _ (k : Kernel) (w : World KeyDev) where
  output-Leaves :
      ledger w.log ≡ some []
      → direction_failed w.log ≡ false
      → Leaves (load_unload k (λ g. Calls.gpio_direction_output g 1) w)
  output-Leaves h f = load_unload-Leaves k _ w (init-Loads k _ (output-SetsUp k) w h f)

  input-Leaves :
      ledger w.log ≡ some []
      → direction_failed w.log ≡ false
      → Leaves (load_unload k Calls.gpio_direction_input w)
  input-Leaves h f = load_unload-Leaves k _ w (init-Loads k _ (input-SetsUp k) w h f)

  -- For a driver that holds nothing at first and has not failed to set the direction of a line:
  -- loading and unloading blockio.c, noblockio.c or fasync.c, which make the key's line an output,
  -- and keyirq.c, which makes it an input, give back every resource once, whichever call fails; but
  -- if the call that sets the direction fails, the line stays requested for good.
  pub both-Leaves :
      ledger w.log ≡ some []
      → direction_failed w.log ≡ false
      → Leaves (load_unload k (λ g. Calls.gpio_direction_output g 1) w)
        × Leaves (load_unload k Calls.gpio_direction_input w)
  both-Leaves h f = (output-Leaves h f, input-Leaves h f)
