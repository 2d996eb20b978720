-- ===== src/Gpioled/Lifecycle.antt =====
-- What gpioled.c holds when it has been loaded, and after it has been unloaded.
use learning_kernel.Prelude.{
  pos, List, [], ◌∷◌, ◌++◌, none, some, true, false, is_neg, if◌then◌else◌, ◌≡◌, ◌⊎◌, arith,
  eqb_ℤ-refl,
}
use learning_kernel.Kernel.Calls.{Kernel}
use learning_kernel.Kernel.Run.{World}
use learning_kernel.Kernel.Ledger.{Resource, ledger, holds}
use learning_kernel.Kernel.Errno.{eio}
use learning_kernel.Chrdev.{Chrdev, register-Registers, unregister_releases, held}
use learning_kernel.Gpioled.{GpioledDev, gpioled_parse, led_init, led_exit, load_unload}

module _ (k : Kernel) (w : World GpioledDev) (rs : List Resource) where
  parse_holds :
      ledger w.log ≡ some rs
      → ((gpioled_parse k w).0 ≡ pos 0)
          × (ledger (gpioled_parse k w).1.log
              ≡ some (Resource.gpio (gpioled_parse k w).1.dev.led_gpio ∷ rs))
        ⊎ (is_neg (gpioled_parse k w).0 ≡ true) × (ledger (gpioled_parse k w).1.log ≡ some rs)
  unfolding gpioled_parse
  parse_holds h = ground arith

  -- The world in which `register` runs.
  abbrev parsed : World Chrdev
  parsed = let w' = (gpioled_parse k w).1 in record { dev = w'.dev.chr; log = w'.log }

  abbrev loaded : World GpioledDev
  loaded = (led_init k w).1

  init_holds :
      ledger w.log ≡ some rs
      → (gpioled_parse k w).0 ≡ pos 0
      → ((led_init k w).0 ≡ pos 0)
          × (ledger loaded.log
              ≡ some (held loaded.dev.chr ++ Resource.gpio loaded.dev.led_gpio ∷ rs))
        ⊎ ((led_init k w).0 ≡ eio) × (ledger loaded.log ≡ some rs)
  unfolding led_init
  init_holds h ok = ground (
    arith,
    parse_holds h,
    register-Registers k parsed (Resource.gpio (gpioled_parse k w).1.dev.led_gpio ∷ rs),
    eqb_ℤ-refl (gpioled_parse k w).1.dev.led_gpio,
  )

  exit_releases :
      ledger w.log ≡ some (held w.dev.chr ++ Resource.gpio w.dev.led_gpio ∷ rs)
      → ledger (led_exit k w).1.log ≡ some rs
  unfolding led_exit
  exit_releases h = ground (
    arith,
    unregister_releases k (record { dev = w.dev.chr; log = w.log })
        (Resource.gpio w.dev.led_gpio ∷ rs),
    eqb_ℤ-refl w.dev.led_gpio,
  )

  exit_unparsed :
      holds (Resource.gpio w.dev.led_gpio) rs ≡ false
      → ledger w.log ≡ some (held w.dev.chr ++ rs)
      → ledger (led_exit k w).1.log ≡ none
  unfolding led_exit
  exit_unparsed n h =
      ground (arith, unregister_releases k (record { dev = w.dev.chr; log = w.log }) rs)

  init_unparsed :
      ledger w.log ≡ some []
      → is_neg (gpioled_parse k w).0 ≡ true
      → ((led_init k w).0 ≡ pos 0) × (ledger loaded.log ≡ some (held loaded.dev.chr ++ []))
        ⊎ ((led_init k w).0 ≡ eio) × (ledger loaded.log ≡ none)
  unfolding led_init
  init_unparsed h bad = ground (arith, parse_holds, register-Registers k parsed [])

module _ (k : Kernel) (w : World GpioledDev) where
  load_unload_clean :
      ledger w.log ≡ some []
      → (gpioled_parse k w).0 ≡ pos 0
      → ledger (load_unload k w).log ≡ some []
  unfolding load_unload
  load_unload_clean h ok =
      ground (arith, init_holds k w [] h ok, exit_releases k (led_init k w).1 [])

  load_unload_unparsed :
      ledger w.log ≡ some []
      → is_neg (gpioled_parse k w).0 ≡ true
      → ledger (load_unload k w).log ≡ none
  unfolding load_unload
  load_unload_unparsed h bad =
      ground (arith, init_unparsed k w [] h bad, exit_unparsed k (led_init k w).1 [])

  -- When nothing is held at first: loading the module and unloading it again give back everything
  -- once, whichever call of the registration fails, if the parse of the device tree succeeds. If it
  -- fails, a gpio line is given back that was never requested, whether the registration fails or the
  -- module is unloaded later.
  pub gpioled_module-ledger :
      ledger w.log ≡ some []
      → ledger (load_unload k w).log ≡ (if is_neg (gpioled_parse k w).0 then none else some [])
  gpioled_module-ledger h =
      ground (arith, parse_holds k w [] h, load_unload_clean h, load_unload_unparsed h)
