-- ===== src/Timer/Lifecycle.antt =====
-- What timer.c holds over the life of the module.
use learning_kernel.Prelude.{
  ℤ, pos, List, [], ◌∷◌, some, true, false, is_neg, ◌≡◌, ◌⊎◌, refl, arith, eqb_ℤ-refl,
}
use learning_kernel.Kernel.Calls
use learning_kernel.Kernel.Calls.{Kernel}
use learning_kernel.Kernel.Errno.{eio}
use learning_kernel.Kernel.Run.{World}
use learning_kernel.Kernel.Ledger.{Resource, ledger, holds}
use learning_kernel.Chrdev.{Chrdev, register-Registers, unregister_releases, held}
use learning_kernel.Timer.{
  TimerDev, timer_open, timer_init, mykey_exit, led_release, fire, timer_unlocked_ioctl, Action,
  ioctls, firing, act, acts, load_use_unload,
}

module _ (k : Kernel) where
  open_holds :
      (w : World TimerDev) (rs : List Resource)
      → ledger w.log ≡ some rs
      → ((timer_open k w).0 ≡ pos 0)
          × (ledger (timer_open k w).1.log
              ≡ some (Resource.gpio (timer_open k w).1.dev.led_gpio ∷ rs))
          × ((timer_open k w).1.dev.chr ≡ w.dev.chr)
        ⊎ (is_neg (timer_open k w).0 ≡ true)
          × (ledger (timer_open k w).1.log ≡ some rs)
          × ((timer_open k w).1.dev.chr ≡ w.dev.chr)
  unfolding timer_open
  open_holds w rs h = ground arith

  -- The open device keeps its line, its registration and what is held besides, and no lock is left
  -- taken.
  abbrev Open : Chrdev → ℤ → List Resource → World TimerDev → Type 0
  Open c g rs w =
      (w.dev.chr ≡ c) × (w.dev.led_gpio ≡ g) × (ledger w.log ≡ some (Resource.gpio g ∷ rs))

  act-Open :
      (a : Action) (c : Chrdev) (g : ℤ) (rs : List Resource) (w : World TimerDev)
      → holds Resource.spinlock rs ≡ false
      → Open c g rs w
      → Open c g rs (act k a w)
  unfolding act fire timer_unlocked_ioctl
  act-Open (ioctls cmd arg) c g rs w n h = ground arith
  act-Open firing c g rs w n h = ground (arith, eqb_ℤ-refl g)

  acts-Open :
      (todo : List Action) (c : Chrdev) (g : ℤ) (rs : List Resource) (w : World TimerDev)
      → holds Resource.spinlock rs ≡ false
      → Open c g rs w
      → Open c g rs (acts k todo w)
  unfolding acts
  acts-Open [] c g rs w n h = h
  acts-Open (a ∷ rest) c g rs w n h = acts-Open rest c g rs (act k a w) n (act-Open a c g rs w n h)

  close_releases :
      (c : Chrdev) (g : ℤ) (rs : List Resource) (w : World TimerDev)
      → Open c g rs w
      → (ledger (led_release k w).1.log ≡ some rs) × ((led_release k w).1.dev.chr ≡ c)
  unfolding led_release
  close_releases c g rs w h = ground (arith, eqb_ℤ-refl g)

  pub init_holds :
      (w : World TimerDev)
      → ledger w.log ≡ some []
      → ((timer_init k w).0 ≡ pos 0)
          × (ledger (timer_init k w).1.log ≡ some (held (timer_init k w).1.dev.chr))
        ⊎ ((timer_init k w).0 ≡ eio) × (ledger (timer_init k w).1.log ≡ some [])
  unfolding timer_init
  init_holds w h = ground (arith, register-Registers k (record { dev = w.dev.chr; log = w.log }) [])

  pub exit_releases :
      (w : World TimerDev) (c : Chrdev)
      → w.dev.chr ≡ c
      → ledger w.log ≡ some (held c)
      → ledger (mykey_exit k w).1.log ≡ some []
  unfolding mykey_exit
  exit_releases w c e h =
      let stopped : World Chrdev = record {
        dev = w.dev.chr;
        log = record { call = Calls.del_timer_sync; ret = pos 0; out = 0 } ∷ w.log;
      } in
      ground (arith, unregister_releases k stopped [])

  -- For a driver that holds nothing at first: loading the module, opening the device, any sequence
  -- of ioctl commands and timer expiries, closing it and unloading the module give back every
  -- resource once, whichever call fails.
  pub timer_module_clean :
      (todo : List Action) (w : World TimerDev)
      → ledger w.log ≡ some []
      → ledger (load_use_unload k todo w).log ≡ some []
  unfolding load_use_unload
  timer_module_clean todo w h =
      let i = (timer_init k w).1 in
      let o = (timer_open k i).1 in
      let u = acts k todo o in
      ground (
        arith,
        init_holds w h,
        open_holds i (held i.dev.chr),
        acts-Open todo i.dev.chr o.dev.led_gpio (held i.dev.chr) o refl,
        close_releases i.dev.chr o.dev.led_gpio (held i.dev.chr) u,
        exit_releases o i.dev.chr,
        exit_releases (led_release k u).1 i.dev.chr,
      )
