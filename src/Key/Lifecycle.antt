-- ===== src/Key/Lifecycle.antt =====
-- What key.c holds over the life of the module.
use learning_kernel.Prelude.{
  ℕ, zero, suc, ◌<◌, ◌≢◌, Bool, false, Option, none, ℤ, pos, List, [], ◌∷◌, some, true, is_neg, ◌≡◌,
  ◌⊎◌, arith, eqb_ℤ-refl, refl, Option-cases, inl, inr,
}
use learning_kernel.Kernel.Calls.{Kernel, Event}
use learning_kernel.Kernel.Run.{World}
use learning_kernel.Kernel.Ledger.{Resource, ledger}
use learning_kernel.Kernel.Errno.{eio}
use learning_kernel.Chrdev.{Chrdev, register-Registers, unregister_releases, held}
use learning_kernel.Key.Reading.{poll, polled, level_at, wait_release_returns, wait_release-dev}
use learning_kernel.Key.{
  KeyDev, key_open, wait_release, key_read, key_release, mykey_init, mykey_exit, visit, visits,
  load_use_unload,
}

abbrev is_some : {A : Type 0} → Option A → Bool
is_some none = false
is_some (some x) = true

module _ (k : Kernel) where
  -- Whenever a read begins to wait, one of the polls that its fuel allows for finds the line high.
  abbrev pub Releases : ℕ → Type 0
  Releases fuel =
      (g : ℤ) (log : List Event) → (n : ℕ) × (n < fuel) × (level_at k g (polled k g n log) ≢ pos 0)

  abbrev pub AllRelease : List ℕ → Type 0
  AllRelease [] = Unit {0}
  AllRelease (fuel ∷ fuels) = Releases fuel × AllRelease fuels

  open_holds :
      (w : World KeyDev) (rs : List Resource)
      → ledger w.log ≡ some rs
      → ((key_open k w).0 ≡ pos 0)
          × (ledger (key_open k w).1.log ≡ some (Resource.gpio (key_open k w).1.dev.key_gpio ∷ rs))
          × ((key_open k w).1.dev.chr ≡ w.dev.chr)
        ⊎ (is_neg (key_open k w).0 ≡ true)
          × (ledger (key_open k w).1.log ≡ some rs)
          × ((key_open k w).1.dev.chr ≡ w.dev.chr)
  unfolding key_open
  open_holds w rs h = ground arith

  wait_release_keeps :
      (fuel : ℕ) (w : World KeyDev) (g : ℤ) (rs : List Resource)
      → ledger w.log ≡ some (Resource.gpio g ∷ rs)
      → ledger (wait_release k fuel g w).1.log ≡ some (Resource.gpio g ∷ rs)
  unfolding wait_release
  wait_release_keeps zero w g rs h = h
  wait_release_keeps (suc fuel) w g rs h = ground (
    arith,
    eqb_ℤ-refl g,
    wait_release_keeps fuel (record w { log = poll k g w.log ∷ w.log }) g rs,
  )

  read_keeps :
      (fuel : ℕ) (w : World KeyDev) (rs : List Resource)
      → ledger w.log ≡ some (Resource.gpio w.dev.key_gpio ∷ rs)
      → (ledger (key_read k fuel w).1.log ≡ some (Resource.gpio w.dev.key_gpio ∷ rs))
        × ((key_read k fuel w).1.dev.key_gpio ≡ w.dev.key_gpio)
        × ((key_read k fuel w).1.dev.chr ≡ w.dev.chr)
  unfolding key_read
  read_keeps fuel w rs h =
      let g = w.dev.key_gpio in
      let w' : World KeyDev = record w { log = poll k g w.log ∷ w.log } in
      ground (arith, eqb_ℤ-refl g, wait_release_keeps fuel w' g rs, wait_release-dev k g fuel w')

  visit_keeps :
      (fuel : ℕ) (w w' : World KeyDev) (rs : List Resource)
      → ledger w.log ≡ some rs
      → visit k fuel w ≡ some w'
      → (ledger w'.log ≡ some rs) × (w'.dev.chr ≡ w.dev.chr)
  unfolding visit key_release
  visit_keeps fuel w w' rs h e = ground (
    arith,
    open_holds w rs h,
    read_keeps fuel (key_open k w).1 rs,
    eqb_ℤ-refl (key_open k w).1.dev.key_gpio,
  )

  visits_keep :
      (fuels : List ℕ) (w w' : World KeyDev) (rs : List Resource)
      → ledger w.log ≡ some rs
      → visits k fuels w ≡ some w'
      → (ledger w'.log ≡ some rs) × (w'.dev.chr ≡ w.dev.chr)
  unfolding visits
  visits_keep [] w w' rs h e = ground arith
  visits_keep (fuel ∷ fuels) w w' rs h e = elim (Option-cases (visit k fuel w)) [
    | inl stuck ↦ ground arith
    | inr (w'', v) ↦
        let kept = visit_keeps fuel w w'' rs h v in
        ground (arith, kept, visits_keep fuels w'' w' rs kept.0)
  ]

  abbrev loaded : World KeyDev → World KeyDev
  loaded w = (mykey_init k w).1

  init_holds :
      (w : World KeyDev)
      → ledger w.log ≡ some []
      → ((mykey_init k w).0 ≡ pos 0) × (ledger (loaded w).log ≡ some (held (loaded w).dev.chr))
        ⊎ ((mykey_init k w).0 ≡ eio) × (ledger (loaded w).log ≡ some [])
  unfolding mykey_init
  init_holds w h = ground (arith, register-Registers k (record { dev = w.dev.chr; log = w.log }) [])

  exit_releases :
      (w : World KeyDev) (c : Chrdev)
      → w.dev.chr ≡ c
      → ledger w.log ≡ some (held c)
      → ledger (mykey_exit k w).1.log ≡ some []
  unfolding mykey_exit
  exit_releases w c e h =
      ground (arith, unregister_releases k (record { dev = w.dev.chr; log = w.log }) [])

  returned-clean :
      (fuels : List ℕ) (w w' : World KeyDev)
      → ledger w.log ≡ some []
      → load_use_unload k fuels w ≡ some w'
      → ledger w'.log ≡ some []
  unfolding load_use_unload
  returned-clean fuels w w' h e = elim (Option-cases (visits k fuels (loaded w))) [
    | inl stuck ↦ ground (arith, init_holds w h)
    | inr (w'', v) ↦ ground (
      arith,
      init_holds w h,
      visits_keep fuels (loaded w) w'' (held (loaded w).dev.chr),
      exit_releases w'' (loaded w).dev.chr,
    )
  ]

  read_returns :
      (fuel : ℕ) (w : World KeyDev) → Releases fuel → is_some (key_read k fuel w).0 ≡ true
  unfolding key_read
  read_returns fuel w release =
      let g = w.dev.key_gpio in
      let w' : World KeyDev = record w { log = poll k g w.log ∷ w.log } in
      let r = release g w'.log in ground (arith, wait_release_returns k g r.0 fuel w' r.1 r.2)

  visit_returns : (fuel : ℕ) (w : World KeyDev) → Releases fuel → is_some (visit k fuel w) ≡ true
  unfolding visit
  visit_returns fuel w release = ground (arith, read_returns fuel (key_open k w).1 release)

  visits_return :
      (fuels : List ℕ) (w : World KeyDev) → AllRelease fuels → is_some (visits k fuels w) ≡ true
  unfolding visits
  visits_return [] w releases = refl
  visits_return (fuel ∷ fuels) w releases = elim (Option-cases (visit k fuel w)) [
    | inl stuck ↦ absurd (ground (arith, stuck, visit_returns fuel w releases.0))
    | inr (w', v) ↦ ground (arith, v, visits_return fuels w' releases.1)
  ]

  returns :
      (fuels : List ℕ) (w : World KeyDev)
      → AllRelease fuels
      → is_some (load_use_unload k fuels w) ≡ true
  unfolding load_use_unload
  returns fuels w releases = ground (arith, visits_return fuels (loaded w) releases)

  -- For a driver that holds nothing at first, if the key never stays down for as many polls as a
  -- read has fuel: loading the module, any number of opens, reads and closes, and unloading it come
  -- to an end, and give back every resource once, whichever call fails.
  pub key_module_clean :
      (fuels : List ℕ) (w : World KeyDev)
      → ledger w.log ≡ some []
      → AllRelease fuels
      → (w' : World KeyDev) × (load_use_unload k fuels w ≡ some w') × (ledger w'.log ≡ some [])
  key_module_clean fuels w h releases = elim (Option-cases (load_use_unload k fuels w)) [
    | inl stuck ↦ absurd (ground (arith, stuck, returns fuels w releases))
    | inr (w', e) ↦ (w', e, returned-clean fuels w w' h e)
  ]
