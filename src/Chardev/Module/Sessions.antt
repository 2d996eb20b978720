-- ===== src/Chardev/Module/Sessions.antt =====
-- Any number of files open on drivers/chrdev/chardev.c at once, over loading and unloading it.
use learning_kernel.Prelude.{
  ℕ, ◌≡◌, ◌⊎◌, inl, inr, refl, ℤ, Bool, true, false, List, [], ◌∷◌, Option, some, none, length,
  is_neg, pos_part, arith, Bool-cases, not, if◌then◌else◌, length-replicate,
}
use learning_kernel.Kernel.Calls.{Kernel}
use learning_kernel.Kernel.Ledger.{Resource, ledger}
use learning_kernel.Kernel.Uaccess.{Uaccess}
use learning_kernel.Chardev.{Reply, max_length, Operation, step, init_device}
use learning_kernel.Chardev.Bounds.{IsValid, Safe, step-Safe}
use learning_kernel.Chardev.Module.Files.{
  AllInRange, remove_at-AllInRange, move_to-AllInRange, file_at-InRange,
}
use learning_kernel.Chardev.Module.{
  fresh, at, load, exit_device, device_open, device_release, Session, Syscall, insmod, rmmod, opens,
  closes, calls, remove_at, file_at, move_to, operate, remove, syscall, syscalls,
}

-- The buffer has its 60 bytes, every file is at a position in it, and the module holds its major
-- number.
pub record IsRunning (s : Session) : Type 0 where
  pub loaded : s.loaded ≡ true
  pub sized : length s.world.dev.device_buf ≡ max_length
  pub placed : AllInRange s.files
  pub held : ledger s.world.log ≡ some (Resource.chrdev (pos_part s.world.dev.major) ∷ [])

-- Nothing is open and nothing held.
pub record IsGone (s : Session) : Type 0 where
  pub loaded : s.loaded ≡ false
  pub closed : s.files ≡ []
  pub freed : ledger s.world.log ≡ some []

abbrev pub IsSound : Session → Type 0
IsSound s = IsRunning s ⊎ IsGone s

abbrev Sound : Option Session → Type 0
Sound none = ⊥
Sound (some s) = IsSound s

then-Sound : (b : Bool) (s t : Session) → b ≡ true → IsSound s → IsSound (if b then s else t)
then-Sound true s t e h = h
then-Sound false s t e h = absurd (ground arith)

else-Sound : (b : Bool) (s t : Session) → b ≡ false → IsSound t → IsSound (if b then s else t)
else-Sound true s t e h = absurd (ground arith)
else-Sound false s t e h = h

module _ (k : Kernel) (u : Uaccess) where
  loading :
      (s : Session)
      → IsGone s
      → let r = load k (record s.world { dev = fresh }) in
        IsSound (record s { loaded = not (is_neg r.0); world = r.1 })
  unfolding load init_device
  loading s gone = elim (Bool-cases (is_neg (load k (record s.world { dev = fresh })).0)) [
    | inl failed ↦
        inr (record { loaded = ground arith; closed = gone.closed; freed = ground arith })
    | inr ok ↦ inl (record {
      loaded = ground arith;
      sized = ground (arith, length-replicate {A = ℕ} max_length 0);
      placed = rw gone.closed tt;
      held = ground arith;
    })
  ]

  removal :
      (s : Session) (files : List ℤ) → s.files ≡ files → IsSound s → IsSound (remove k u files s)
  unfolding remove exit_device
  removal s (p ∷ ps) e h = h
  removal s [] e (inl run) =
      then-Sound s.loaded _ s run.loaded
        (inr (record { loaded = refl; closed = e; freed = ground arith }))
  removal s [] e (inr gone) = else-Sound s.loaded _ s gone.loaded (inr gone)

  closing :
      (i : ℕ) (s : Session) (file : Option ℤ)
      → file_at i s.files ≡ file
      → IsSound s
      → Sound (elim file [
        | none ↦ some s
        | some p ↦
            some (record s { files = remove_at i s.files; world = (device_release k s.world).1 })
      ])
  unfolding device_release
  closing i s none e h = h
  closing i s (some p) e (inl run) = inl (record {
    loaded = run.loaded;
    sized = run.sized;
    placed = remove_at-AllInRange i s.files run.placed;
    held = ground arith;
  })
  closing i s (some p) e (inr gone) = absurd (ground (arith, gone.closed))

  operation :
      (i : ℕ) (o : Operation) (s : Session) (file : Option ℤ)
      → file_at i s.files ≡ file
      → IsSound s
      → Sound (operate k u i file o s)
  unfolding operate
  operation i o s none e h = h
  operation i o s (some p) e (inr gone) = absurd (ground (arith, gone.closed))
  operation i o s (some p) e (inl run) =
      let placed = file_at-InRange i s.files p run.placed e in
      let valid : IsValid (at p s.world.dev) = record {
        sized = run.sized;
        low = placed.0;
        high = placed.1;
      } in
      go (step u o (at p s.world.dev)) (step-Safe u o (at p s.world.dev) valid)
    where
      go :
          (r : Option Reply)
          → Safe r
          → Sound (elim r [
            | none ↦ none
            | some q ↦ some (record s {
              files = move_to i q.state.f_pos s.files;
              world = record s.world {
                dev = record s.world.dev { device_buf = q.state.device_buf };
              };
            })
          ])
      go none h = h
      go (some q) h = inl (record {
        loaded = run.loaded;
        sized = h.sized;
        placed = move_to-AllInRange i q.state.f_pos s.files (h.low, h.high) run.placed;
        held = run.held;
      })

  insmod-Sound : (s : Session) → IsSound s → Sound (syscall k u insmod s)
  unfolding syscall
  insmod-Sound s (inl run) = then-Sound s.loaded s _ run.loaded (inl run)
  insmod-Sound s (inr gone) = else-Sound s.loaded s _ gone.loaded (loading s gone)

  rmmod-Sound : (s : Session) → IsSound s → Sound (syscall k u rmmod s)
  unfolding syscall
  rmmod-Sound s h = removal s s.files refl h

  opens-Sound : (pid : ℤ) (s : Session) → IsSound s → Sound (syscall k u (opens pid) s)
  unfolding syscall device_open
  opens-Sound pid s (inl run) = then-Sound s.loaded _ s run.loaded (
      inl (record {
        loaded = run.loaded;
        sized = run.sized;
        placed = ((refl, omega arith), run.placed);
        held = ground arith;
      }))
  opens-Sound pid s (inr gone) = else-Sound s.loaded _ s gone.loaded (inr gone)

  closes-Sound : (i : ℕ) (s : Session) → IsSound s → Sound (syscall k u (closes i) s)
  unfolding syscall
  closes-Sound i s h = closing i s (file_at i s.files) refl h

  calls-Sound :
      (i : ℕ) (o : Operation) (s : Session) → IsSound s → Sound (syscall k u (calls i o) s)
  unfolding syscall
  calls-Sound i o s h = operation i o s (file_at i s.files) refl h

  syscall-Sound : (c : Syscall) (s : Session) → IsSound s → Sound (syscall k u c s)
  syscall-Sound insmod s h = insmod-Sound s h
  syscall-Sound rmmod s h = rmmod-Sound s h
  syscall-Sound (opens pid) s h = opens-Sound pid s h
  syscall-Sound (closes i) s h = closes-Sound i s h
  syscall-Sound (calls i o) s h = calls-Sound i o s h

  -- From a sound state, chardev.c may be loaded and unloaded, and any number of files opened,
  -- closed, read, written and sought at their positions in any order, with any arguments and any
  -- user memory, and its registration may fail: no call touches a byte outside the buffer. At the
  -- end the module is loaded, holds its major number, once, has 60 bytes and every file at a
  -- position within 0 and 60; or it is not loaded, with no file open and nothing held.
  pub syscalls-IsSound :
      (cs : List Syscall) (s : Session)
      → IsSound s
      → (t : Session) × (syscalls k u cs s ≡ some t) × IsSound t
  unfolding syscalls
  syscalls-IsSound [] s h = (s, refl, h)
  syscalls-IsSound (c ∷ cs) s h =
      go (syscall k u c s) (syscall-Sound c s h) (λ t. syscalls-IsSound cs t)
    where
      go :
          (r : Option Session)
          → Sound r
          → ((s' : Session)
              → IsSound s'
              → (t : Session) × (syscalls k u cs s' ≡ some t) × IsSound t)
          → (t : Session) × ((elim r [ none ↦ none | some s' ↦ syscalls k u cs s' ]) ≡ some t)
            × IsSound t
      go none h' ih = absurd h'
      go (some s') h' ih = ih s' h'
