-- ===== src/Chardev/Module.antt =====
-- drivers/chrdev/chardev.c as a module: loading and unloading it, and the files that are open on it,
-- each with its own position. A module that a file is open on is not unloaded: it is the owner.
mod Files
pub mod Sessions
use learning_kernel.Prelude.{
  ℕ, zero, suc, ◌+ℤ◌, to_int, ℤ, pos, Bool, true, false, List, [], ◌∷◌, Option, none, some, map,
  replicate, pos_part, is_neg, not, if◌then◌else◌,
}
use learning_kernel.Kernel.Calls
use learning_kernel.Kernel.Calls.{Kernel}
use learning_kernel.Kernel.Run.{World, M, pure, ◌>>=◌, ◌>>◌, get, modify, run_call, call_pointer}
use learning_kernel.Kernel.Uaccess.{Uaccess}
use learning_kernel.Chardev.{State, Reply, max_length, init_device, Operation, step}

-- The globals `major` and `device_buf`, and the static int `count` of `device_open`, which wraps
-- around.
pub record Globals : Type 0 where
  pub major : ℤ
  pub count : ℤ
  pub device_buf : List ℕ

-- A module that has just been loaded.
abbrev pub fresh : Globals
fresh = record { major = pos 0; count = pos 0; device_buf = replicate max_length 0 }

-- What an operation through a file at this position works on.
abbrev pub at : ℤ → Globals → State
at position g = record { device_buf = g.device_buf; f_pos = position }

module _ (k : Kernel) where
  pub load : M Globals ℤ
  unfolding init_device
  load = do
    major ← call_pointer k Calls.register_chrdev_dynamic
    g ← get
    let r = init_device major (at (pos 0) g)
    modify (λ h. record h { major = major; device_buf = r.state.device_buf })
    if is_neg major
        then run_call k (Calls.printk "Register Fail\n")
        else run_call k (Calls.printk_number "Register OK: " major)
    pure r.ret

  pub exit_device : M Globals (Unit {0})
  exit_device = do
    g ← get
    run_call k (Calls.unregister_chrdev (pos_part g.major))
    run_call k (Calls.printk "Module Removed\n")

  -- By the process `pid`.
  pub device_open : ℤ → M Globals ℤ
  device_open pid = do
    modify (λ g. record g { count = to_int (g.count +ℤ pos 1) })
    g ← get
    run_call k (Calls.printk_number "Number of times open() was called: " g.count)
    run_call k (Calls.printk_number "PID: " pid)
    pure (pos 0)

  pub device_release : M Globals ℤ
  device_release = do run_call k (Calls.printk "close() was called\n"); pure (pos 0)

-- The positions of the open files, newest first.
pub record Session : Type 0 where
  pub loaded : Bool
  pub files : List ℤ
  pub world : World Globals

pub data Syscall : Type 0 where
  insmod rmmod : Syscall
  opens : ℤ → Syscall
  closes : ℕ → Syscall
  calls : ℕ → Operation → Syscall

-- Without the `i`th file.
abbrev pub remove_at : ℕ → List ℤ → List ℤ
remove_at i [] = []
remove_at zero (p ∷ ps) = ps
remove_at (suc i) (p ∷ ps) = p ∷ remove_at i ps

abbrev pub file_at : ℕ → List ℤ → Option ℤ
file_at i [] = none
file_at zero (p ∷ ps) = some p
file_at (suc i) (p ∷ ps) = file_at i ps

abbrev pub move_to : ℕ → ℤ → List ℤ → List ℤ
move_to i q [] = []
move_to zero q (p ∷ ps) = q ∷ ps
move_to (suc i) q (p ∷ ps) = p ∷ move_to i q ps

module _ (k : Kernel) (u : Uaccess) where
  -- `none` is an access outside the buffer.
  pub operate : ℕ → Option ℤ → Operation → Session → Option Session
  operate i none o s = some s
  operate i (some p) o s = elim (step u o (at p s.world.dev)) [
    | none ↦ none
    | some r ↦ some (record s {
      files = move_to i r.state.f_pos s.files;
      world = record s.world { dev = record s.world.dev { device_buf = r.state.device_buf } };
    })
  ]

  -- The last file of a module is closed before it is unloaded.
  pub remove : List ℤ → Session → Session
  remove [] s =
      if s.loaded then record s { loaded = false; world = (exit_device k s.world).1 } else s
  remove (p ∷ ps) s = s

  -- What the kernel refuses changes nothing.
  pub syscall : Syscall → Session → Option Session
  unfolding operate remove
  syscall insmod s =
      let r = load k (record s.world { dev = fresh }) in
      some (if s.loaded then s else record s { loaded = not (is_neg r.0); world = r.1 })
  syscall rmmod s = some (remove s.files s)
  syscall (opens pid) s = some (
      if s.loaded
      then record s { files = pos 0 ∷ s.files; world = (device_open k pid s.world).1 }
      else s)
  syscall (closes i) s = elim (file_at i s.files) [
    | none ↦ some s
    | some p ↦ some (record s { files = remove_at i s.files; world = (device_release k s.world).1 })
  ]
  syscall (calls i o) s = operate i (file_at i s.files) o s

  pub syscalls : List Syscall → Session → Option Session
  syscalls [] s = some s
  syscalls (c ∷ cs) s = elim (syscall c s) [ none ↦ none | some t ↦ syscalls cs t ]
