-- ===== src/Chardev/Examples.antt =====
-- The theorem on drivers/chrdev/chardev.c for two files that are open at once.
use learning_kernel.Prelude.{◌≡◌, refl, inr, pos, negsuc, false, List, [], ◌∷◌, some}
use learning_kernel.Kernel.Calls.{Kernel}
use learning_kernel.Kernel.Friendly.{friendly}
use learning_kernel.Kernel.Uaccess.{plain}
use learning_kernel.Chardev.{reads, writes, seeks}
use learning_kernel.Chardev.Module.{
  fresh, Session, Syscall, insmod, rmmod, opens, closes, calls, syscalls,
}
use learning_kernel.Chardev.Module.Sessions.{IsSound, syscalls-IsSound}

abbrev willing : Kernel
willing = friendly "" (λ log. pos 0) 0

abbrev unloaded : Session
unloaded = record { loaded = false; files = []; world = record { dev = fresh; log = [] } }

-- One file is written, the other sought and read.
abbrev story : List Syscall
story =
    insmod
    ∷ opens (pos 12)
    ∷ opens (pos 13)
    ∷ calls 0 (writes (1 ∷ 2 ∷ []) 2)
    ∷ rmmod
    ∷ calls 1 (seeks (negsuc 3) 2)
    ∷ calls 1 (reads 100)
    ∷ closes 0
    ∷ closes 0
    ∷ rmmod
    ∷ []

syscalls-IsSound_example :
    (t : Session) × (syscalls willing plain story unloaded ≡ some t) × IsSound t
syscalls-IsSound_example =
    syscalls-IsSound willing plain story unloaded
      (inr (record { loaded = refl; closed = refl; freed = refl }))
