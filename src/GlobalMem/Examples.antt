-- ===== src/GlobalMem/Examples.antt =====
-- The theorems on drivers/globalMem/global_mem.c at concrete memories and calls.
use learning_kernel.Prelude.{
  ℕ, ◌⊎◌, inl, get_or, true, false, none, some, if◌then◌else◌, ◌≡◌, refl, arith, pos, negsuc, List,
  [], ◌∷◌, replicate, length-replicate,
}
use learning_kernel.Kernel.Uaccess.{plain}
use learning_kernel.GlobalMem.{
  State, globalmem_size, globalmem_read, globalmem_write, globalmem_llseek, Operation, reads,
  writes, seeks, ioctls, run, fresh,
}
use learning_kernel.Kernel.Calls.{Kernel}
use learning_kernel.Kernel.Run.{World}
use learning_kernel.Kernel.Ledger.{ledger}
use learning_kernel.Kernel.Friendly.{friendly}
use learning_kernel.GlobalMem.Registration.{
  Globals, load_unload, add_failed, globalmem_module_clean,
}
use learning_kernel.GlobalMem.Bounds.{IsValid, has_compat, run-IsValid, fresh-IsValid}
use learning_kernel.GlobalMem.Content.{write-read, write-frame}

abbrev zeros : List ℕ
zeros = replicate globalmem_size 0

abbrev at : ℕ → State
at p = record { mem = zeros; f_pos = pos p }

abbrev story : List Operation
story = writes (1 ∷ 2 ∷ []) 2 ∷ seeks (negsuc 0) 1 ∷ reads 5000 ∷ ioctls 1 0 ∷ []

run-IsValid_example :
    (has_compat story ≡ true) × (run plain story fresh ≡ none)
    ⊎ (has_compat story ≡ false) × (t : State) × (run plain story fresh ≡ some t) × IsValid t
run-IsValid_example = run-IsValid plain story fresh fresh-IsValid

write-read_example :
    (globalmem_read plain 3
      (globalmem_llseek
        (pos 4093)
        0
        (globalmem_write plain (7 ∷ 8 ∷ 9 ∷ []) 3 (at 4093)).state).state).user
    ≡ 7 ∷ 8 ∷ 9 ∷ []
write-read_example =
    write-read plain (7 ∷ 8 ∷ 9 ∷ []) 4093 zeros (length-replicate {A = ℕ} globalmem_size 0)
      (omega arith) (omega arith) refl refl

write-frame_example :
    get_or (globalmem_write plain (7 ∷ 8 ∷ 9 ∷ []) 3 (at 4093)).state.mem 4092 0
    ≡ get_or (at 4093).mem 4092 0
write-frame_example =
    write-frame plain (7 ∷ 8 ∷ 9 ∷ []) 3 (at 4093) 4092
      (record { sized = length-replicate {A = ℕ} globalmem_size 0; low = refl; high = omega arith })
      (inl (omega arith))

-- A kernel without failures, with a dynamic major number.
abbrev willing : Kernel
willing = friendly "" (λ log. pos 0) 0

abbrev cold : World Globals
cold = record { dev = record { globalmem_major = 0; globalmem_devp = none }; log = [] }

globalmem_module_clean_example :
    ledger (load_unload willing cold).log
    ≡ (if add_failed (load_unload willing cold).log then none else some [])
globalmem_module_clean_example = globalmem_module_clean willing cold (λ log. refl) refl refl
