-- ===== src/GlobalMem/Bounds.antt =====
-- No sequence of calls leads outside the memory of drivers/globalMem/global_mem.c.
use learning_kernel.Prelude.{
  ℕ, zero, suc, ◌%◌, ◌^◌, ◌≤◌, ◌≡◌, ◌⊎◌, inl, inr, Bool, true, none, some, refl, ℤ, List, [], ◌∷◌,
  false, length, is_neg, pos_part, to_ulong, arith, length-replicate,
}
use learning_kernel.Prelude.Splice.{length-splice}
use learning_kernel.Kernel.Uaccess.{Uaccess}
use learning_kernel.GlobalMem.{
  State, globalmem_size, clip, globalmem_read, globalmem_write, globalmem_llseek, globalmem_ioctl,
  Operation, reads, writes, seeks, ioctls, compat_ioctls, step, run, fresh,
}

pub record IsValid (s : State) : Type 0 where
  pub sized : length s.mem ≡ globalmem_size
  pub low : is_neg s.f_pos ≡ false
  pub high : pos_part s.f_pos ≤ globalmem_size

read-IsValid :
    (u : Uaccess) (size : ℕ) (s : State) → IsValid s → IsValid (globalmem_read u size s).state
unfolding globalmem_read
read-IsValid u size s v = ground arith

write-IsValid :
    (u : Uaccess) (user : List ℕ) (size : ℕ) (s : State)
    → IsValid s
    → IsValid (globalmem_write u user size s).state
unfolding globalmem_write
write-IsValid u user size s v =
    let n = clip (to_ulong s.f_pos) (size % 2 ^ 32) in
    ground (arith, u.length_got user n, length-splice (to_ulong s.f_pos) (u.got user n) s.mem)

llseek-IsValid :
    (offset : ℤ) (orig : ℕ) (s : State) → IsValid s → IsValid (globalmem_llseek offset orig s).state
unfolding globalmem_llseek
llseek-IsValid offset zero s v = ground arith
llseek-IsValid offset (suc zero) s v = ground arith
llseek-IsValid offset (suc (suc orig)) s v = v

ioctl-IsValid : (cmd : ℕ) (s : State) → IsValid s → IsValid (globalmem_ioctl cmd s).state
unfolding globalmem_ioctl
ioctl-IsValid cmd s v = ground (arith, length-replicate {A = ℕ} globalmem_size 0)

-- A 32-bit process has given a command.
abbrev pub has_compat : List Operation → Bool
has_compat [] = false
has_compat (compat_ioctls cmd arg ∷ os) = true
has_compat (o ∷ os) = has_compat os

-- Any sequence of reads, writes, seeks and ioctl commands, with any arguments and any user memory,
-- from 0x1000 bytes and a position within 0 and 0x1000 on: if none of the commands comes from a
-- 32-bit process on a 64-bit kernel, then every call is answered, and there are 0x1000 bytes and a
-- position within 0 and 0x1000 again; and if one does, a pointer is followed that is none.
pub run-IsValid :
    (u : Uaccess) (os : List Operation) (s : State)
    → IsValid s
    → (has_compat os ≡ true) × (run u os s ≡ none)
      ⊎ (has_compat os ≡ false) × (t : State) × (run u os s ≡ some t) × IsValid t
unfolding run step
run-IsValid u [] s v = inr (refl, s, refl, v)
run-IsValid u (reads size ∷ os) s v =
    run-IsValid u os (globalmem_read u size s).state (read-IsValid u size s v)
run-IsValid u (writes user size ∷ os) s v =
    run-IsValid u os (globalmem_write u user size s).state (write-IsValid u user size s v)
run-IsValid u (seeks offset orig ∷ os) s v =
    run-IsValid u os (globalmem_llseek offset orig s).state (llseek-IsValid offset orig s v)
run-IsValid u (ioctls cmd arg ∷ os) s v = run-IsValid u os s v
run-IsValid u (compat_ioctls cmd arg ∷ os) s v = inl (refl, refl)

pub fresh-IsValid : IsValid fresh
unfolding fresh
fresh-IsValid = record {
  sized = length-replicate {A = ℕ} globalmem_size 0;
  low = refl;
  high = omega arith;
}
