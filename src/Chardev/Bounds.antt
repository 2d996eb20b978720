-- ===== src/Chardev/Bounds.antt =====
-- No sequence of calls leads outside the buffer of drivers/chrdev/chardev.c.
use learning_kernel.Prelude.{
  ℕ, zero, suc, ◌≤◌, ◌≡◌, refl, ℤ, pos, List, [], ◌∷◌, false, Option, some, none, length, is_neg,
  pos_part, arith, length-replicate,
}
use learning_kernel.Prelude.Splice.{length-splice}
use learning_kernel.Kernel.Uaccess.{Uaccess}
use learning_kernel.Chardev.{
  State, Reply, max_length, bytes_to_move, device_read, device_write, device_lseek, Operation,
  reads, writes, seeks, step, run, init_device,
}

pub record IsValid (s : State) : Type 0 where
  pub sized : length s.device_buf ≡ max_length
  pub low : is_neg s.f_pos ≡ false
  pub high : pos_part s.f_pos ≤ max_length

-- The call has a reply, and the state after it is valid.
abbrev pub Safe : Option Reply → Type 0
Safe none = ⊥
Safe (some r) = IsValid r.state

read-Safe : (u : Uaccess) (lbuf : ℕ) (s : State) → IsValid s → Safe (device_read u lbuf s)
unfolding device_read
read-Safe u lbuf s v = ground arith

write-Safe :
    (u : Uaccess) (user : List ℕ) (lbuf : ℕ) (s : State)
    → IsValid s
    → Safe (device_write u user lbuf s)
unfolding device_write
write-Safe u user lbuf s v =
    let n = pos_part (bytes_to_move s.f_pos lbuf) in
    ground
      (arith, u.length_got user n, length-splice (pos_part s.f_pos) (u.got user n) s.device_buf)

lseek-IsValid :
    (offset : ℤ) (whence : ℕ) (s : State) → IsValid s → IsValid (device_lseek offset whence s).state
unfolding device_lseek
lseek-IsValid offset zero s v = ground arith
lseek-IsValid offset (suc zero) s v = ground arith
lseek-IsValid offset (suc (suc zero)) s v = ground arith
lseek-IsValid offset (suc (suc (suc w))) s v = ground arith

pub step-Safe : (u : Uaccess) (o : Operation) (s : State) → IsValid s → Safe (step u o s)
unfolding step
step-Safe u (reads lbuf) s v = read-Safe u lbuf s v
step-Safe u (writes user lbuf) s v = write-Safe u user lbuf s v
step-Safe u (seeks offset whence) s v = lseek-IsValid offset whence s v

-- From a valid state, no sequence of reads, writes and seeks, whatever their arguments and the
-- user's memory, touches a byte outside the buffer: each call has a reply, and the position stays
-- within 0 and 60 at the end.
pub run_completes :
    (u : Uaccess) (os : List Operation) (s : State)
    → IsValid s
    → (s' : State) × (run u os s ≡ some s') × IsValid s'
unfolding run
run_completes u [] s v = (s, refl, v)
run_completes u (o ∷ os) s v = go (step u o s) (step-Safe u o s v) (λ t. run_completes u os t)
  where
    go :
        (r : Option Reply)
        → Safe r
        → ((t : State) → IsValid t → (s' : State) × (run u os t ≡ some s') × IsValid s')
        → (s' : State) × ((elim r [ none ↦ none | some q ↦ run u os q.state ]) ≡ some s')
          × IsValid s'
    go none h ih = absurd h
    go (some q) h ih = ih q.state h

pub init_device-IsValid : (s : State) → s.f_pos ≡ pos 0 → IsValid (init_device (pos 0) s).state
unfolding init_device
init_device-IsValid s h = ground (arith, length-replicate {A = ℕ} max_length 0)
