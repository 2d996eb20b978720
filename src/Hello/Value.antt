-- ===== src/Hello/Value.antt =====
-- What the operations of hello.c do with the value and the semaphore.
use learning_kernel.Prelude.{ℕ, ◌≤◌, ℤ, pos, List, [], ◌∷◌, some, ◌≡◌, ◌⊎◌, arith, length}
use learning_kernel.Kernel.Calls.{Kernel}
use learning_kernel.Kernel.Errno.{efault, erestartsys}
use learning_kernel.Kernel.Run.{World}
use learning_kernel.Kernel.Lines.{last_copy}
use learning_kernel.Kernel.Ledger.{Resource, ledger}
use learning_kernel.Hello.{
  HelloDev, Digits, hello_read, hello_write, hello_val_show, hello_val_store, hello_proc_write,
}

module _ (k : Kernel) (w : World HelloDev) (rs : List Resource) (h : ledger w.log ≡ some rs) where
  read_balanced : (count : ℕ) → ledger (hello_read k count w).1.log ≡ some rs
  unfolding hello_read
  read_balanced count = ground arith

  write_balanced : (count : ℕ) → ledger (hello_write k count w).1.log ≡ some rs
  unfolding hello_write
  write_balanced count = ground arith

  show_balanced : (t : Digits) → ledger (hello_val_show k t w).1.log ≡ some rs
  unfolding hello_val_show
  show_balanced t = ground arith

  store_balanced :
      (t : Digits) (buf : List ℕ) (count : ℕ)
      → ledger (hello_val_store k t buf count w).1.log ≡ some rs
  unfolding hello_val_store
  store_balanced t buf count = ground arith

  proc_write_balanced :
      (t : Digits) (text : List ℕ) (len : ℕ)
      → ledger (hello_proc_write k t text len w).1.log ≡ some rs
  unfolding hello_proc_write
  proc_write_balanced t text len = ground arith

-- The calls that a process can make.
pub data Operation : Type 0 where
  reads writes : ℕ → Operation
  shows : Operation
  stores proc_writes : List ℕ → ℕ → Operation

pub operate : Kernel → Digits → Operation → World HelloDev → World HelloDev
operate k t (reads count) w = (hello_read k count w).1
operate k t (writes count) w = (hello_write k count w).1
operate k t shows w = (hello_val_show k t w).1
operate k t (stores buf count) w = (hello_val_store k t buf count w).1
operate k t (proc_writes text len) w = (hello_proc_write k t text len w).1

pub operates : Kernel → Digits → List Operation → World HelloDev → World HelloDev
operates k t [] w = w
operates k t (o ∷ os) w = operates k t os (operate k t o w)

-- Any sequence of the operations releases the semaphore as often as it takes it, and every page
-- that it allocates, on every way out, the interrupted and the failing ones too.
pub operates_balanced :
    (k : Kernel) (t : Digits) (os : List Operation) (w : World HelloDev) (rs : List Resource)
    → ledger w.log ≡ some rs
    → ledger (operates k t os w).log ≡ some rs
unfolding operates operate
operates_balanced k t [] w rs h = h
operates_balanced k t (reads count ∷ os) w rs h =
    operates_balanced k t os _ rs (read_balanced k w rs h count)
operates_balanced k t (writes count ∷ os) w rs h =
    operates_balanced k t os _ rs (write_balanced k w rs h count)
operates_balanced k t (shows ∷ os) w rs h = operates_balanced k t os _ rs (show_balanced k w rs h t)
operates_balanced k t (stores buf count ∷ os) w rs h =
    operates_balanced k t os _ rs (store_balanced k w rs h t buf count)
operates_balanced k t (proc_writes text len ∷ os) w rs h =
    operates_balanced k t os _ rs (proc_write_balanced k w rs h t text len)

module _ (k : Kernel) (w : World HelloDev) where
  -- A text that was stored is shown again: if neither call is interrupted, what the attribute
  -- prints after a store of a printed number is that number's text.
  pub store-show :
      (t : Digits) (v : ℤ) (count : ℕ)
      → let stored = hello_val_store k t (t.print v) count w in
        let shown = hello_val_show k t stored.1 in
        (stored.0 ≡ erestartsys) × (stored.1.dev ≡ w.dev)
        ⊎ (stored.0 ≡ pos count)
          × (stored.1.dev.val ≡ v)
          × ((shown.0.0 ≡ erestartsys) ⊎ (shown.0 ≡ (pos (length (t.print v)), t.print v)))
  unfolding hello_val_store hello_val_show
  store-show t v count = ground (arith, t.parse_print v)

  -- A read of four bytes or more delivers the value, and no read changes it; a shorter one delivers
  -- nothing and returns 0.
  pub read-val :
      (count : ℕ)
      → let r = hello_read k count w in
        (r.1.dev ≡ w.dev)
        × ((r.0 ≡ erestartsys)
            ⊎ (r.0 ≡ pos 0) × (count ≤ 3)
            ⊎ (4 ≤ count) × (last_copy r.1.log ≡ some w.dev.val) × ((r.0 ≡ pos 4) ⊎ (r.0 ≡ efault)))
  unfolding hello_read
  read-val count = ground arith
