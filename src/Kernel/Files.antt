-- ===== src/Kernel/Files.antt =====
-- struct file_operations: the functions that a driver gives the kernel.
use learning_kernel.Prelude.{ℕ, ℤ, Option, some}
use learning_kernel.Kernel.Run.{World, M}

abbrev pub direct : {S Q A : Type 0} → (Q → M S A) → Option (Q → World S → World S)
direct f = some (λ q w. (f q w).1)

-- An operation that is not there is `none`. A read and a write take what their model takes.
pub record FileOperations (S R W : Type 0) : Type 0 where
  pub open_file : M S ℤ
  pub read : Option (R → World S → World S)
  pub write : Option (W → World S → World S)
  pub unlocked_ioctl : Option (ℕ × ℕ → World S → World S)
  pub poll : Option (Unit {0} → World S → World S)
  pub fasync : Option (Unit {0} → World S → World S)
  pub release : Option (Unit {0} → World S → World S)
