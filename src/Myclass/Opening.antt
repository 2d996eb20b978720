-- ===== src/Myclass/Opening.antt =====
-- What opening a LED of myclass.c does to the registers.
use learning_kernel.Prelude.{ℕ, ◌≡◌, none, arith}
use learning_kernel.Kernel.Calls.{Kernel}
use learning_kernel.Kernel.Run.{World}
use learning_kernel.Kernel.Ledger.{ledger}
use learning_kernel.Myclass.{Myclass, led_chrdev_open}

-- Whatever is held before, opening a LED writes to an address that is no mapping.
pub open_faults :
    (k : Kernel) (i : ℕ) (w : World Myclass) → ledger (led_chrdev_open k i w).1.log ≡ none
unfolding led_chrdev_open
open_faults k i w = ground arith
