-- ===== src/Mmio/Writing.antt =====
-- What a write to the LED's device needs: a buffer that is large enough and a mapped register.
use learning_kernel.Prelude.{
  ℕ, pos, Bool, not, ◌&&◌, ◌||◌, leb, ◌==◌, List, some, none, ◌≡◌, arith, if◌then◌else◌, is_neg,
  to_int,
}
use learning_kernel.Kernel.Calls
use learning_kernel.Kernel.Calls.{Kernel}
use learning_kernel.Kernel.Run.{World, call_number}
use learning_kernel.Kernel.Ledger.{Resource, ledger, holds}
use learning_kernel.Mmio.{led_write, gpioi_bsrr_pi}

module _ (k : Kernel) {S : Type 0} (size : ℕ) (strtoul : List ℕ → ℕ) (cnt : ℕ) (w : World S) where
  abbrev copied : ℕ × World S
  copied = call_number k (Calls.copy_into size cnt) w

  abbrev text : List ℕ
  text = k.bytes copied.1.log (Calls.copy_into size cnt)

  -- The user's text is 0 or 1, and the count of bytes that were not copied is no negative int.
  abbrev pub commands : Bool
  commands = not (is_neg (to_int (pos copied.0))) && (strtoul text == 1 || strtoul text == 0)

  -- For a driver that holds `rs`, a write of `cnt` bytes to a buffer of `size` bytes: what is held
  -- stays the same, unless `cnt` is more than `size`, when the buffer is overrun, or the text is a
  -- command while BSRR is not mapped; then something is used that is not held.
  pub led_write-ledger :
      (rs : List Resource)
      → ledger w.log ≡ some rs
      → ledger (led_write k size strtoul cnt w).1.log ≡ (
          if leb cnt size && (not commands || holds (Resource.mapping gpioi_bsrr_pi) rs)
          then some rs
          else none)
  unfolding led_write
  led_write-ledger rs h = ground arith
