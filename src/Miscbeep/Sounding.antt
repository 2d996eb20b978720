-- ===== src/Miscbeep/Sounding.antt =====
-- What a write to miscbeep.c does to the buzzer's line.
use learning_kernel.Prelude.{
  ℕ, pos, Bool, some, is_neg, ◌≡◌, arith, if◌then◌else◌, ◌==◌, eqb_ℤ-refl,
}
use learning_kernel.Kernel.Calls
use learning_kernel.Kernel.Calls.{Kernel, status_code}
use learning_kernel.Kernel.Run.{World}
use learning_kernel.Kernel.Lines.{line}
use learning_kernel.Miscbeep.{BeepDevice, miscbeep_write}

-- The buzzer sounds while its line is low.
abbrev pub sounding : Bool → ℕ
sounding on = if on then 0 else 1

module _ (k : Kernel) (w : World BeepDevice) where
  abbrev pub typed : ℕ
  typed = k.number w.log (Calls.kstrtoul_from_user 0)

  abbrev pub rejected : Bool
  rejected = is_neg (status_code (k.status w.log (Calls.kstrtoul_from_user 0)))

  -- A write whose text is a number returns the count that was asked for and makes the buzzer sound
  -- for any number but 0; a text that is no number gives its error, and the line keeps its level.
  pub write-line :
      (cnt : ℕ)
      → ((miscbeep_write k cnt w).0 ≡ (
          if rejected then status_code (k.status w.log (Calls.kstrtoul_from_user 0)) else pos cnt))
        × (line w.dev.gpio (miscbeep_write k cnt w).1.log
            ≡ (if rejected then line w.dev.gpio w.log else if typed == 0 then some 1 else some 0))
  unfolding miscbeep_write
  write-line cnt = ground (arith, eqb_ℤ-refl w.dev.gpio)
