-- ===== src/Miscbeep/Examples.antt =====
-- The theorem on openedv/linux/stm32mp157/19_miscbeep/miscbeep.c for a concrete kernel.
use learning_kernel.Prelude.{ℤ, pos, Bool, not, is_neg, []}
use learning_kernel.Kernel.Calls.{Kernel}
use learning_kernel.Kernel.Run.{World}
use learning_kernel.Kernel.Friendly.{friendly}
use learning_kernel.Miscbeep.{BeepDevice}

abbrev willing : Kernel
willing = friendly "alex,beep" (λ log. pos 0) 0

abbrev is_line : ℤ → Bool
is_line gpio = not (is_neg gpio)

abbrev cold : World BeepDevice
cold = record { dev = record { gpio = pos 0 }; log = [] }
