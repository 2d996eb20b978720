-- ===== src/Ft5x06/Driver/Examples.antt =====
-- The theorem on the probe of openedv/linux/stm32mp157/23_multitouch/ft5x06.c for a concrete kernel.
use learning_kernel.Prelude.{ℤ, pos, Bool, not, is_neg, [], none, refl}
use learning_kernel.Kernel.Calls.{Kernel}
use learning_kernel.Kernel.Run.{World}
use learning_kernel.Kernel.Friendly.{friendly}
use learning_kernel.Ft5x06.Driver.{EdtFt5426Dev, bind_unbind}
use learning_kernel.Ft5x06.Driver.Lifecycle.{Managed, bind_unbind-Managed}

abbrev willing : Kernel
willing = friendly "" (λ log. pos 0) 0

abbrev is_line : ℤ → Bool
is_line gpio = not (is_neg gpio)

abbrev cold : World EdtFt5426Dev
cold = record { dev = record { input = none; reset_gpio = pos 0; irq_gpio = pos 0 }; log = [] }

bind_unbind-Managed_example : Managed (bind_unbind willing is_line (λ gpio. gpio) cold)
bind_unbind-Managed_example = bind_unbind-Managed willing is_line (λ gpio. gpio) cold refl
