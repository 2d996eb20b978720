-- ===== src/Sysfstest/Examples.antt =====
-- The theorem on drivers/sysfstest/sysfstest.c for a concrete kernel.
use learning_kernel.Prelude.{pos, [], none}
use learning_kernel.Kernel.Calls.{Kernel}
use learning_kernel.Kernel.Run.{World}
use learning_kernel.Kernel.Friendly.{friendly}
use learning_kernel.Sysfstest.{Sysfstest}

abbrev willing : Kernel
willing = friendly "" (λ log. pos 0) 0

abbrev cold : World Sysfstest
cold = record { dev = record { chrdev_kset = none; chrdev_kob = none; lbuf = [] }; log = [] }
