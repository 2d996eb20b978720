-- ===== src/Chrdev/Examples.antt =====
-- The theorem on the registration of a character device for a concrete kernel.
use learning_kernel.Prelude.{pos, [], refl}
use learning_kernel.Kernel.Calls.{Kernel}
use learning_kernel.Kernel.Run.{World}
use learning_kernel.Kernel.Friendly.{friendly}
use learning_kernel.Chrdev.{Chrdev, register, Registers, register-Registers}

abbrev willing : Kernel
willing = friendly "" (λ log. pos 0) 0

abbrev cold : World Chrdev
cold = record {
  dev = record { devid = 0; major = 200; minor = 0; class_ptr = pos 0; device_ptr = pos 0 };
  log = [];
}

register-Registers_example : Registers [] (register willing cold)
register-Registers_example = register-Registers willing cold [] refl
