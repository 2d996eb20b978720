-- ===== src/Myclass/Examples.antt =====
-- The theorem on drivers/myclass/myclass.c for a concrete kernel.
use learning_kernel.Prelude.{pos, [], some, ◌≡◌, refl}
use learning_kernel.Kernel.Calls.{Kernel}
use learning_kernel.Kernel.Run.{World}
use learning_kernel.Kernel.Ledger.{ledger}
use learning_kernel.Kernel.Friendly.{friendly}
use learning_kernel.Myclass.{
  Myclass, load_unload, led_chrdev_init, led_chrdev_exit, add_all, remove_all,
}
use learning_kernel.Myclass.Lifecycle.{myclass_module_clean}

abbrev willing : Kernel
willing = friendly "" (λ log. pos 0) 0

abbrev cold : World Myclass
cold = record { dev = record { devno = 0; led_chrdev_class = pos 0; ppos = pos 0 }; log = [] }

myclass_module_clean_example : ledger (load_unload willing cold).log ≡ some []
unfolding load_unload led_chrdev_init led_chrdev_exit add_all remove_all
myclass_module_clean_example = myclass_module_clean willing cold refl refl
