-- ===== src/Miscbeep/Binding.antt =====
-- The misc device of miscbeep.c and its driver table.
use learning_kernel.Prelude.{ℕ, ℤ, Bool, List, [], ◌∷◌, String}
use learning_kernel.Kernel.Calls.{Kernel}
use learning_kernel.Kernel.Bus.{Driver}
use learning_kernel.Miscbeep.{BeepDevice, miscbeep_probe, miscbeep_remove, miscbeep_fops}
use learning_kernel.Kernel.Misc.{MiscDevice}

abbrev pub beep_miscdev : Kernel → MiscDevice BeepDevice (Unit {0}) ℕ
beep_miscdev k = record { name = "miscbeep"; fops = miscbeep_fops k; groups = [] }

abbrev pub miscbeep_of_match : List String
miscbeep_of_match = "alex,beep" ∷ []

abbrev pub miscbeep_driver : Kernel → (ℤ → Bool) → Driver BeepDevice
miscbeep_driver k gpio_is_valid = record {
  identity = record { name = "stm32mp1,beep"; compatible = miscbeep_of_match; ids = [] };
  probe = λ device. miscbeep_probe k gpio_is_valid;
  remove = miscbeep_remove k;
}
