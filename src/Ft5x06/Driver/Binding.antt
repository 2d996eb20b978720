-- ===== src/Ft5x06/Driver/Binding.antt =====
-- The driver table of openedv/linux/stm32mp157/23_multitouch/ft5x06.c.
use learning_kernel.Prelude.{ℤ, Bool, List, [], ◌∷◌, String}
use learning_kernel.Kernel.Calls.{Kernel}
use learning_kernel.Kernel.Bus.{Driver}
use learning_kernel.Ft5x06.Driver.{EdtFt5426Dev, edt_ft5426_ts_probe, edt_ft5426_ts_remove}

abbrev pub edt_ft5426_of_match : List String
edt_ft5426_of_match = "edt,edt-ft5206" ∷ []

-- Built with the device tree.
abbrev pub edt_ft5426_ts_driver : Kernel → (ℤ → Bool) → (ℤ → ℤ) → Driver EdtFt5426Dev
edt_ft5426_ts_driver k gpio_is_valid gpio_to_irq = record {
  identity = record { name = "edt_ft5426"; compatible = edt_ft5426_of_match; ids = [] };
  probe = λ client. edt_ft5426_ts_probe k gpio_is_valid gpio_to_irq;
  remove = edt_ft5426_ts_remove k gpio_is_valid gpio_to_irq;
}
