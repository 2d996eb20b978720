-- ===== src/Gpioled/Examples.antt =====
-- The theorems on openedv/linux/stm32mp157/05_gpioled/gpioled.c for a concrete kernel.
use learning_kernel.Prelude.{pos, [], none, ◌≡◌, refl}
use learning_kernel.Kernel.Calls.{Kernel}
use learning_kernel.Kernel.Run.{World}
use learning_kernel.Kernel.Ledger.{ledger}
use learning_kernel.Kernel.Friendly.{friendly}
use learning_kernel.Gpioled.{GpioledDev, gpioled_parse, load_unload}
use learning_kernel.Gpioled.Lifecycle.{gpioled_module-ledger}

-- The device tree has the LED, and the user writes a one.
abbrev willing : Kernel
willing = friendly "alex,led" (λ log. pos 0) 1

-- The device tree has another device.
abbrev other : Kernel
other = friendly "other" (λ log. pos 0) 1

abbrev cold : World GpioledDev
cold = record {
  dev = record {
    chr = record { devid = 0; major = 0; minor = 0; class_ptr = pos 0; device_ptr = pos 0 };
    nd = none;
    led_gpio = pos 0;
  };
  log = [];
}

gpioled_module-ledger_example : ledger (load_unload other cold).log ≡ none
unfolding gpioled_parse
gpioled_module-ledger_example = gpioled_module-ledger other cold refl
