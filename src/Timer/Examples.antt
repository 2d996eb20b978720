-- ===== src/Timer/Examples.antt =====
-- The theorems on openedv/linux/stm32mp157/12_timer/timer.c for a concrete kernel.
use learning_kernel.Prelude.{pos, Bool, true, false, [], ◌∷◌, none, some, ◌≡◌, refl}
use learning_kernel.Kernel.Calls
use learning_kernel.Kernel.Calls.{Kernel}
use learning_kernel.Kernel.Run.{World}
use learning_kernel.Kernel.Ledger.{ledger}
use learning_kernel.Kernel.Friendly.{friendly}
use learning_kernel.Timer.{TimerDev, open_cmd, setperiod_cmd, ioctls, firing, load_use_unload}
use learning_kernel.Timer.Lifecycle.{timer_module_clean}

abbrev willing : Kernel
willing = friendly "alex,led" (λ log. pos 0) 0

abbrev device : Bool → TimerDev
device pending = record {
  chr = record { devid = 0; major = 0; minor = 0; class_ptr = pos 0; device_ptr = pos 0 };
  nd = none;
  led_gpio = pos 5;
  timeperiod = pos 1000;
  sta = true;
  pending = pending;
}

abbrev cold : World TimerDev
cold = record { dev = device false; log = [] }

-- The line is requested and the timer runs.
abbrev running : World TimerDev
running = record {
  dev = device true;
  log = record { call = Calls.gpio_request (pos 5); ret = pos 0; out = 0 } ∷ [];
}

timer_module_clean_example :
    ledger
      (load_use_unload willing
        (ioctls open_cmd 0 ∷ firing ∷ ioctls setperiod_cmd 20 ∷ firing ∷ [])
        cold).log
    ≡ some []
timer_module_clean_example =
    timer_module_clean willing (ioctls open_cmd 0 ∷ firing ∷ ioctls setperiod_cmd 20 ∷ firing ∷ [])
      cold refl
