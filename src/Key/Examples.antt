-- ===== src/Key/Examples.antt =====
-- The theorems on openedv/linux/stm32mp157/11_key/key.c for a concrete kernel.
use learning_kernel.Prelude.{
  ℕ, ◌<◌, pos, [], ◌∷◌, none, some, ◌≡◌, refl, ltb, if◌then◌else◌, arith, length,
}
use learning_kernel.Kernel.Calls.{Kernel}
use learning_kernel.Kernel.Run.{World}
use learning_kernel.Kernel.Ledger.{ledger}
use learning_kernel.Kernel.Friendly.{friendly}
use learning_kernel.Key.{KeyDev, key0_value, key_read, load_use_unload}
use learning_kernel.Key.Reading.{Answers, key_read_press}
use learning_kernel.Key.Lifecycle.{Releases, key_module_clean}

-- The key is down for the first three polls.
abbrev pressed : Kernel
pressed = friendly "alex,key" (λ log. if ltb (length log) 3 then pos 0 else pos 1) 0

abbrev cold : World KeyDev
cold = record {
  dev = record {
    chr = record { devid = 0; major = 0; minor = 0; class_ptr = pos 0; device_ptr = pos 0 };
    nd = none;
    key_gpio = pos 5;
    keyvalue = pos 0;
  };
  log = [];
}

-- The line is high after three more polls at most.
pressed-Releases : (fuel : ℕ) → 3 < fuel → Releases pressed fuel
pressed-Releases fuel h g log = (3, h, λ e. absurd (ground (arith, e)))

key_module_clean_example :
    (w' : World KeyDev) × (load_use_unload pressed (8 ∷ 5 ∷ []) cold ≡ some w')
    × (ledger w'.log ≡ some [])
key_module_clean_example =
    key_module_clean pressed (8 ∷ 5 ∷ []) cold refl
      (pressed-Releases 8 (omega arith), (pressed-Releases 5 (omega arith), tt))

key_read_press_example : Answers key0_value (key_read pressed 8 cold)
key_read_press_example =
    key_read_press pressed cold 8 2 refl (omega arith) (λ e. absurd (ground (arith, e)))
