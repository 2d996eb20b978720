-- ===== src/Debounce/Examples.antt =====
-- The theorems on bouncing keys, for a press and a release that bounce, and a test.
use learning_kernel.Prelude.{
  ℕ, ◌/◌, ◌+◌, pos, true, inl, inr, ◌∷◌, [], none, some, List, map, ◌≡◌, refl, arith,
}
use learning_kernel.Kernel.Calls.{Kernel}
use learning_kernel.Kernel.Friendly.{friendly}
use learning_kernel.IrqKeys
use learning_kernel.IrqKeys.Keyirq
use learning_kernel.IrqKeys.Blockio
use learning_kernel.IrqKeys.Noblockio
use learning_kernel.IrqKeys.Fasync
use learning_kernel.Keyinput
use learning_kernel.Debounce.{edge, tick, Line, run}
use learning_kernel.Debounce.Gestures.{Gesture, IsSettled, AllSettled, inputs, settles_at, samples}
use learning_kernel.Debounce.Reading.{Follows, keys-Follow}
use learning_kernel.Debounce.Drivers.{
  keyirq, blockio, noblockio, fasync, keyinput, Debounces, reports, report_sample, keys-debounced,
}

abbrev quiet_kernel : Kernel
quiet_kernel = friendly "alex,key" (λ log. pos 1) 0

abbrev idle_line : Line IrqKeys.KeyDev
idle_line = record {
  level = pos 1;
  left = none;
  world = record {
    dev = record {
      chr = record { devid = 0; major = 0; minor = 0; class_ptr = pos 0; device_ptr = pos 0 };
      nd = none;
      key_gpio = pos 5;
      irq_num = pos 7;
      status = IrqKeys.key_none;
      last_value = pos 1;
    };
    log = [];
  };
}

abbrev idle_keyboard : Line Keyinput.KeyDev
idle_keyboard = record {
  level = pos 1;
  left = none;
  world = record { dev = record { iputdev = some 1; gpio = pos 5; irq = pos 7 }; log = [] };
}

-- 15 ms are four ticks of a clock of 250 Hz.
abbrev ticks : ℕ → ℕ
ticks ms = ms / 4 + 1

-- The contact bounces once, 2 ticks after it has closed.
abbrev press : Gesture
press = record {
  first = pos 0;
  bounce = tick ∷ tick ∷ edge (pos 1) ∷ tick ∷ edge (pos 0) ∷ [];
  rest = 40;
}

abbrev release : Gesture
release = record { first = pos 1; bounce = tick ∷ edge (pos 0) ∷ edge (pos 1) ∷ []; rest = 15 }

press-IsSettled : IsSettled 4 press
press-IsSettled = record { brisk = refl; quiet = omega arith }

release-IsSettled : IsSettled 4 release
release-IsSettled = record { brisk = refl; quiet = omega arith }

abbrev gestures : List Gesture
gestures = press ∷ release ∷ []

gestures-AllSettled : AllSettled 4 gestures
gestures-AllSettled = (press-IsSettled, (release-IsSettled, tt))

keys-debounced_example :
    Debounces ticks keyirq quiet_kernel gestures idle_line
    × Debounces ticks blockio quiet_kernel gestures idle_line
    × Debounces ticks noblockio quiet_kernel gestures idle_line
    × Debounces ticks fasync quiet_kernel gestures idle_line
    × (reports (run ticks keyinput quiet_kernel (inputs gestures) idle_keyboard).world.log
        ≡ samples report_sample (map settles_at gestures) [])
keys-debounced_example =
    keys-debounced ticks quiet_kernel gestures idle_line idle_keyboard (omega arith)
      gestures-AllSettled

-- A press and a release: the newest report first.
reported : samples report_sample (map settles_at gestures) [] ≡ 0 ∷ 1 ∷ []
reported = refl

keys-Follow_example :
    Follows ticks keyirq (Keyirq.kery_read quiet_kernel) quiet_kernel gestures idle_line
    × Follows ticks blockio (Blockio.kery_read quiet_kernel 0) quiet_kernel gestures idle_line
    × Follows ticks noblockio
        (Noblockio.kery_read quiet_kernel true 0)
        quiet_kernel
        gestures
        idle_line
    × Follows ticks fasync (Fasync.kery_read quiet_kernel true 0) quiet_kernel gestures idle_line
keys-Follow_example =
    keys-Follow ticks quiet_kernel gestures idle_line (λ log v. refl) (omega arith)
      gestures-AllSettled (inl refl, (inr refl, tt))
