-- ===== src/Apps/Examples.antt =====
-- The theorems on the user space test programs of openedv/linux/stm32mp157, drivers/chrdev/tests and
-- drivers/helloDev/tests for a concrete kernel.
use learning_kernel.Prelude.{
  ℕ, ℤ, pos, negsuc, String, List, [], ◌∷◌, ◌++◌, none, some, true, false, ◌≡◌, refl, arith, length,
  if◌then◌else◌, ◌==◌,
}
use learning_kernel.Kernel.Calls
use learning_kernel.Kernel.Calls.{Kernel, Event, Call}
use learning_kernel.Kernel.Run.{World}
use learning_kernel.Kernel.Ledger.{ledger}
use learning_kernel.Kernel.Friendly.{friendly}
use learning_kernel.IrqKeys
use learning_kernel.IrqKeys.{KeyDev}
use learning_kernel.Timer.{TimerDev, fires}
use learning_kernel.Icm20608.{Icm20608Device}
use learning_kernel.Icm20608.Decoding.{Motion, InRange, burst}
use learning_kernel.Hello.{HelloDev}
use learning_kernel.Apps.Keys.{Round, Waiting}
use learning_kernel.Apps.Keys.Changes.{levels}
use learning_kernel.Apps.Keys.Blocking.{
  PrintsChanges, keyirq_app, blockio_app, keyirq_app-PrintsChanges, blockio_app-PrintsChanges,
}
use learning_kernel.Apps.Keys.Losing.{PrintsSomeChanges, keyirq_app-PrintsSomeChanges}
use learning_kernel.Apps.Keys.Noblockio.{noblockio_app, noblockio_app-PrintsChanges}
use learning_kernel.Apps.Keys.Fasync.{fasync_app, fasync_app-PrintsChanges}
use learning_kernel.Apps.Keys.Sessions.{SessionsLeave, sessions-Leave}
use learning_kernel.Apps.Blinking.{Entry, Vars, while_loop, control, session}
use learning_kernel.Apps.Blinking.Session.{session_clean, period_and_stop}
use learning_kernel.Timer.Running.{flipped, shown_levels, delays, blinks, repeated}
use learning_kernel.Apps.Sensing.{Floats, Prints, icm20608_app, icm20608_app-Prints}

-- The key is pressed in the first sample and released in the second.
abbrev pressing : List Event → ℤ
pressing log = if length (levels log) == 0 then pos 0 else pos 1

abbrev key_kernel : Kernel
key_kernel = friendly "alex,key" pressing 0

abbrev key_world : World KeyDev
key_world = record {
  dev = record {
    chr = record { devid = 0; major = 0; minor = 0; class_ptr = pos 0; device_ptr = pos 0 };
    nd = none;
    key_gpio = pos 5;
    irq_num = pos 7;
    status = IrqKeys.key_none;
    last_value = pos 1;
  };
  log = [];
}

abbrev untorn : List Event → ℤ → ℤ
untorn log old = old

abbrev round : ℕ → ℕ → Round
round before during = record { before = before; during = during }

keyirq_app-PrintsChanges_example : PrintsChanges (pos 1) (
    keyirq_app key_kernel untorn 2
      (pos 3)
      (pos 9)
      (round 0 0 ∷ round 1 0 ∷ round 1 0 ∷ [])
      key_world)
keyirq_app-PrintsChanges_example =
    keyirq_app-PrintsChanges key_kernel untorn 3 (pos 9) (round 0 0 ∷ round 1 0 ∷ round 1 0 ∷ [])
      key_world (λ log v. refl) (omega arith, (omega arith, (omega arith, tt))) (refl, refl)

blockio_app-PrintsChanges_example :
    PrintsChanges
      (pos 1)
      (blockio_app key_kernel untorn 2 (pos 3) (pos 9) (round 0 4 ∷ round 1 2 ∷ []) key_world)
blockio_app-PrintsChanges_example =
    blockio_app-PrintsChanges key_kernel untorn 3 (pos 9) (round 0 4 ∷ round 1 2 ∷ []) key_world
      (λ log v. refl) (omega arith, (omega arith, tt)) (refl, refl)

keyirq_app-PrintsSomeChanges_example :
    PrintsSomeChanges
      (pos 1)
      (keyirq_app key_kernel untorn 2 (pos 3) (pos 9) (round 2 0 ∷ round 1 0 ∷ []) key_world)
keyirq_app-PrintsSomeChanges_example =
    keyirq_app-PrintsSomeChanges key_kernel untorn 3 (pos 9) (round 2 0 ∷ round 1 0 ∷ []) key_world
      (λ log v. refl) (refl, refl)

abbrev waiting : ℕ → ℕ → Waiting
waiting before asleep = record { before = before; asleep = asleep; between = 0 }

noblockio_app-PrintsChanges_example :
    PrintsChanges
      (pos 1)
      (noblockio_app key_kernel untorn 2 (pos 3) (pos 9) (waiting 0 3 ∷ waiting 1 2 ∷ []) key_world)
noblockio_app-PrintsChanges_example =
    noblockio_app-PrintsChanges key_kernel untorn 3 (pos 9) (waiting 0 3 ∷ waiting 1 2 ∷ [])
      key_world (λ log v. refl) (omega arith, refl, (omega arith, refl, tt)) (refl, refl)

fasync_app-PrintsChanges_example :
    PrintsChanges
      (pos 1)
      (fasync_app key_kernel untorn 2 (pos 3) 1 (round 1 0 ∷ round 0 3 ∷ []) key_world)
unfolding learning_kernel.IrqKeys.Fasync.key_fasync
fasync_app-PrintsChanges_example =
    fasync_app-PrintsChanges key_kernel untorn 3 1 (round 1 0 ∷ round 0 3 ∷ []) key_world
      (omega arith) (λ log v. refl) (omega arith, (omega arith, tt)) refl (refl, refl)

sessions-Leave_example :
    SessionsLeave key_kernel untorn 2
      (pos 3)
      (pos 9)
      (round 1 0 ∷ round 0 3 ∷ [])
      (waiting 0 3 ∷ [])
      0
      key_world
sessions-Leave_example =
    sessions-Leave key_kernel untorn 2 (pos 3) (pos 9) (round 1 0 ∷ round 0 3 ∷ [])
      (waiting 0 3 ∷ []) 0 key_world refl refl

abbrev timer_kernel : Kernel
timer_kernel = friendly "alex,led" (λ log. pos 0) 0

abbrev timer_world : World TimerDev
timer_world = record {
  dev = record {
    chr = record { devid = 0; major = 0; minor = 0; class_ptr = pos 0; device_ptr = pos 0 };
    nd = none;
    led_gpio = pos 5;
    timeperiod = pos 1000;
    sta = true;
    pending = false;
  };
  log = [];
}

abbrev typing : ℕ → ℕ → Entry
typing waited n = record { waited = waited; typed = some n }

abbrev wrong : Entry
wrong = record { waited = 2; typed = none }

abbrev garbage : Vars
garbage = record { cmd = 77; arg = 88 }

session_clean_example :
    ledger
      (session timer_kernel 2 garbage
        (typing 0 2 ∷ wrong ∷ typing 1 3 ∷ typing 0 20 ∷ typing 3 4 ∷ [])
        timer_world).log
    ≡ some []
session_clean_example =
    session_clean timer_kernel 2 garbage
      (typing 0 2 ∷ wrong ∷ typing 1 3 ∷ typing 0 20 ∷ typing 3 4 ∷ []) timer_world refl

period_and_stop_example :
    let w' =
      control timer_kernel 0xEF01 20
        (fires timer_kernel 3 (control timer_kernel 0xEF03 20 timer_world)) in
    (while_loop timer_kernel (typing 0 3 ∷ typing 0 20 ∷ typing 3 1 ∷ []) garbage timer_world
      ≡ while_loop timer_kernel [] (record { cmd = 0xEF01; arg = 20 }) w')
    × (w'.dev
        ≡ record timer_world.dev { timeperiod = pos 20; pending = false; sta = flipped 3 true })
    × (shown_levels (pos 5) w'.log ≡ blinks 3 true (shown_levels (pos 5) timer_world.log))
    × (delays w'.log ≡ repeated 3 (pos 20) (pos 20 ∷ delays timer_world.log))
period_and_stop_example = period_and_stop timer_kernel 3 20 [] garbage timer_world (omega arith)

abbrev still : Motion
still = record {
  accel_x = pos 12;
  accel_y = negsuc 6;
  accel_z = pos 2048;
  temp = negsuc 299;
  gyro_x = pos 0;
  gyro_y = negsuc 0;
  gyro_z = pos 3;
}

abbrev sensor : Kernel
sensor = record (friendly "" (λ log. pos 0) 0) { bytes = λ log c. burst still }

abbrev sensor_world : World Icm20608Device
sensor_world = record { dev = record { spi = some 1 }; log = [] }

-- The operations by their names.
abbrev written_out : Floats
written_out = record {
  F = List String;
  D = List String;
  of_int = λ n. [];
  widen = λ x. x;
  narrow = λ x. "float" ∷ x;
  literal = λ s. s ∷ [];
  div_f = λ x y. "/" ∷ x;
  sub_f = λ x y. "-" ∷ x;
  div_d = λ x y. "/" ∷ x ++ y;
  add_d = λ x y. "+" ∷ x ++ y;
}

abbrev still-InRange : InRange still
still-InRange = record {
  accel_x_fits = omega arith;
  accel_y_fits = omega arith;
  accel_z_fits = omega arith;
  temp_fits = omega arith;
  gyro_x_fits = omega arith;
  gyro_y_fits = omega arith;
  gyro_z_fits = omega arith;
}

icm20608_app-Prints_example :
    Prints sensor written_out
      (λ log old. old)
      (still ∷ still ∷ [])
      (icm20608_app sensor written_out (λ log old. old) 2 (pos 3) 2 [] sensor_world)
icm20608_app-Prints_example =
    icm20608_app-Prints sensor written_out (λ log old. old) 3 (still ∷ still ∷ []) [] sensor_world
      (still-InRange, refl, λ log buf. refl, (still-InRange, refl, λ log buf. refl, tt))

abbrev five : Call → ℤ
five Calls.copy_from_user = pos 5
five _ = pos 0

abbrev hello_kernel : Kernel
hello_kernel = record (friendly "" (λ log. pos 0) 0) { int = λ log c. five c }

abbrev hello_world : World HelloDev
hello_world = record {
  dev = record {
    hello_major = 0;
    hello_minor = 0;
    hello_class = pos 1;
    hello_dev = some 1;
    val = pos 7;
  };
  log = [];
}
