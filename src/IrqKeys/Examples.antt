-- ===== src/IrqKeys/Examples.antt =====
-- A theorem on reading an interrupt-driven key, for a concrete kernel and a key that has been
-- pressed.
use learning_kernel.Prelude.{pos, true, [], none, ◌≡◌, ◌≢◌, ◌⊎◌}
use learning_kernel.Kernel.Calls.{Kernel}
use learning_kernel.Kernel.Run.{World}
use learning_kernel.Kernel.Errno.{eagain}
use learning_kernel.Kernel.Friendly.{friendly}
use learning_kernel.IrqKeys
use learning_kernel.IrqKeys.{KeyDev}
use learning_kernel.IrqKeys.Fasync
use learning_kernel.IrqKeys.Reading.{poll-read}

abbrev willing : Kernel
willing = friendly "alex,key" (λ log. pos 0) 0

abbrev pressed : World KeyDev
pressed = record {
  dev = record {
    chr = record { devid = 0; major = 0; minor = 0; class_ptr = pos 0; device_ptr = pos 0 };
    nd = none;
    key_gpio = pos 5;
    irq_num = pos 7;
    status = IrqKeys.key_press;
    last_value = pos 0;
  };
  log = [];
}

poll-read_example :
    ((Fasync.key_poll willing pressed).0 ≢ 0)
      × ((Fasync.kery_read willing true 0 pressed).0 ≢ eagain)
    ⊎ ((Fasync.key_poll willing pressed).0 ≡ 0)
      × (Fasync.kery_read willing true 0 pressed ≡ (eagain, pressed))
poll-read_example = poll-read willing pressed 0
