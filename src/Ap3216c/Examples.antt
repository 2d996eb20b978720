-- ===== src/Ap3216c/Examples.antt =====
-- The theorems on openedv/linux/stm32mp157/21_iic/ap3216c.c for a concrete kernel.
use learning_kernel.Prelude.{
  ℕ, ◌≡◌, ◌⊎◌, refl, arith, pos, negsuc, [], none, some, false, is_neg, if◌then◌else◌,
}
use learning_kernel.Kernel.Calls.{Kernel, Call}
use learning_kernel.Kernel.Run.{World}
use learning_kernel.Kernel.Lines.{last_copy}
use learning_kernel.Kernel.Friendly.{friendly}
use learning_kernel.Ap3216c.{Ap3216cDevice, get_ps, ap3216c_ioctl}
use learning_kernel.Ap3216c.Decoding.{Serves}
use learning_kernel.Kernel.Misc.{cat}
use learning_kernel.Ap3216c.Attributes.{ap3216c_dev, files-registers}
use learning_kernel.Ap3216c.Ioctl.{copy_failed, proximity, attribute, ap3216c_ioctl-attribute}

-- Every register of the sensor holds 2.
abbrev answer : Call → ℕ
answer (Call.i2c_read reg) = 2
answer _ = 0

abbrev sensor : Kernel
sensor = record (friendly "" (λ log. pos 0) 0) { number = λ log c. answer c }

abbrev unbound : World Ap3216cDevice
unbound = record { dev = record { client = none }; log = [] }

sensor-Serves : Serves sensor (λ reg. 2)
sensor-Serves = record {
  transfers = λ log reg. refl;
  answers = λ log reg. refl;
  bytes = λ reg. omega arith;
}

ap3216c_ioctl-attribute_example :
    let v = attribute sensor proximity unbound in
    let r = ap3216c_ioctl sensor 99 get_ps unbound in
    (v ≡ negsuc 0) × (r.0 ≡ negsuc 0) × (last_copy r.1.log ≡ some (pos 99))
    ⊎ (is_neg v ≡ false)
      × (last_copy r.1.log ≡ some v)
      × (r.0 ≡ (if copy_failed r.1.log then negsuc 0 else pos 0))
ap3216c_ioctl-attribute_example = ap3216c_ioctl-attribute sensor proximity 99 unbound

files-registers_example : cat (ap3216c_dev sensor).groups "als" unbound ≡ some (pos 514)
files-registers_example =
    files-registers sensor (λ reg. 2) sensor-Serves unbound 10 514 34 "als"
      (omega arith, omega arith, omega arith) (refl, refl) (refl, refl) (refl, refl)
