-- ===== src/Icm20608/Examples.antt =====
-- The theorems on openedv/linux/stm32mp157/22_spi/icm20608.c for a concrete kernel.
use learning_kernel.Prelude.{
  ℕ, pos, negsuc, List, [], ◌∷◌, some, ◌≡◌, refl, arith, if◌then◌else◌, ◌==◌,
}
use learning_kernel.Kernel.Calls.{Kernel, Call}
use learning_kernel.Kernel.Run.{World}
use learning_kernel.Kernel.Friendly.{friendly}
use learning_kernel.Icm20608.{Icm20608Device, icm20608_read, icm20608_reginit}
use learning_kernel.Icm20608.Decoding.{Motion, burst, high, low, last_copied}
use learning_kernel.Icm20608.Attributes.{icm20608_dev, device-shows}
use learning_kernel.Kernel.Misc.{cat}
use learning_kernel.Icm20608.Setup.{programmed, settings, reginit-settings}

-- It lies still in the cold.
abbrev motion : Motion
motion = record {
  accel_x = pos 12;
  accel_y = negsuc 6;
  accel_z = pos 2048;
  temp = negsuc 299;
  gyro_x = pos 0;
  gyro_y = negsuc 0;
  gyro_z = pos 3;
}

abbrev answer : Call → List ℕ
answer (Call.spi_write_then_read command n) =
    if n == 14 then burst motion else high motion.temp ∷ low motion.temp ∷ []
answer _ = []

abbrev sensor : Kernel
sensor = record (friendly "" (λ log. pos 0) 0) { bytes = λ log c. answer c }

abbrev cold : World Icm20608Device
cold = record { dev = record { spi = some 1 }; log = [] }

device-shows_example :
    (last_copied (icm20608_read sensor cold).1.log
      ≡ some (pos 0 ∷ negsuc 0 ∷ pos 3 ∷ pos 12 ∷ negsuc 6 ∷ pos 2048 ∷ negsuc 299 ∷ []))
    × (cat (icm20608_dev sensor).groups "temp" cold ≡ some (pos 65236))
device-shows_example =
    device-shows sensor cold motion "temp"
      (record {
        accel_x_fits = omega arith;
        accel_y_fits = omega arith;
        accel_z_fits = omega arith;
        temp_fits = omega arith;
        gyro_x_fits = omega arith;
        gyro_y_fits = omega arith;
        gyro_z_fits = omega arith;
      })
      refl refl

reginit-settings_example : programmed (icm20608_reginit sensor cold).1.log ≡ settings
unfolding icm20608_reginit
reginit-settings_example = reginit-settings sensor cold refl
