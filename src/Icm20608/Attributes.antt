-- ===== src/Icm20608/Attributes.antt =====
-- The misc device of icm20608.c with its attribute file.
use text.Mathlib.Text.{◌==◌ as str_eq}
use learning_kernel.Prelude.{
  List, [], ◌∷◌, String, pos, negsuc, none, some, ◌≡◌, arith, is_nonzero, if◌then◌else◌,
}
use learning_kernel.Kernel.Calls
use learning_kernel.Kernel.Calls.{Kernel, status_code}
use learning_kernel.Kernel.Run.{World}
use learning_kernel.Kernel.Misc.{Attribute, MiscDevice, cat}
use learning_kernel.Icm20608.{Icm20608Device, show_temp, icm20608_read, icm20608_ops}
use learning_kernel.Icm20608.Decoding.{
  Motion, InRange, burst, high, low, word16, last_copied, temperature, read-and-show,
}

abbrev pub icm20608_attrs : Kernel → List (Attribute Icm20608Device)
icm20608_attrs k = record { name = "temp"; show = show_temp k } ∷ []

abbrev pub icm20608_dev : Kernel → MiscDevice Icm20608Device (Unit {0}) (Unit {0})
icm20608_dev k = record { name = "icm20608"; fops = icm20608_ops k; groups = icm20608_attrs k }

module _ (k : Kernel) (w : World Icm20608Device) where
  -- When the sensor has measured `m`, each value in 16 bits, and sends it as it is, the high byte
  -- first: a read copies the seven values to the user, the gyroscope before the accelerometer and the
  -- temperature; and the device has one attribute file, `temp`, which prints -1 if its transfer
  -- fails, and the 16-bit word of the temperature otherwise, which is not the temperature if that is
  -- negative.
  pub device-shows :
      (m : Motion) (name : String)
      → InRange m
      → k.bytes w.log (Calls.spi_write_then_read 0xBB 14) ≡ burst m
      → k.bytes w.log (temperature k w) ≡ high m.temp ∷ low m.temp ∷ []
      → (last_copied (icm20608_read k w).1.log
          ≡ some (m.gyro_x ∷ m.gyro_y ∷ m.gyro_z ∷ m.accel_x ∷ m.accel_y ∷ m.accel_z ∷ m.temp ∷ []))
        × (cat (icm20608_dev k).groups name w ≡ (
            if str_eq name "temp"
            then some (
                if is_nonzero (status_code (k.status w.log (temperature k w)))
                then negsuc 0
                else pos (word16 m.temp))
            else none))
  device-shows m name r h t =
      let shows = read-and-show k w m r h t in (shows.0, ground (arith, shows.1))
