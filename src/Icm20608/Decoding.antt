-- ===== src/Icm20608/Decoding.antt =====
-- What icm20608.c makes of the bytes of a burst, and what the sensor means by them: each reading is a
-- 16-bit number in two's complement, the high byte first.
use learning_kernel.Prelude.{
  ℕ, ◌+◌, ◌-◌, ◌*◌, ◌/◌, ◌%◌, ◌^◌, ◌<◌, ℤ, pos, negsuc, List, [], ◌∷◌, ◌≡◌, ap, ◌∙◌, arith, Option,
  none, some, is_nonzero, if◌then◌else◌,
}
use learning_kernel.Prelude.Bits.{bit_or, above}
use learning_kernel.Kernel.Calls
use learning_kernel.Kernel.Calls.{Kernel, Event, Call, status_code}
use learning_kernel.Kernel.Run.{World}
use learning_kernel.Icm20608.{
  Icm20608Device, joined, signed16, readings, swapped, little_endian, icm20608_read, show_temp,
}

-- -2^15 to 2^15 - 1
abbrev pub Fits : ℤ → Type 0
Fits (pos n) = n < 2 ^ 15
Fits (negsuc n) = n < 2 ^ 15

-- A number in two's complement.
abbrev pub word16 : ℤ → ℕ
word16 (pos n) = n
word16 (negsuc n) = 2 ^ 16 - 1 - n

abbrev pub high : ℤ → ℕ
high v = word16 v / 2 ^ 8

abbrev pub low : ℤ → ℕ
low v = word16 v % 2 ^ 8

-- What the sensor has measured.
pub record Motion : Type 0 where
  pub accel_x : ℤ
  pub accel_y : ℤ
  pub accel_z : ℤ
  pub temp : ℤ
  pub gyro_x : ℤ
  pub gyro_y : ℤ
  pub gyro_z : ℤ

-- How it sends that.
abbrev pub burst : Motion → List ℕ
burst m =
    high m.accel_x
    ∷ low m.accel_x
    ∷ high m.accel_y
    ∷ low m.accel_y
    ∷ high m.accel_z
    ∷ low m.accel_z
    ∷ high m.temp
    ∷ low m.temp
    ∷ high m.gyro_x
    ∷ low m.gyro_x
    ∷ high m.gyro_y
    ∷ low m.gyro_y
    ∷ high m.gyro_z
    ∷ low m.gyro_z
    ∷ []

pub record InRange (m : Motion) : Type 0 where
  pub accel_x_fits : Fits m.accel_x
  pub accel_y_fits : Fits m.accel_y
  pub accel_z_fits : Fits m.accel_z
  pub temp_fits : Fits m.temp
  pub gyro_x_fits : Fits m.gyro_x
  pub gyro_y_fits : Fits m.gyro_y
  pub gyro_z_fits : Fits m.gyro_z

signed16-word16 : (v : ℤ) → Fits v → signed16 (word16 v) ≡ v
signed16-word16 (pos n) b = ground arith
signed16-word16 (negsuc n) b = ground arith

word16-below : (v : ℤ) → Fits v → word16 v < 2 ^ 16
word16-below (pos n) b = omega arith
word16-below (negsuc n) b = omega arith

-- The two bytes of a reading, joined again.
joined-split : (v : ℤ) → Fits v → joined (high v % 2 ^ 8) (low v % 2 ^ 8) ≡ v
joined-split v b = ap signed16 whole ∙ signed16-word16 v b
  where
    whole : bit_or (high v % 2 ^ 8 * 2 ^ 8) (low v % 2 ^ 8) ≡ word16 v
    whole = omega (arith, above 8 (high v % 2 ^ 8) (low v % 2 ^ 8) (omega arith), word16-below v b)

pub readings-burst :
    (m : Motion)
    → InRange m
    → readings (burst m)
      ≡ m.gyro_x ∷ m.gyro_y ∷ m.gyro_z ∷ m.accel_x ∷ m.accel_y ∷ m.accel_z ∷ m.temp ∷ []
readings-burst m r = λ i.
    joined-split m.gyro_x r.gyro_x_fits i
    ∷ joined-split m.gyro_y r.gyro_y_fits i
    ∷ joined-split m.gyro_z r.gyro_z_fits i
    ∷ joined-split m.accel_x r.accel_x_fits i
    ∷ joined-split m.accel_y r.accel_y_fits i
    ∷ joined-split m.accel_z r.accel_z_fits i
    ∷ joined-split m.temp r.temp_fits i
    ∷ []

swapped-bytes :
    (h l : ℕ) → h < 2 ^ 8 → l < 2 ^ 8 → swapped (little_endian (h ∷ l ∷ [])) ≡ h * 2 ^ 8 + l
swapped-bytes h l bh bl =
    ap swapped parts
    ∙ ap (λ m. bit_or ((l * 2 ^ 8 + h) * 2 ^ 8) m % 2 ^ 16) upper
    ∙ omega (arith, above 8 (l * 2 ^ 8 + h) l bl)
  where
    parts : little_endian (h ∷ l ∷ []) ≡ l * 2 ^ 8 + h
    parts = omega arith

    upper : (l * 2 ^ 8 + h) / 2 ^ 8 ≡ l
    upper = omega arith

-- The ints that were last copied to the user.
abbrev pub last_copied : List Event → Option (List ℤ)
last_copied [] = none
last_copied (e ∷ es) = elim e.call [ Calls.copy_ints_to_user buf ↦ some buf | _ ↦ last_copied es ]

module _ (k : Kernel) (w : World Icm20608Device) where
  pub read-burst :
      (m : Motion)
      → InRange m
      → k.bytes w.log (Calls.spi_write_then_read 0xBB 14) ≡ burst m
      → last_copied (icm20608_read k w).1.log
        ≡ some (m.gyro_x ∷ m.gyro_y ∷ m.gyro_z ∷ m.accel_x ∷ m.accel_y ∷ m.accel_z ∷ m.temp ∷ [])
  unfolding icm20608_read
  read-burst m r h = ap (λ bytes. some (readings bytes)) h ∙ ap some (readings-burst m r)

  show_temp-word :
      (t : ℤ)
      → Fits t
      → k.bytes w.log (Calls.spi_write_then_read 0xC1 2) ≡ high t ∷ low t ∷ []
      → (show_temp k w).0 ≡ (
          if is_nonzero (status_code (k.status w.log (Calls.spi_write_then_read 0xC1 2)))
          then negsuc 0
          else pos (word16 t))
  unfolding show_temp
  show_temp-word t b h = ground (arith, shown)
    where
      shown : swapped (little_endian (k.bytes w.log (Calls.spi_write_then_read 0xC1 2))) ≡ word16 t
      shown =
          ap (λ bytes. swapped (little_endian bytes)) h
          ∙ swapped-bytes (high t) (low t) (omega (arith, word16-below t b)) (omega arith)
          ∙ omega arith

module _ (k : Kernel) (w : World Icm20608Device) where
  abbrev pub temperature : Call
  temperature = Calls.spi_write_then_read 0xC1 2

  -- When the sensor has measured `m`, each value in 16 bits, and sends it as it is, the high byte
  -- first: a read copies the seven values to the user, the gyroscope before the accelerometer and the
  -- temperature; and the attribute prints -1 if its transfer fails, and the 16-bit word of the
  -- temperature otherwise, which is not the temperature if that is negative.
  pub read-and-show :
      (m : Motion)
      → InRange m
      → k.bytes w.log (Calls.spi_write_then_read 0xBB 14) ≡ burst m
      → k.bytes w.log temperature ≡ high m.temp ∷ low m.temp ∷ []
      → (last_copied (icm20608_read k w).1.log
          ≡ some (m.gyro_x ∷ m.gyro_y ∷ m.gyro_z ∷ m.accel_x ∷ m.accel_y ∷ m.accel_z ∷ m.temp ∷ []))
        × ((show_temp k w).0 ≡ (
            if is_nonzero (status_code (k.status w.log temperature))
            then negsuc 0
            else pos (word16 m.temp)))
  read-and-show m r h t = (read-burst k w m r h, show_temp-word k w m.temp r.temp_fits t)
