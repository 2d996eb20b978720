-- ===== src/Apps/Sensing.antt =====
-- openedv/linux/stm32mp157/22_spi/icm20608App.c on 22_spi/icm20608.c.
use learning_kernel.Prelude.{
  ℕ, zero, suc, ℤ, pos, is_nonzero, eqb_ℤ, List, [], ◌∷◌, map, String, ◌≡◌, refl, ap, ◌∙◌, arith,
  length, if◌then◌else◌,
}
use learning_kernel.Kernel.Calls
use learning_kernel.Kernel.Calls.{Event, Kernel, status_code}
use learning_kernel.Kernel.Run.{World, M}
use learning_kernel.Apps.{Outcome, started}
use learning_kernel.Icm20608.{Icm20608Device, icm20608_read, readings}
use learning_kernel.Icm20608.Decoding.{Motion, InRange, burst, readings-burst}

-- The floating-point arithmetic of the machine: an int as a float, floats as doubles and back, a
-- constant, which is a double, and the operations on floats and on doubles.
pub record Floats : Type 1 where
  pub F : Type 0
  pub D : Type 0
  pub of_int : ℤ → F
  pub widen : F → D
  pub narrow : D → F
  pub literal : String → D
  pub div_f : F → F → F
  pub sub_f : F → F → F
  pub div_d : D → D → D
  pub add_d : D → D → D

-- The elements of `databuf`, 0 where it has fewer than seven.
abbrev pub at : ℕ → List ℤ → ℤ
at i [] = pos 0
at zero (x ∷ xs) = x
at (suc i) (x ∷ xs) = at i xs

-- What one round prints: the raw values and the actual values.
pub record Print (F : Type 0) : Type 0 where
  pub raw : List ℤ
  pub act : List F

module _ (f : Floats) where
  abbrev gyro_act : ℤ → f.F
  gyro_act adc = f.narrow (f.div_d (f.widen (f.of_int adc)) (f.literal "16.4"))

  abbrev accel_act : ℤ → f.F
  accel_act adc = f.div_f (f.of_int adc) (f.of_int (pos 2048))

  abbrev temp_act : ℤ → f.F
  temp_act adc = f.narrow (
      f.add_d (f.div_d (f.widen (f.sub_f (f.of_int adc) (f.of_int (pos 25)))) (f.literal "326.8"))
        (f.widen (f.of_int (pos 25))))

  -- Lines 62 to 86.
  abbrev pub printed : List ℤ → Print f.F
  printed databuf = record {
    raw =
        at 0 databuf
        ∷ at 1 databuf
        ∷ at 2 databuf
        ∷ at 3 databuf
        ∷ at 4 databuf
        ∷ at 5 databuf
        ∷ at 6 databuf
        ∷ [];
    act =
        gyro_act (at 0 databuf)
        ∷ gyro_act (at 1 databuf)
        ∷ gyro_act (at 2 databuf)
        ∷ accel_act (at 3 databuf)
        ∷ accel_act (at 4 databuf)
        ∷ accel_act (at 5 databuf)
        ∷ temp_act (at 6 databuf)
        ∷ [];
  }

  -- The scales of the chip at 2000 degrees per second and 16 g: 16.4 steps for a degree per second,
  -- 2048 for a g, and 326.8 for a degree Celsius from 25 on, where the program takes 25 steps for 0.
  abbrev pub degrees_per_second : ℤ → f.F
  degrees_per_second steps = f.narrow (f.div_d (f.widen (f.of_int steps)) (f.literal "16.4"))

  abbrev pub gravities : ℤ → f.F
  gravities steps = f.div_f (f.of_int steps) (f.of_int (pos 2048))

  abbrev pub celsius : ℤ → f.F
  celsius steps =
      let above =
        f.div_d (f.widen (f.sub_f (f.of_int steps) (f.of_int (pos 25)))) (f.literal "326.8") in
      f.narrow (f.add_d above (f.widen (f.of_int (pos 25))))

  -- What is to be printed for a motion, the gyroscope before the accelerometer and the temperature.
  abbrev pub shown : Motion → Print f.F
  shown m = record {
    raw = m.gyro_x ∷ m.gyro_y ∷ m.gyro_z ∷ m.accel_x ∷ m.accel_y ∷ m.accel_z ∷ m.temp ∷ [];
    act =
        degrees_per_second m.gyro_x
        ∷ degrees_per_second m.gyro_y
        ∷ degrees_per_second m.gyro_z
        ∷ gravities m.accel_x
        ∷ gravities m.accel_y
        ∷ gravities m.accel_z
        ∷ celsius m.temp
        ∷ [];
  }

-- The user's array after a read, whose last call is the copy: what was copied if all of it was, and
-- any ints if it was not.
abbrev pub received : (List Event → List ℤ → List ℤ) → List ℤ → List Event → List ℤ
received torn old [] = old
received torn old (e ∷ es) = elim e.call [
  | Calls.copy_ints_to_user buf ↦ if eqb_ℤ e.ret (pos 0) then buf else torn es old
  | _ ↦ old
]

module _ (k : Kernel) (f : Floats) (torn : List Event → List ℤ → List ℤ) where
  -- So many rounds of the loop, with what they print, the first one first.
  pub while_loop : ℕ → List ℤ → M Icm20608Device (List (Print f.F))
  while_loop zero databuf w = ([], w)
  while_loop (suc n) databuf w =
      let r = icm20608_read k w in
      let buf = received torn databuf r.1.log in
      let rest = while_loop n buf r.1 in
      if is_nonzero r.0 then rest else (printed f buf ∷ rest.0, rest.1)

  -- The sensor has measured these motions, each in range, by the next rounds, it sends them as they
  -- are, and the copies to the user succeed.
  abbrev pub Measures : List Motion → World Icm20608Device → Type 0
  Measures [] w = Unit {0}
  Measures (m ∷ ms) w =
      InRange m
      × (k.bytes w.log (Calls.spi_write_then_read 0xBB 14) ≡ burst m)
      × ((log : List Event) (buf : List ℤ) → k.number log (Calls.copy_ints_to_user buf) ≡ 0)
      × Measures ms (icm20608_read k w).1

  round-received :
      (old : List ℤ) (w : World Icm20608Device)
      → ((log : List Event) (buf : List ℤ) → k.number log (Calls.copy_ints_to_user buf) ≡ 0)
      → received torn old (icm20608_read k w).1.log
        ≡ readings (k.bytes w.log (Calls.spi_write_then_read 0xBB 14))
  unfolding icm20608_read
  round-received old w copied =
      let transfer = Calls.spi_write_then_read 0xBB 14 in
      let e : Event = record {
        call = transfer;
        ret = status_code (k.status w.log transfer);
        out = 0;
      } in
      ground (arith, copied (e ∷ w.log) (readings (k.bytes w.log transfer)))

  read-zero : (w : World Icm20608Device) → (icm20608_read k w).0 ≡ pos 0
  unfolding icm20608_read
  read-zero w = refl

  while_loop-shown :
      (ms : List Motion) (databuf : List ℤ) (w : World Icm20608Device)
      → Measures ms w
      → (while_loop (length ms) databuf w).0 ≡ map (shown f) ms
  unfolding while_loop
  while_loop-shown [] databuf w h = refl
  while_loop-shown (m ∷ ms) databuf w h =
      let buf = received torn databuf (icm20608_read k w).1.log in
      let buf-m = round-received databuf w h.2 ∙ ap readings h.1 ∙ readings-burst m h.0 in
      let rest = while_loop-shown ms buf (icm20608_read k w).1 h.3 in
      rw (read-zero w) (λ i. printed f (buf-m i) ∷ rest i)

  -- `garbage` is what the uninitialised `databuf` holds.
  abbrev pub icm20608_app :
      ℕ → ℤ → ℕ → List ℤ → World Icm20608Device → Outcome (List (Print f.F) × World Icm20608Device)
  icm20608_app argc fd n garbage w = started argc fd (while_loop n garbage w)

  -- The program is in its loop, and what it has printed so far is the motions.
  abbrev pub Prints : List Motion → Outcome (List (Print f.F) × World Icm20608Device) → Type 0
  Prints ms (Outcome.exited status out) = ⊥
  Prints ms (Outcome.running (prints, w)) = prints ≡ map (shown f) ms

  -- icm20608App prints what the sensor has measured on icm20608.c, every motion once and in order:
  -- the raw values of gyroscope, accelerometer and temperature, and these scaled by 16.4 steps for
  -- a degree per second, 2048 for a g, and 326.8 for a degree Celsius from 25 on, rounded as the
  -- machine's floats and doubles are; if each value fits 16 bits, the sensor sends it the high byte
  -- first, and the copies to the user succeed.
  pub icm20608_app-Prints :
      (fd : ℕ) (ms : List Motion) (garbage : List ℤ) (w : World Icm20608Device)
      → Measures ms w
      → Prints ms (icm20608_app 2 (pos fd) (length ms) garbage w)
  icm20608_app-Prints fd ms garbage w h = while_loop-shown ms garbage w h
