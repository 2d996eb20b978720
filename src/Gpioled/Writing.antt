-- ===== src/Gpioled/Writing.antt =====
-- What a write to gpioled.c does to the LED's line.
use learning_kernel.Prelude.{
  ℕ, pos, Option, some, true, is_neg, ◌≡◌, ◌≢◌, ◌⊎◌, arith, if◌then◌else◌, ◌==◌, eqb_ℤ-refl,
}
use learning_kernel.Kernel.Calls
use learning_kernel.Kernel.Calls.{Kernel, Event, Status}
use learning_kernel.Kernel.Run.{World}
use learning_kernel.Kernel.Lines.{line}
use learning_kernel.Gpioled.{GpioledDev, led_write}

-- The line is low for 1, high for 0, and left alone for any other number.
pub wanted : ℕ → Option ℕ → Option ℕ
wanted v before = if v == 1 then some 0 else if v == 0 then some 1 else before

module _ (k : Kernel) (cnt : ℕ) (w : World GpioledDev) where
  abbrev parse : Calls.Call
  parse = Calls.kstrtoul_from_user 10

  -- A write whose text is a number returns the count that was asked for and drives the LED's line
  -- low for 1 (the LED is on), high for 0, and not at all for another number. A text that is no
  -- number gives its error, and the line keeps its level.
  pub led_write-line :
      ((led_write k cnt w).0 ≡ pos cnt)
        × (line w.dev.led_gpio (led_write k cnt w).1.log
            ≡ wanted (k.number w.log parse) (line w.dev.led_gpio w.log))
      ⊎ (is_neg (led_write k cnt w).0 ≡ true)
        × (k.status w.log parse ≢ Status.success)
        × (line w.dev.led_gpio (led_write k cnt w).1.log ≡ line w.dev.led_gpio w.log)
  unfolding led_write wanted
  led_write-line = ground (arith, eqb_ℤ-refl w.dev.led_gpio)
