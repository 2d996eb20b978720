-- ===== src/Mmio/Pins.antt =====
-- What the writes to BSRR do to the pins of the port, by the register's documented effect: bit i sets
-- pin i, bit 16 + i resets it, and setting wins. Reads of BSRR give 0.
pub mod Session
use learning_kernel.Prelude.{
  ℕ, zero, suc, ◌+◌, ◌/◌, ◌%◌, ◌^◌, ◌<◌, Bool, true, ◌&&◌, ◌||◌, ◌≡◌, refl, ap, ◌∙◌, map, arith,
  List, [], ◌∷◌, Option, none, some, if◌then◌else◌, ◌==◌,
}
use learning_kernel.Prelude.Bits.{bit_or}
use learning_kernel.Kernel.Calls
use learning_kernel.Kernel.Calls.{Kernel, Event, Call}
use learning_kernel.Kernel.Run.{World}
use learning_kernel.Mmio.{led_switch, init_registers, set, gpioi_bsrr_pi}

abbrev pub bit : ℕ → ℕ → Bool
bit i word = word / 2 ^ i % 2 == 1

abbrev pub pin_effect : ℕ → ℕ → Option ℕ → Option ℕ
pin_effect i word before =
    if bit i word then some 1 else if bit (16 + i) word then some 0 else before

abbrev driven_by : ℕ → Call → Option ℕ → Option ℕ
driven_by i (Call.writel word slot) before =
    if slot == gpioi_bsrr_pi then pin_effect i word before else before
driven_by i _ before = before

-- The level that pin `i` was last driven to.
abbrev pub pin : ℕ → List Event → Option ℕ
pin i [] = none
pin i (e ∷ es) = driven_by i e.call (pin i es)

-- BSRR is write-only.
abbrev pub ReadsZero : Kernel → Type 0
ReadsZero k = (log : List Event) → k.number log (Calls.readl gpioi_bsrr_pi) ≡ 0

-- An LED as a user sees it, and the commands that it obeys.
pub data Lamp : Type 0 where
  dark lit : Lamp

pub obey : ℕ → Lamp → Lamp
obey command lamp = if command == 1 then lit else if command == 0 then dark else lamp

pub obeys : List ℕ → Lamp → Lamp
obeys [] lamp = lamp
obeys (command ∷ commands) lamp = obeys commands (obey command lamp)

-- The LED hangs on a pin that is low when it is lit.
abbrev pub level : Lamp → ℕ
level dark = 1
level lit = 0

all_below : ℕ → (ℕ → Bool) → Bool
all_below zero p = true
all_below (suc n) p = p n && all_below n p

all_below_lem : (n : ℕ) (p : ℕ → Bool) (x : ℕ) → all_below n p ≡ true → x < n → p x ≡ true
unfolding all_below
all_below_lem zero p x h lt = absurd (omega arith)
all_below_lem (suc n) p x h lt = ground (arith, all_below_lem n p x)

-- The word with every bit but bit 0 has bit `i`.
abbrev sets : ℕ → Bool
sets i = i == 0 || bit i 0xFFFFFFFE

others_set : all_below 16 sets ≡ true
unfolding all_below
others_set = refl

inverted :
    (i : ℕ) (before : Option ℕ)
    → i < 16
    → pin_effect i 0xFFFFFFFE before ≡ some (if i == 0 then 0 else 1)
inverted zero before h = refl
inverted (suc i) before h = ground (arith, all_below_lem 16 sets (suc i) others_set h)

module _ (k : Kernel) (zeroes : ReadsZero k) where
  or_read :
      (log : List Event) (m : ℕ)
      → set m (k.number log (Calls.readl gpioi_bsrr_pi) % 2 ^ 32) ≡ bit_or 0 m
  or_read log m = ap (λ n. bit_or (n % 2 ^ 32) m) (zeroes log)

  -- A write of `m` to BSRR, as the drivers make it.
  written :
      (i m : ℕ) (log : List Event) (before : Option ℕ)
      → pin_effect i (set m (k.number log (Calls.readl gpioi_bsrr_pi) % 2 ^ 32)) before
        ≡ pin_effect i (bit_or 0 m) before
  written i m log before = ap (λ word. pin_effect i word before) (or_read log m)

module _ (k : Kernel) {S : Type 0} (zeroes : ReadsZero k) where
  pub switch-obey :
      (strtoul : List ℕ → ℕ) (text : List ℕ) (lamp : Lamp) (w : World S)
      → pin 0 w.log ≡ some (level lamp)
      → pin 0 (led_switch k strtoul text w).1.log ≡ some (level (obey (strtoul text) lamp))
  unfolding led_switch obey
  switch-obey strtoul text lamp w h = ground (
    arith,
    written k zeroes 0 (2 ^ 0) w.log (pin 0 w.log),
    written k zeroes 0 (2 ^ 16) w.log (pin 0 w.log),
  )

  -- The set-up of led.c and leddriver.c.
  pub init_registers-dark : (w : World S) → pin 0 (init_registers k (set 0x1) w).1.log ≡ some 1
  unfolding init_registers
  init_registers-dark w = written k zeroes 0 0x1 _ (pin 0 w.log)

  -- With BSRR reading as zero, the set-up of newchrled.c and dtsled.c, which means to switch the LED
  -- off, leaves PI0 low (the LED is lit) and drives the other fifteen pins of the port high.
  pub init_registers-inverted :
      (w : World S) (i : ℕ)
      → i < 16
      → pin i (init_registers k (set 0xFFFFFFFE) w).1.log ≡ some (if i == 0 then 0 else 1)
  unfolding init_registers
  init_registers-inverted w i h =
      written k zeroes i 0xFFFFFFFE _ (pin i w.log) ∙ inverted i (pin i w.log) h
