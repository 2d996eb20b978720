-- ===== src/Mmio.antt =====
-- An LED at pin PI0 of the SoC, driven through memory-mapped registers: what 02_led/led.c,
-- 03_newchrled/newchrled.c, 04_dtsled/dtsled.c and 17_platform/leddriver.c of
-- openedv/linux/stm32mp157 share, read off led.c.
pub mod Fields
pub mod Pins
pub mod Mapping
pub mod Writing
pub mod Modules
mod Examples
use learning_kernel.Prelude.{
  ℕ, ◌-◌, ◌^◌, ℤ, pos, List, Option, none, some, leb, not, is_neg, to_int, if◌then◌else◌, ◌==◌,
}
use learning_kernel.Prelude.Bits.{bit_and, bit_or}
use learning_kernel.Kernel.Calls
use learning_kernel.Kernel.Calls.{Kernel}
use learning_kernel.Kernel.Errno.{efault}
use learning_kernel.Kernel.Run.{
  World, M, pure, ◌>>=◌, ◌>>◌, run_call, call_object, call_number, call_word,
}

-- The variables that hold the mapped registers.
abbrev pub mpu_ahb4_periph_rcc_pi : ℕ
mpu_ahb4_periph_rcc_pi = 0

abbrev pub gpioi_moder_pi : ℕ
gpioi_moder_pi = 1

abbrev pub gpioi_otyper_pi : ℕ
gpioi_otyper_pi = 2

abbrev pub gpioi_ospeedr_pi : ℕ
gpioi_ospeedr_pi = 3

abbrev pub gpioi_pupdr_pi : ℕ
gpioi_pupdr_pi = 4

abbrev pub gpioi_bsrr_pi : ℕ
gpioi_bsrr_pi = 5

-- `val &= ~m` and `val |= m` on a 32-bit word.
abbrev pub clear : ℕ → ℕ → ℕ
clear m val = bit_and val (0xFFFFFFFF - m)

abbrev pub set : ℕ → ℕ → ℕ
set m val = bit_or val m

module _ (k : Kernel) {S : Type 0} where
  -- readl, a change, and writel.
  abbrev pub update : ℕ → (ℕ → ℕ) → M S (Unit {0})
  update reg change = do
    val ← call_word k (Calls.readl reg)
    run_call k (Calls.writel (change val) reg)

  -- LEDON is 1 and LEDOFF is 0; `strtoul` is simple_strtoul to the base 10.
  unfoldable pub led_switch : (List ℕ → ℕ) → List ℕ → M S (Unit {0})
  led_switch strtoul sta =
      if strtoul sta == 1
      then update gpioi_bsrr_pi (set (2 ^ 16))
      else if strtoul sta == 0
      then update gpioi_bsrr_pi (set (2 ^ 0))
      else pure tt

  -- The result of each ioremap is not looked at.
  unfoldable pub led_remap : (ℕ → Calls.Call) → M S (Unit {0})
  led_remap map = do
    call_object k (map mpu_ahb4_periph_rcc_pi)
    call_object k (map gpioi_moder_pi)
    call_object k (map gpioi_otyper_pi)
    call_object k (map gpioi_ospeedr_pi)
    call_object k (map gpioi_pupdr_pi)
    call_object k (map gpioi_bsrr_pi)
    pure tt

  unfoldable pub led_unmap : M S (Unit {0})
  led_unmap = do
    run_call k (Calls.iounmap mpu_ahb4_periph_rcc_pi)
    run_call k (Calls.iounmap gpioi_moder_pi)
    run_call k (Calls.iounmap gpioi_otyper_pi)
    run_call k (Calls.iounmap gpioi_ospeedr_pi)
    run_call k (Calls.iounmap gpioi_pupdr_pi)
    run_call k (Calls.iounmap gpioi_bsrr_pi)

  -- `size` is the size of `databuf`, which holds the copied bytes; `cnt` is not compared with it.
  -- `none` is a copy that has overrun the stack, and nothing is said of what follows it.
  unfoldable pub led_write : ℕ → (List ℕ → ℕ) → ℕ → M S (Option ℤ)
  unfolding led_switch
  led_write size strtoul cnt = do
    retvalue ← call_number k (Calls.copy_into size cnt)
    databuf ← (λ w. (k.bytes w.log (Calls.copy_into size cnt), w))
    if not (leb cnt size)
        then pure none
        else if is_neg (to_int (pos retvalue))
        then pure (some efault)
        else do led_switch strtoul databuf; pure (some (pos cnt))

  -- The registers of the clock, the mode, the type, the speed and the pull-up of the pin, and the
  -- level of the LED, which `close` sets.
  unfoldable pub init_registers : (ℕ → ℕ) → M S (Unit {0})
  init_registers close = do
    update mpu_ahb4_periph_rcc_pi (λ val. set (2 ^ 8) (clear (2 ^ 8) val))
    update gpioi_moder_pi (λ val. set 0x1 (clear 0x3 val))
    update gpioi_otyper_pi (clear 0x1)
    update gpioi_ospeedr_pi (λ val. set 0x2 (clear 0x3 val))
    update gpioi_pupdr_pi (λ val. set 0x1 (clear 0x3 val))
    update gpioi_bsrr_pi close
