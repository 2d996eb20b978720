-- ===== src/Mmio/Fields.antt =====
-- The fields that the set-up of the registers changes, and what it leaves alone.
use learning_kernel.Prelude.{
  ℕ, ◌+◌, ◌-◌, ◌*◌, ◌/◌, ◌%◌, ◌^◌, ◌<◌, pos_part, ◌≡◌, ap, ◌∙◌, arith, List, [], ◌∷◌, Option, none,
  some, if◌then◌else◌, ◌==◌,
}
use learning_kernel.Prelude.Bits.{
  bit_and, bit_or, and_split, or_split, and_ones, mask, above, and_none, or_none,
}
use mathlib.Core.Option
use learning_kernel.Kernel.Calls.{Kernel, Event, Call}
use learning_kernel.Kernel.Run.{World}
use learning_kernel.Mmio.{clear, set, init_registers}

clear_bit0 : (v : ℕ) → v < 2 ^ 32 → clear 0x1 v ≡ v / 2 * 2
clear_bit0 v b =
    ap (λ a. bit_and a 0xFFFFFFFE) parts
    ∙ and_split 1 (v / 2) (v % 2) (2 ^ 31 - 1) 0 (omega arith) (omega arith)
    ∙ omega (arith, and_ones 31 (v / 2) (omega arith), and_none (v % 2))
  where
    parts : v ≡ v / 2 * 2 + v % 2
    parts = omega arith

clear_bits01 : (v : ℕ) → v < 2 ^ 32 → clear 0x3 v ≡ v / 4 * 4
clear_bits01 v b =
    ap (λ a. bit_and a 0xFFFFFFFC) parts
    ∙ and_split 2 (v / 4) (v % 4) (2 ^ 30 - 1) 0 (omega arith) (omega arith)
    ∙ omega (arith, and_ones 30 (v / 4) (omega arith), and_none (v % 4))
  where
    parts : v ≡ v / 4 * 4 + v % 4
    parts = omega arith

clear_bit8 : (v : ℕ) → v < 2 ^ 32 → clear (2 ^ 8) v ≡ v / 512 * 512 + v % 256
clear_bit8 v b =
    ap (λ a. bit_and a 0xFFFFFEFF) parts
    ∙ and_split 9 (v / 512) (v % 512) (2 ^ 23 - 1) 255 (omega arith) (omega arith)
    ∙ omega (
      arith,
      and_ones 23 (v / 512) (omega arith),
      mask 8 (v % 512) (v % 512 / 256) (v % 256) (omega arith) (omega arith),
    )
  where
    parts : v ≡ v / 512 * 512 + v % 512
    parts = omega arith

set_low : (h field : ℕ) → field < 4 → set field (h * 4) ≡ h * 4 + field
set_low h field b = above 2 h field b

set_bit8 : (h l : ℕ) → l < 256 → set (2 ^ 8) (h * 512 + l) ≡ h * 512 + 256 + l
set_bit8 h l b =
    ap (λ a. bit_or a (2 ^ 8)) parts
    ∙ or_split 8 (h * 2) l 1 0 b (omega arith)
    ∙ omega (arith, above 1 h 1 (omega arith), or_none l)
  where
    parts : h * 512 + l ≡ h * 2 * 256 + l
    parts = omega arith

-- The clock's bit 8 is set.
pub clock_field :
    (v : ℕ) → v < 2 ^ 32 → set (2 ^ 8) (clear (2 ^ 8) v) ≡ v / 512 * 512 + 256 + v % 256
clock_field v b = ap (set (2 ^ 8)) (clear_bit8 v b) ∙ set_bit8 (v / 512) (v % 256) (omega arith)

-- The two low bits become `field`.
pub low_field : (field v : ℕ) → field < 4 → v < 2 ^ 32 → set field (clear 0x3 v) ≡ v / 4 * 4 + field
low_field field v f b = ap (set field) (clear_bits01 v b) ∙ set_low (v / 4) field f

-- What was last read from a register, and last written to it.
abbrev pub read_from : ℕ → List Event → Option ℕ
read_from reg [] = none
read_from reg (e ∷ es) = elim e.call [
  | Call.readl slot ↦ if slot == reg then some (pos_part e.ret) else read_from reg es
  | _ ↦ read_from reg es
]

abbrev pub written_to : ℕ → List Event → Option ℕ
written_to reg [] = none
written_to reg (e ∷ es) = elim e.call [
  | Call.writel value slot ↦ if slot == reg then some value else written_to reg es
  | _ ↦ written_to reg es
]

-- What the set-up has written to the registers of the clock and the pin, from what it read.
pub record Configured (log : List Event) : Type 0 where
  pub clock : written_to 0 log ≡ Option.map (λ v. v / 512 * 512 + 256 + v % 256) (read_from 0 log)
  pub mode : written_to 1 log ≡ Option.map (λ v. v / 4 * 4 + 1) (read_from 1 log)
  pub push_pull : written_to 2 log ≡ Option.map (λ v. v / 2 * 2) (read_from 2 log)
  pub speed : written_to 3 log ≡ Option.map (λ v. v / 4 * 4 + 2) (read_from 3 log)
  pub pull_up : written_to 4 log ≡ Option.map (λ v. v / 4 * 4 + 1) (read_from 4 log)

-- The set-up turns the clock of port I on (bit 8), makes the pin an output (01 in bits 1:0 of the
-- mode), push-pull (0 in bit 0), fast (10) and pulled up (01), and writes every other bit of the
-- five registers back as it was read.
pub init_registers-Configured :
    (k : Kernel) {S : Type 0} (close : ℕ → ℕ) (w : World S)
    → Configured (init_registers k close w).1.log
unfolding init_registers
init_registers-Configured k close w = record {
  clock = ap some (clock_field _ (omega arith));
  mode = ap some (low_field 1 _ (omega arith) (omega arith));
  push_pull = ap some (clear_bit0 _ (omega arith));
  speed = ap some (low_field 2 _ (omega arith) (omega arith));
  pull_up = ap some (low_field 1 _ (omega arith) (omega arith));
}
