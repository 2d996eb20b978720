-- ===== src/Buses/Tables.antt =====
-- The of_match_tables of the five drivers of openedv/linux/stm32mp157 that a bus binds.
use text.Mathlib.Text.{◌==◌ as str_eq}
use text.Mathlib.TextEquality.{eq_iff}
use learning_kernel.Prelude.{
  ℕ, suc, ℤ, Bool, false, ◌||◌, String, List, [], ◌∷◌, ◌≤◌, arith, Bool-cases, inl, inr,
  if◌then◌else◌,
}
use learning_kernel.Kernel.Calls.{Kernel}
use learning_kernel.Kernel.Bus.{Identity}
use learning_kernel.Ap3216c.Binding.{ap3216c_driver}
use learning_kernel.Icm20608.Binding.{icm20608_driver}
use learning_kernel.Keyinput.Binding.{mykey_driver}
use learning_kernel.Miscbeep.Binding.{miscbeep_driver}
use learning_kernel.Ft5x06.Driver.Binding.{edt_ft5426_ts_driver}

module _ (k : Kernel) (gpio_is_valid : ℤ → Bool) (gpio_to_irq : ℤ → ℤ) where
  abbrev pub identities : List Identity
  identities =
      (miscbeep_driver k gpio_is_valid).identity
      ∷ (mykey_driver k).identity
      ∷ (ap3216c_driver k).identity
      ∷ (icm20608_driver k).identity
      ∷ (edt_ft5426_ts_driver k gpio_is_valid gpio_to_irq).identity
      ∷ []

abbrev pub lists : String → List String → Bool
lists c [] = false
lists c (s ∷ ss) = str_eq c s || lists c ss

-- How many of the drivers have a string in their of_match_table.
abbrev pub claimants : String → List Identity → ℕ
claimants c [] = 0
claimants c (i ∷ is) = if lists c i.compatible then suc (claimants c is) else claimants c is

-- No two of the five drivers claim the same device of the device tree: no compatible string is in
-- the tables of two of them.
claimants-le :
    (k : Kernel) (gpio_is_valid : ℤ → Bool) (gpio_to_irq : ℤ → ℤ) (c : String)
    → claimants c (identities k gpio_is_valid gpio_to_irq) ≤ 1
claimants-le k gpio_is_valid gpio_to_irq c = elim (Bool-cases (str_eq c "alex,beep")) [
  | inl h ↦ rw ((eq_iff c "alex,beep").0 h) (omega arith)
  | inr n0 ↦ elim (Bool-cases (str_eq c "alex,key")) [
    | inl h ↦ rw ((eq_iff c "alex,key").0 h) (omega arith)
    | inr n1 ↦ elim (Bool-cases (str_eq c "LiteOn,ap3216c")) [
      | inl h ↦ rw ((eq_iff c "LiteOn,ap3216c").0 h) (omega arith)
      | inr n2 ↦ elim (Bool-cases (str_eq c "alientek,icm20608")) [
        | inl h ↦ rw ((eq_iff c "alientek,icm20608").0 h) (omega arith)
        | inr n3 ↦ elim (Bool-cases (str_eq c "edt,edt-ft5206")) [
          | inl h ↦ rw ((eq_iff c "edt,edt-ft5206").0 h) (omega arith)
          | inr n4 ↦ ground (arith, n0, n1, n2, n3, n4)
        ]
      ]
    ]
  ]
]
