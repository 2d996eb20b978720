-- ===== src/Ap3216c/Attributes.antt =====
-- The misc device of ap3216c.c with its three attribute files.
use text.Mathlib.Text.{◌==◌ as str_eq}
use learning_kernel.Prelude.{
  ℕ, ◌/◌, ◌%◌, ◌^◌, ◌<◌, ◌==◌, pos, negsuc, String, List, [], ◌∷◌, none, some, ◌≡◌, arith,
  if◌then◌else◌,
}
use learning_kernel.Kernel.Calls.{Kernel}
use learning_kernel.Kernel.Run.{World}
use learning_kernel.Kernel.Misc.{Attribute, MiscDevice, cat}
use learning_kernel.Ap3216c.{
  Ap3216cDevice, irdata_low, irdata_high, alsdata_low, alsdata_high, psdata_low, psdata_high,
  show_ir, show_als, show_ps, fops,
}
use learning_kernel.Ap3216c.Decoding.{Serves, shows-registers}

abbrev pub ap3216c_attrs : Kernel → List (Attribute Ap3216cDevice)
ap3216c_attrs k =
    record { name = "ir"; show = show_ir k }
    ∷ record { name = "als"; show = show_als k }
    ∷ record { name = "ps"; show = show_ps k }
    ∷ []

abbrev pub ap3216c_dev : Kernel → MiscDevice Ap3216cDevice (Unit {0}) (Unit {0})
ap3216c_dev k = record { name = "ap3216c"; fops = fops k; groups = ap3216c_attrs k }

module _ (k : Kernel) (regs : ℕ → ℕ) (serves : Serves k regs) (w : World Ap3216cDevice) where
  -- If every transfer succeeds and the registers hold an infrared intensity of ten bits (two of them
  -- low), an ambient light of sixteen (eight of them low) and a proximity of ten (four of them low),
  -- the device has the attribute files `ir`, `als` and `ps` and no other, and they print these,
  -- whatever the other bits of the registers hold; but the proximity is printed as -1 if bit 6 of its
  -- low register flags it as invalid.
  pub files-registers :
      (ir als ps : ℕ) (name : String)
      → (ir < 2 ^ 10) × (als < 2 ^ 16) × (ps < 2 ^ 10)
      → (regs irdata_low % 4 ≡ ir % 4) × (regs irdata_high ≡ ir / 4)
      → (regs alsdata_low ≡ als % 256) × (regs alsdata_high ≡ als / 256)
      → (regs psdata_low % 16 ≡ ps % 16) × (regs psdata_high % 64 ≡ ps / 16)
      → cat (ap3216c_dev k).groups name w ≡ (
          if str_eq name "ir"
          then some (pos ir)
          else if str_eq name "als"
          then some (pos als)
          else if str_eq name "ps"
          then some (if regs psdata_low / 64 % 2 == 0 then pos ps else negsuc 0)
          else none)
  files-registers ir als ps name b i a p =
      let shows = shows-registers k regs serves w ir als ps b i a p in ground (arith, shows)
