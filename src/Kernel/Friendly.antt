-- ===== src/Kernel/Friendly.antt =====
-- A kernel in which every call succeeds, for the tests and examples of the drivers.
use text.Mathlib.Text.{◌==◌ as str_eq}
use learning_kernel.Prelude.{ℕ, ℤ, pos, String, List, [], replicate, some, if◌then◌else◌, ◌*◌, ◌^◌}
use learning_kernel.Kernel.Calls.{Call, Event, Kernel, Status, Pointer}

abbrev text_of : String → Call → String
text_of compatible (Call.of_property_read_string name) =
    if str_eq name "status" then "okay" else compatible
text_of compatible _ = ""

abbrev int_of : (List Event → ℤ) → List Event → Call → ℤ
int_of level log (Call.of_get_named_gpio name) = pos 5
int_of level log Call.irq_of_parse_and_map = pos 7
int_of level log (Call.gpio_get_value g) = level log
int_of level log (Call.i2c_read reg) = pos 2
int_of level log (Call.i2c_write reg value) = pos 1
int_of level log _ = pos 0

abbrev number_of : ℕ → Call → ℕ
number_of typed Call.alloc_chrdev_region = 42 * 2 ^ 20
number_of typed (Call.kstrtoul_from_user base) = typed
number_of typed _ = 0

abbrev bytes_of : Call → List ℕ
bytes_of (Call.spi_write_then_read command n) = replicate n 0
bytes_of _ = []

-- The device tree says `compatible`, the line's level follows the log, and the user types `typed`.
abbrev pub friendly : String → (List Event → ℤ) → ℕ → Kernel
friendly compatible level typed = record {
  status = λ log c. Status.success;
  pointer = λ log c. Pointer.valid 1;
  object = λ log c. some 1;
  int = int_of level;
  number = λ log c. number_of typed c;
  text = λ log c. text_of compatible c;
  bytes = λ log c. bytes_of c;
}
