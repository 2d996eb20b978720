-- ===== src/Ft5x06/Examples.antt =====
-- The theorem on openedv/linux/stm32mp157/23_multitouch/ft5x06.c at a concrete message.
use learning_kernel.Prelude.{ℕ, ◌≡◌, refl, arith, List, [], ◌∷◌, ◌++◌, some}
use learning_kernel.Ft5x06.{pointer_emulation, sync, edt_ft5426_ts_isr}
use learning_kernel.Ft5x06.Decoding.{
  Touch, bytes_of_all, reports_of_all, edt_ft5426_ts_isr-bytes_of_all,
}

abbrev touch : ℕ → ℕ → Touch
touch kind id = record { kind = kind; id = id; x = 799; y = 300; weight = 1; area = 2 }

abbrev touches : List Touch
touches = touch 0 0 ∷ touch 2 1 ∷ touch 1 2 ∷ touch 3 3 ∷ touch 2 4 ∷ []

edt_ft5426_ts_isr-bytes_of_all_example :
    edt_ft5426_ts_isr (some (5 ∷ bytes_of_all touches (0 ∷ [])))
    ≡ reports_of_all touches ++ pointer_emulation ∷ sync ∷ []
edt_ft5426_ts_isr-bytes_of_all_example = edt_ft5426_ts_isr-bytes_of_all touches 5 (0 ∷ []) refl (
  (omega arith, omega arith, omega arith, omega arith),
  (
    (omega arith, omega arith, omega arith, omega arith),
    (
      (omega arith, omega arith, omega arith, omega arith),
      (
        (omega arith, omega arith, omega arith, omega arith),
        ((omega arith, omega arith, omega arith, omega arith), tt),
      ),
    ),
  ),
)
