-- ===== src/Kernel/Lines.antt =====
-- What a driver has last put on a gpio line, and last copied to the user, read off its calls.
use learning_kernel.Prelude.{ℕ, ℤ, List, [], ◌∷◌, Option, none, some, eqb_ℤ, if◌then◌else◌}
use learning_kernel.Kernel.Calls.{Call, Event}

abbrev set_by : ℤ → Call → Option ℕ → Option ℕ
set_by g (Call.gpio_set_value h v) before = if eqb_ℤ g h then some v else before
set_by g (Call.gpio_direction_output h v) before = if eqb_ℤ g h then some v else before
set_by g _ before = before

abbrev pub line : ℤ → List Event → Option ℕ
line g [] = none
line g (e ∷ es) = set_by g e.call (line g es)

abbrev copied_by : Call → Option ℤ → Option ℤ
copied_by (Call.copy_to_user v) before = some v
copied_by _ before = before

abbrev pub last_copy : List Event → Option ℤ
last_copy [] = none
last_copy (e ∷ es) = copied_by e.call (last_copy es)
