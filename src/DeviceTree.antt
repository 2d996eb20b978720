-- ===== src/DeviceTree.antt =====
-- The checks of a device tree node with which the parse functions begin.
use text.Mathlib.Text.{◌==◌ as str_eq}
use learning_kernel.Prelude.{
  ℕ, ℤ, pos, String, Bool, true, false, Option, none, some, not, is_neg, if◌then◌else◌,
}
use learning_kernel.Kernel.Calls
use learning_kernel.Kernel.Calls.{Kernel}
use learning_kernel.Kernel.Errno.{einval}
use learning_kernel.Kernel.Run.{M, pure, ◌>>=◌, ◌>>◌, modify, call_object, call_status_text}

abbrev pub is_null : Option ℕ → Bool
is_null none = true
is_null (some p) = false

-- From `of_find_node_by_path` to the comparison of `compatible`: 0, or -EINVAL.
unfoldable pub check_node : Kernel → {S : Type 0} → String → String → (Option ℕ → S → S) → M S ℤ
check_node k path compatible set_nd = do
  nd ← call_object k (Calls.of_find_node_by_path path)
  modify (set_nd nd)
  if is_null nd then pure einval else do
    status ← call_status_text k (Calls.of_property_read_string "status")
    if is_neg status.0
        then pure einval
        else if not (str_eq status.1 "okay")
        then pure einval
        else do
          found ← call_status_text k (Calls.of_property_read_string "compatible")
          if is_neg found.0
              then pure einval
              else if not (str_eq found.1 compatible)
              then pure einval
              else pure (pos 0)
