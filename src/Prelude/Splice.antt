-- ===== src/Prelude/Splice.antt =====
-- Overwriting a part of a list.
use Prim.Native.Nat.{ℕ, ◌+◌, ◌≤◌, ◌<◌}
use mathlib.Core.Path.{◌≡◌, ap, ◌∙◌}
use mathlib.Core.Logic.{◌⊎◌, inl, inr}
use mathlib.Core.List.{List, ◌++◌}
use native.Mathlib.Omega.{arith}
use learning_kernel.Prelude.Lists.{
  length, take, drop, get_or, length-append, length-take, length-drop, drop-append_eq,
  get_or-append_left, get_or-append_right, get_or-take, get_or-drop,
}

-- `bytes` written into `mem` at `p`.
abbrev pub splice : ℕ → List ℕ → List ℕ → List ℕ
splice p bytes mem = take p mem ++ (bytes ++ drop (p + length bytes) mem)

pub length-splice :
    (p : ℕ) (bytes mem : List ℕ)
    → p + length bytes ≤ length mem
    → length (splice p bytes mem) ≡ length mem
length-splice p bytes mem h = omega (
  arith,
  length-append (take p mem) (bytes ++ drop (p + length bytes) mem),
  length-append bytes (drop (p + length bytes) mem),
  length-take p mem,
  length-drop (p + length bytes) mem,
)

pub drop-splice :
    (p : ℕ) (bytes mem : List ℕ)
    → p ≤ length mem
    → drop p (splice p bytes mem) ≡ bytes ++ drop (p + length bytes) mem
drop-splice p bytes mem h = drop-append_eq p (take p mem) _ (omega (arith, length-take p mem))

pub get_or-splice :
    (p : ℕ) (bytes mem : List ℕ) (i : ℕ)
    → p + length bytes ≤ length mem
    → (i < p) ⊎ (p + length bytes ≤ i)
    → get_or (splice p bytes mem) i 0 ≡ get_or mem i 0
get_or-splice p bytes mem i h (inl low) =
    get_or-append_left (take p mem) _ i 0 (omega (arith, length-take p mem))
    ∙ get_or-take p mem i 0 low
get_or-splice p bytes mem i h (inr high) =
    let e : length (take p mem) ≡ p = omega (arith, length-take p mem) in
    get_or-append_right (take p mem) _ i 0 (omega arith)
    ∙ get_or-append_right bytes _ _ 0 (omega arith)
    ∙ get_or-drop (p + length bytes) mem _ 0
    ∙ ap (λ j. get_or mem j 0) (omega arith)
