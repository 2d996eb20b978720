-- ===== src/Chardev/Module/Files.antt =====
-- The positions of the files that are open on drivers/chrdev/chardev.c.
use learning_kernel.Prelude.{
  ℕ, zero, suc, ◌≤◌, ◌≡◌, refl, ℤ, false, List, [], ◌∷◌, some, length, is_neg, pos_part, arith,
}
use learning_kernel.Chardev.{max_length}
use learning_kernel.Chardev.Module.{remove_at, file_at, move_to}

-- A position within the buffer, or at its end.
abbrev pub InRange : ℤ → Type 0
InRange p = (is_neg p ≡ false) × (pos_part p ≤ max_length)

abbrev pub AllInRange : List ℤ → Type 0
AllInRange [] = Unit {0}
AllInRange (p ∷ ps) = InRange p × AllInRange ps

pub remove_at-AllInRange : (i : ℕ) (ps : List ℤ) → AllInRange ps → AllInRange (remove_at i ps)
remove_at-AllInRange i [] h = tt
remove_at-AllInRange zero (p ∷ ps) h = h.1
remove_at-AllInRange (suc i) (p ∷ ps) h = (h.0, remove_at-AllInRange i ps h.1)

pub move_to-AllInRange :
    (i : ℕ) (q : ℤ) (ps : List ℤ) → InRange q → AllInRange ps → AllInRange (move_to i q ps)
move_to-AllInRange i q [] r h = tt
move_to-AllInRange zero q (p ∷ ps) r h = (r, h.1)
move_to-AllInRange (suc i) q (p ∷ ps) r h = (h.0, move_to-AllInRange i q ps r h.1)

pub length-remove_at : (i : ℕ) (ps : List ℤ) → length (remove_at i ps) ≤ length ps
length-remove_at i [] = omega arith
length-remove_at zero (p ∷ ps) = omega arith
length-remove_at (suc i) (p ∷ ps) = omega (arith, length-remove_at i ps)

pub length-move_to : (i : ℕ) (q : ℤ) (ps : List ℤ) → length (move_to i q ps) ≡ length ps
length-move_to i q [] = refl
length-move_to zero q (p ∷ ps) = refl
length-move_to (suc i) q (p ∷ ps) = omega (arith, length-move_to i q ps)

pub file_at-InRange :
    (i : ℕ) (ps : List ℤ) (p : ℤ) → AllInRange ps → file_at i ps ≡ some p → InRange p
file_at-InRange i [] p h e = absurd (ground arith)
file_at-InRange zero (q ∷ ps) p h e = ground arith
file_at-InRange (suc i) (q ∷ ps) p h e = file_at-InRange i ps p h.1 e
