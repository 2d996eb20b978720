-- ===== src/Kernel/Misc.antt =====
-- struct miscdevice: a character device with attribute files, which a program reads by their names.
use text.Mathlib.Text.{◌==◌ as str_eq}
use learning_kernel.Prelude.{ℤ, String, List, [], ◌∷◌, Option, none, some, if◌then◌else◌}
use learning_kernel.Kernel.Run.{World, M}
use learning_kernel.Kernel.Files.{FileOperations}

-- The number that an attribute prints. No attribute of the drivers can be written.
pub record Attribute (S : Type 0) : Type 0 where
  pub name : String
  pub show : M S ℤ

pub record MiscDevice (S R W : Type 0) : Type 0 where
  pub name : String
  pub fops : FileOperations S R W
  pub groups : List (Attribute S)

-- What a program reads from the attribute file of this name, if there is one.
abbrev pub cat : {S : Type 0} → List (Attribute S) → String → World S → Option ℤ
cat [] name w = none
cat (a ∷ rest) name w = if str_eq name a.name then some (a.show w).0 else cat rest name w
