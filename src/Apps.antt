-- ===== src/Apps.antt =====
-- The user space test programs of openedv/linux/stm32mp157, drivers/chrdev/tests and
-- drivers/helloDev/tests. This file has what the four programs that read a key share; the children
-- have the programs.
pub mod Keys
pub mod Blinking
pub mod Sensing
pub mod Testdriver
pub mod HelloTest
mod Examples
use learning_kernel.Prelude.{
  ℕ, ℤ, pos, Bool, not, Option, none, some, List, [], ◌∷◌, is_neg, eqb_ℤ, ◌==◌, if◌then◌else◌,
}
use learning_kernel.Kernel.Calls.{Event}
use learning_kernel.Kernel.Errno.{efault}
use learning_kernel.Kernel.Run.{World, M}
use learning_kernel.Kernel.Lines.{last_copy}

-- A line that a program prints.
pub data Line : Type 0 where
  usage open_failed press release : Line

-- What a program prints for a value of `key_val`, before what it has printed so far.
abbrev pub spoken : ℤ → List Line → List Line
spoken v out =
    if eqb_ℤ (pos 0) v then press ∷ out else if eqb_ℤ (pos 1) v then release ∷ out else out

-- The variable `key_val` and the lines printed, newest first.
pub record User : Type 0 where
  pub key_val : ℤ
  pub out : List Line

-- A program has ended with a status, or it is in its endless loop, with what it has
-- done so far.
pub data Outcome (A : Type 0) : Type 0 where
  exited : ℕ → List Line → Outcome A
  running : A → Outcome A

abbrev copied_or : ℤ → Option ℤ → ℤ
copied_or old none = old
copied_or old (some v) = v

-- read(fd, &key_val, sizeof(int)): the new value of the variable, which is the int copied if the
-- read returns its size, and the old one if no copy was tried. What a copy that failed leaves in it
-- is any int, `torn`.
abbrev pub read_int : {S : Type 0} → (List Event → ℤ → ℤ) → M S ℤ → ℤ → M S ℤ
read_int torn read old w =
    let r = read w in
    (
      if eqb_ℤ r.0 (pos 4)
          then copied_or old (last_copy r.1.log)
          else if eqb_ℤ r.0 efault
          then torn r.1.log old
          else old,
      r.1,
    )

-- The way into the loop: the number of arguments and the result of `open` are checked. A program
-- that returns -1 exits with 255.
abbrev pub started : {A : Type 0} → ℕ → ℤ → A → Outcome A
started argc fd run =
    if not (argc == 2)
    then Outcome.exited 255 (usage ∷ [])
    else if is_neg fd
    then Outcome.exited 255 (open_failed ∷ [])
    else Outcome.running run
