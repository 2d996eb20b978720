-- ===== src/Kernel/Uaccess.antt =====
-- copy_to_user and copy_from_user, which are no part of the repository: a parameter with their
-- documented behaviour. Bytes are numbers.
use Prim.Native.Nat.{zero-le}
use native.Mathlib.Nat.{sub-le}
use learning_kernel.Prelude.{
  ℕ, zero, suc, ◌-◌, ◌≤◌, ◌≡◌, refl, sym, ap, ◌∙◌, take_self, List, [], ◌∷◌, length, take, arith,
}

-- `to_left src` bytes of a copy of `src` to the user are left out. A copy of `n` bytes of the
-- user's `data` leaves `got data n` in the kernel's buffer, and `from_left data n` bytes are not
-- the user's.
pub record Uaccess : Type 0 where
  pub to_left : List ℕ → ℕ
  pub to_left_le : (src : List ℕ) → to_left src ≤ length src
  pub got : List ℕ → ℕ → List ℕ
  pub from_left : List ℕ → ℕ → ℕ
  pub length_got : (user : List ℕ) (n : ℕ) → length (got user n) ≡ n
  pub from_left_le : (user : List ℕ) (n : ℕ) → from_left user n ≤ n
  pub got_prefix :
      (user : List ℕ) (n : ℕ)
      → take (n - from_left user n) (got user n) ≡ take (n - from_left user n) user

-- What a write of all of `user` puts into the buffer, when the copy succeeds.
pub got-all :
    (u : Uaccess) (user : List ℕ)
    → u.from_left user (length user) ≡ 0
    → u.got user (length user) ≡ user
got-all u user h =
    let n = length user in
    let g = u.got user n in
    sym (take_self (n - u.from_left user n) g (omega (arith, u.length_got user n)))
    ∙ u.got_prefix user n
    ∙ take_self (n - u.from_left user n) user (omega arith)

-- The first `n` bytes, filled up with zeros.
abbrev pub pad : ℕ → List ℕ → List ℕ
pad zero xs = []
pad (suc n) [] = 0 ∷ pad n []
pad (suc n) (x ∷ xs) = x ∷ pad n xs

pub length-pad : (n : ℕ) (xs : List ℕ) → length (pad n xs) ≡ n
length-pad zero xs = refl
length-pad (suc n) [] = omega (arith, length-pad n [])
length-pad (suc n) (x ∷ xs) = omega (arith, length-pad n xs)

pub take-pad : (n m : ℕ) (xs : List ℕ) → m ≤ n → m ≤ length xs → take m (pad n xs) ≡ take m xs
take-pad n zero xs h l = refl
take-pad zero (suc m) xs h l = absurd (omega arith)
take-pad (suc n) (suc m) [] h l = absurd (omega arith)
take-pad (suc n) (suc m) (x ∷ xs) h l = ap (◌∷◌ x) (take-pad n m xs (omega arith) (omega arith))

-- Every mapped byte is copied, and a buffer that is too short is filled up.
abbrev pub plain : Uaccess
plain = record {
  to_left = λ src. 0;
  to_left_le = λ src. zero-le;
  got = λ user n. pad n user;
  from_left = λ user n. n - length user;
  length_got = λ user n. length-pad n user;
  from_left_le = λ user n. sub-le n (length user);
  got_prefix = λ user n. take-pad n (n - (n - length user)) user (sub-le n _) (omega arith);
}
