-- ===== src/Prelude/Bits.antt =====
-- What `&` with a mask of low bits and `|` below a shift compute, for the drivers that decode
-- registers and messages of bytes.
use Prim.Native.Nat.{
  ℕ, zero, suc, ◌+◌, ◌-◌, ◌*◌, ◌/◌, ◌%◌, ◌^◌, ◌≤◌, ◌<◌, min, max, digits, bit_and-bitwise,
  bit_or-bitwise,
}
use mathlib.Core.Path.{◌≡◌, refl, ap, ◌∙◌}
use native.Mathlib.Nat.{mul_assoc}
use native.Mathlib.Omega.{arith}
pub use Prim.Native.Nat.{bit_and, bit_or}

module _ (z : ℕ → ℕ) (f : ℕ → ℕ → ℕ) where
  one_more : (n a b : ℕ) → a ≤ n → digits z f (suc n) a b ≡ digits z f n a b
  one_more zero zero b h = refl
  one_more zero (suc a) b h = absurd (omega arith)
  one_more (suc n) zero b h = refl
  one_more (suc n) (suc a) b h = rw (one_more n (suc a / 2) (b / 2) (omega arith))

  spare : (d a b : ℕ) → digits z f (d + a) a b ≡ digits z f a a b
  spare zero a b = rw zero_plus
    where
      zero_plus : zero + a ≡ a
      zero_plus = omega arith
  spare (suc d) a b = rw suc_plus (one_more (d + a) a b (omega arith) ∙ spare d a b)
    where
      suc_plus : suc d + a ≡ suc (d + a)
      suc_plus = omega arith

  halved : (a b : ℕ) → digits z f a (suc a / 2) b ≡ digits z f (suc a / 2) (suc a / 2) b
  halved a b = ap (λ m. digits z f m (suc a / 2) b) split ∙ spare (a - suc a / 2) (suc a / 2) b
    where
      split : a ≡ a - suc a / 2 + suc a / 2
      split = omega arith

and_digit : (a b : ℕ) → bit_and a b ≡ bit_and (a / 2) (b / 2) * 2 + min (a % 2) (b % 2)
and_digit zero b = simp bit_and-bitwise (omega arith)
and_digit (suc a) b = simp bit_and-bitwise (omega (arith, halved (λ y. 0) min a (b / 2)))

or_digit : (a b : ℕ) → bit_or a b ≡ bit_or (a / 2) (b / 2) * 2 + max (a % 2) (b % 2)
or_digit zero b = simp bit_or-bitwise (omega arith)
or_digit (suc a) b = simp bit_or-bitwise (omega (arith, halved (λ y. y) max a (b / 2)))

and_zero : (n a : ℕ) → a ≤ n → bit_and a 0 ≡ 0
and_zero n zero h = refl
and_zero zero (suc a) h = absurd (omega arith)
and_zero (suc n) (suc a) h =
    omega (arith, and_digit (suc a) 0, and_zero n (suc a / 2) (omega arith))

or_zero : (n a : ℕ) → a ≤ n → bit_or a 0 ≡ a
or_zero n zero h = refl
or_zero zero (suc a) h = absurd (omega arith)
or_zero (suc n) (suc a) h = omega (arith, or_digit (suc a) 0, or_zero n (suc a / 2) (omega arith))

-- 2 ^ k, by recursion.
abbrev pub pow2 : ℕ → ℕ
pow2 zero = 1
pow2 (suc k) = pow2 k * 2

pow2_pos : (k : ℕ) → 1 ≤ pow2 k
pow2_pos zero = omega arith
pow2_pos (suc k) = omega (arith, pow2_pos k)

-- A mask of as many bits as a word has changes nothing.
pub and_ones : (k a : ℕ) → a < pow2 k → bit_and a (pow2 k - 1) ≡ a
and_ones zero a h = and_zero a a (omega arith) ∙ none
  where
    none : 0 ≡ a
    none = omega arith
and_ones (suc k) a h = omega (
  arith,
  pow2_pos k,
  and_digit a (pow2 k * 2 - 1),
  ap (bit_and (a / 2)) half,
  and_ones k (a / 2) (omega arith),
)
  where
    half : (pow2 k * 2 - 1) / 2 ≡ pow2 k - 1
    half = omega (arith, pow2_pos k)

half_above : (h p l : ℕ) → (h * (p * 2) + l) / 2 ≡ h * p + l / 2
half_above h p l = omega (arith, mul_assoc h p 2)

parity_above : (h p l : ℕ) → (h * (p * 2) + l) % 2 ≡ l % 2
parity_above h p l = omega (arith, mul_assoc h p 2)

none_below : (h l : ℕ) → l < 1 → h * 1 + l ≡ h
none_below h l b = omega arith

-- `&` and `|` work apart on the bits above and below a place.
module _ (f : ℕ → ℕ → ℕ) (g : ℕ → ℕ → ℕ) (none : f 0 0 ≡ 0)
    (digit : (a b : ℕ) → f a b ≡ f (a / 2) (b / 2) * 2 + g (a % 2) (b % 2)) where
  split_at :
      (k h l m n : ℕ)
      → l < pow2 k
      → n < pow2 k
      → f (h * pow2 k + l) (m * pow2 k + n) ≡ f h m * pow2 k + f l n
  split_at zero h l m n p q =
      rw (none_below h l p, none_below m n q, zero_of l p, zero_of n q, none) (omega arith)
    where
      zero_of : (x : ℕ) → x < 1 → x ≡ 0
      zero_of x b = omega arith
  split_at (suc k) h l m n p q =
      rw
        (
          digit (h * (pow2 k * 2) + l) (m * (pow2 k * 2) + n),
          half_above h (pow2 k) l,
          half_above m (pow2 k) n,
          parity_above h (pow2 k) l,
          parity_above m (pow2 k) n,
          split_at k h (l / 2) m (n / 2) (omega arith) (omega arith),
        )
        (omega (arith, digit l n, mul_assoc (f h m) (pow2 k) 2))

pub and_split :
    (k h l m n : ℕ)
    → l < pow2 k
    → n < pow2 k
    → bit_and (h * pow2 k + l) (m * pow2 k + n) ≡ bit_and h m * pow2 k + bit_and l n
and_split = split_at bit_and min refl and_digit

pub or_split :
    (k h l m n : ℕ)
    → l < pow2 k
    → n < pow2 k
    → bit_or (h * pow2 k + l) (m * pow2 k + n) ≡ bit_or h m * pow2 k + bit_or l n
or_split = split_at bit_or max refl or_digit

zero_or : (n a : ℕ) → a ≤ n → bit_or 0 a ≡ a
zero_or n zero h = refl
zero_or zero (suc a) h = absurd (omega arith)
zero_or (suc n) (suc a) h = omega (arith, or_digit 0 (suc a), zero_or n (suc a / 2) (omega arith))

-- A mask of the `k` low bits, for a number that is split there.
pub mask : (k a h l : ℕ) → a ≡ h * pow2 k + l → l < pow2 k → bit_and a (pow2 k - 1) ≡ l
mask k a h l e b =
    rw (e, split)
      (omega (
        arith,
        and_split k h l 0 (pow2 k - 1) b (omega (arith, pow2_pos k)),
        ap (λ t. t * pow2 k) (and_zero h h (omega arith)),
        and_ones k l b,
      ))
  where
    split : pow2 k - 1 ≡ 0 * pow2 k + (pow2 k - 1)
    split = omega arith

-- Bits below a shift are added.
pub above : (k h l : ℕ) → l < pow2 k → bit_or (h * pow2 k) l ≡ h * pow2 k + l
above k h l b =
    rw (high, low)
      (omega (
        arith,
        or_split k h 0 0 l (omega (arith, pow2_pos k)) b,
        ap (λ t. t * pow2 k) (or_zero h h (omega arith)),
        zero_or l l (omega arith),
      ))
  where
    high : h * pow2 k ≡ h * pow2 k + 0
    high = omega arith

    low : l ≡ 0 * pow2 k + l
    low = omega arith

-- One bit by a mask.
pub bit_at :
    (k a h l : ℕ) → a ≡ h * pow2 k + l → l < pow2 k → bit_and a (1 * pow2 k + 0) ≡ h % 2 * pow2 k
bit_at k a h l e b = rw e (
    omega (
      arith,
      and_split k h l 1 0 b (omega (arith, pow2_pos k)),
      ap (λ t. t * pow2 k) (mask 1 h (h / 2) (h % 2) (omega arith) (omega arith)),
      and_zero l l (omega arith),
    ))

-- The masks and the bit that the drivers use.
pub mask2 : (a : ℕ) → bit_and a 0x3 ≡ a % 2 ^ 2
mask2 a = mask 2 a (a / 2 ^ 2) (a % 2 ^ 2) (omega arith) (omega arith)

pub mask4 : (a : ℕ) → bit_and a 0xF ≡ a % 2 ^ 4
mask4 a = mask 4 a (a / 2 ^ 4) (a % 2 ^ 4) (omega arith) (omega arith)

pub mask6 : (a : ℕ) → bit_and a 0x3F ≡ a % 2 ^ 6
mask6 a = mask 6 a (a / 2 ^ 6) (a % 2 ^ 6) (omega arith) (omega arith)

pub mask12 : (a : ℕ) → bit_and a 0xFFF ≡ a % 2 ^ 12
mask12 a = mask 12 a (a / 2 ^ 12) (a % 2 ^ 12) (omega arith) (omega arith)

pub bit6 : (a : ℕ) → bit_and a (2 ^ 6) ≡ a / 2 ^ 6 % 2 * 2 ^ 6
bit6 a = bit_at 6 a (a / 2 ^ 6) (a % 2 ^ 6) (omega arith) (omega arith)

pub and_none : (a : ℕ) → bit_and a 0 ≡ 0
and_none a = and_zero a a (omega arith)

pub or_none : (a : ℕ) → bit_or a 0 ≡ a
or_none a = or_zero a a (omega arith)
