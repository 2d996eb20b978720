-- ===== src/Hello/Sharing/Invariant.antt =====
-- What holds while processes share hello.c: nobody is inside, or one process is, at a known point of
-- its work.
use learning_kernel.Prelude.{
  ℕ, zero, suc, ◌≡◌, ◌⊎◌, refl, ap, true, false, List, [], ◌∷◌, ◌++◌, none, some, length, take,
  arith, if◌then◌else◌, ◌==◌,
}
use learning_kernel.Hello.Sharing.{
  Request, reads, shows, nothing, writes, stores, Pc, idle, waiting, reading, showing, writing,
  storing, leaving, Access, read, wrote, System, byte_at, set_byte, overlay, put, enter, down,
  critical,
}

-- What `val` is after the accesses, one after the other.
abbrev pub replay : List ℕ → List Access → List ℕ
replay initial [] = initial
replay initial (read bytes ∷ before) = replay initial before
replay initial (wrote bytes ∷ before) = overlay bytes (replay initial before)

-- Every read delivered the value that the accesses before it make, whole.
abbrev pub IsSerial : List ℕ → List Access → Type 0
IsSerial initial [] = Unit {0}
IsSerial initial (read bytes ∷ before) = (bytes ≡ replay initial before) × IsSerial initial before
IsSerial initial (wrote bytes ∷ before) = IsSerial initial before

-- How the holder's work stands: the value, and what it was before.
abbrev pub Working : Pc → List ℕ → List ℕ → Type 0
Working idle val base = ⊥
Working (waiting r) val base = ⊥
Working (reading n got) val base = (got ≡ take n val) × (val ≡ base)
Working (writing done todo) val base = val ≡ overlay done base
Working showing val base = val ≡ base
Working (storing bytes) val base = val ≡ base
Working leaving val base = val ≡ base

pub record Free (initial : List ℕ) (s : System) : Type 0 where
  pub open_sem : s.sem ≡ 1
  pub outside : (j : ℕ) → critical (s.threads j) ≡ false
  pub value : s.val ≡ replay initial s.history
  pub serial : IsSerial initial s.history

pub record Held (initial : List ℕ) (o : ℕ) (s : System) : Type 0 where
  pub closed_sem : s.sem ≡ 0
  pub outside : (j : ℕ) → (o ≡ j) ⊎ (critical (s.threads j) ≡ false)
  pub working : Working (s.threads o) s.val (replay initial s.history)
  pub serial : IsSerial initial s.history

abbrev pub Inv : List ℕ → System → Type 0
Inv initial s = Free initial s ⊎ ((o : ℕ) × Held initial o s)

pub byte_at-take :
    (n : ℕ) (b : ℕ) (bytes : List ℕ)
    → byte_at n bytes ≡ some b
    → take n bytes ++ b ∷ [] ≡ take (suc n) bytes
byte_at-take n b [] e = absurd (ground arith)
byte_at-take zero b (c ∷ bytes) e = ground arith
byte_at-take (suc n) b (c ∷ bytes) e = ap (◌∷◌ c) (byte_at-take n b bytes e)

pub byte_at-end : (n : ℕ) (bytes : List ℕ) → byte_at n bytes ≡ none → take n bytes ≡ bytes
byte_at-end zero [] e = refl
byte_at-end (suc n) [] e = refl
byte_at-end zero (c ∷ bytes) e = absurd (ground arith)
byte_at-end (suc n) (c ∷ bytes) e = ap (◌∷◌ c) (byte_at-end n bytes e)

pub overlay-set_byte :
    (done : List ℕ) (b : ℕ) (base : List ℕ)
    → set_byte (length done) b (overlay done base) ≡ overlay (done ++ b ∷ []) base
overlay-set_byte [] b [] = refl
overlay-set_byte [] b (o ∷ base) = refl
overlay-set_byte (d ∷ done) b [] = refl
overlay-set_byte (d ∷ done) b (o ∷ base) = ap (◌∷◌ d) (overlay-set_byte done b base)

pub put-outside :
    (i : ℕ) (pc : Pc) (s : System) (j : ℕ)
    → critical pc ≡ false
    → critical (s.threads j) ≡ false
    → critical ((put i pc s).threads j) ≡ false
put-outside i pc s j p h = ground arith

pub put-holder :
    (o : ℕ) (pc : Pc) (s : System) (j : ℕ)
    → (o ≡ j) ⊎ (critical (s.threads j) ≡ false)
    → (o ≡ j) ⊎ (critical ((put o pc s).threads j) ≡ false)
put-holder o pc s j h = ground arith

pub at_self : (i : ℕ) (x y : Pc) → (if i == i then x else y) ≡ x
at_self i x y = ground arith

pub entered : (r : Request) (val base : List ℕ) → val ≡ base → Working (enter r) val base
unfolding enter
entered reads val base e = (refl, e)
entered shows val base e = e
entered nothing val base e = e
entered (writes user) val base e = e
entered (stores bytes) val base e = e

pub Working-critical : (pc : Pc) (val base : List ℕ) → Working pc val base → critical pc ≡ true
Working-critical idle val base w = absurd w
Working-critical (waiting r) val base w = absurd w
Working-critical (reading n got) val base w = refl
Working-critical showing val base w = refl
Working-critical (writing done todo) val base w = refl
Working-critical (storing bytes) val base w = refl
Working-critical leaving val base w = refl

-- At 0 the semaphore lets nobody in.
pub down-zero : (i : ℕ) (r : Request) (n : ℕ) (s : System) → n ≡ 0 → down i r n s ≡ s
unfolding down
down-zero i r zero s e = refl
down-zero i r (suc n) s e = absurd (omega arith)
