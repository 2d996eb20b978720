-- ===== src/Apps/Keys/Hearing.antt =====
-- What the loop of a program that reads a key prints, for a driver that samples the line and a read
-- that hands the driver's event over.
use learning_kernel.Prelude.{ℕ, zero, suc, ◌≤◌, ℤ, true, List, [], ◌∷◌, ◌≡◌, arith, pos}
use learning_kernel.Kernel.Calls
use learning_kernel.Kernel.Calls.{Event, Kernel}
use learning_kernel.Kernel.Run.{World, M}
use learning_kernel.Apps.{Line, User}
use learning_kernel.Apps.Keys.{Round, ticks, read_and_print, key_loop}
use learning_kernel.Apps.Keys.Changes.{Hears, Sampler, tick-Hears}
use learning_kernel.IrqKeys.{KeyDev, code, is_none, hand_over}

-- The program has printed all changes of the line, and the driver has no event left.
abbrev pub Caught : ℤ → List Line → World KeyDev → Type 0
Caught first out w = Hears first out w × (is_none w.dev.status ≡ true)

-- Every copy to the user succeeds.
abbrev pub Copies : Kernel → Type 0
Copies k = (log : List Event) (v : ℤ) → k.number log (Calls.copy_to_user v) ≡ 0

-- A read of the driver and the print after it catch up with the line.
abbrev pub Catches : (List Event → ℤ → ℤ) → ℤ → M KeyDev ℤ → Type 0
Catches torn first read =
    (u : User) (w : World KeyDev)
    → Hears first u.out w
    → Caught first (read_and_print torn read u w).0.out (read_and_print torn read u w).1

-- At most one sample comes between two reads.
abbrev pub Prompt : List Round → Type 0
Prompt [] = Unit {0}
Prompt (r ∷ rs) = (r.before ≤ 1) × Prompt rs

module _ (k : Kernel) (torn : List Event → ℤ → ℤ) (first : ℤ) (copies : Copies k) where
  pub hand_over-Catches : Catches torn first (hand_over k)
  unfolding hand_over
  hand_over-Catches u w h = ground (
    arith,
    copies (record { call = Calls.spin_lock_irqsave; ret = pos 0; out = 0 } ∷ w.log)
        (code w.dev.status),
  )

module _ (s : Sampler) (torn : List Event → ℤ → ℤ) (first : ℤ) (read : ℕ → M KeyDev ℤ) where
  pub ticks-Hears :
      (n : ℕ) (out : List Line) (w : World KeyDev)
      → n ≤ 1
      → Caught first out w
      → Hears first out (ticks s.tick n w).1
  ticks-Hears zero out w le h = h.0
  ticks-Hears (suc zero) out w le h = tick-Hears s first out w h.1 h.0
  ticks-Hears (suc (suc n)) out w le h = absurd (omega arith)

  pub key_loop-Caught :
      (rs : List Round) (u : User) (w : World KeyDev)
      → ((fires : ℕ) → Catches torn first (read fires))
      → Prompt rs
      → Caught first u.out w
      → Caught first (key_loop torn s.tick read rs u w).0.out (key_loop torn s.tick read rs u w).1
  key_loop-Caught [] u w catches p h = h
  key_loop-Caught (r ∷ rs) u w catches p h =
      let w' = (ticks s.tick r.before w).1 in
      let r' = read_and_print torn (read r.during) u w' in
      key_loop-Caught rs r'.0 r'.1 catches p.1
        (catches r.during u w' (ticks-Hears r.before u.out w p.0 h))
