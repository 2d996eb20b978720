-- ===== src/Mmio/Pins/Session.antt =====
-- The LED's device as its user sees it: the set-up, and then one write after the other.
use learning_kernel.Prelude.{ℕ, ◌≤◌, ◌<◌, ◌^◌, List, [], ◌∷◌, some, ◌≡◌, arith}
use learning_kernel.Kernel.Calls
use learning_kernel.Kernel.Calls.{Kernel, Event}
use learning_kernel.Kernel.Run.{World, call_number}
use learning_kernel.Mmio.{led_write, init_registers, set}
use learning_kernel.Mmio.Pins.{
  Lamp, dark, obey, obeys, level, pin, ReadsZero, switch-obey, init_registers-dark,
}

module _ (k : Kernel) {S : Type 0} (size : ℕ) (strtoul : List ℕ → ℕ) where
  -- The number in the buffer that a write obeys.
  abbrev pub command : ℕ → World S → ℕ
  command cnt w =
      strtoul
        (k.bytes (call_number k (Calls.copy_into size cnt) w).1.log (Calls.copy_into size cnt))

  -- Writes of the given counts.
  pub session : List ℕ → World S → World S
  session [] w = w
  session (cnt ∷ cnts) w = session cnts (led_write k size strtoul cnt w).1

  pub commands : List ℕ → World S → List ℕ
  commands [] w = []
  commands (cnt ∷ cnts) w = command cnt w ∷ commands cnts (led_write k size strtoul cnt w).1

-- A copy leaves out at most the bytes that it is asked for.
abbrev pub LeavesAtMost : Kernel → ℕ → Type 0
LeavesAtMost k size = (log : List Event) (n : ℕ) → k.number log (Calls.copy_into size n) ≤ n

-- No write is longer than the buffer.
abbrev pub AllFit : ℕ → List ℕ → Type 0
AllFit size [] = Unit {0}
AllFit size (cnt ∷ cnts) = (cnt ≤ size) × AllFit size cnts

module _ (k : Kernel) {S : Type 0} (size : ℕ) (strtoul : List ℕ → ℕ) (zeroes : ReadsZero k)
    (leaves : LeavesAtMost k size) (small : size < 2 ^ 31) where
  write-obey :
      (cnt : ℕ) (lamp : Lamp) (w : World S)
      → cnt ≤ size
      → pin 0 w.log ≡ some (level lamp)
      → pin 0 (led_write k size strtoul cnt w).1.log
        ≡ some (level (obey (command k size strtoul cnt w) lamp))
  unfolding led_write obey
  write-obey cnt lamp w fit h =
      let copied = call_number k (Calls.copy_into size cnt) w in
      let text = k.bytes copied.1.log (Calls.copy_into size cnt) in
      ground (arith, leaves w.log cnt, switch-obey k zeroes strtoul text lamp copied.1 h)

  session-obeys :
      (cnts : List ℕ) (lamp : Lamp) (w : World S)
      → AllFit size cnts
      → pin 0 w.log ≡ some (level lamp)
      → pin 0 (session k size strtoul cnts w).log
        ≡ some (level (obeys (commands k size strtoul cnts w) lamp))
  unfolding session commands obeys
  session-obeys [] lamp w fit h = h
  session-obeys (cnt ∷ cnts) lamp w fit h =
      session-obeys cnts (obey (command k size strtoul cnt w) lamp)
        (led_write k size strtoul cnt w).1 fit.1 (write-obey cnt lamp w fit.0 h)

  -- With BSRR reading as zero: after the set-up of led.c and leddriver.c and any sequence of writes
  -- that are no longer than the driver's buffer (of less than 2 GB), the level of PI0 is the one of
  -- an abstract lamp that was dark at first and has obeyed the number in the buffer at every write,
  -- 1 (lit) and 0 (dark), and ignored all other numbers. That holds for a write whose copy fails,
  -- too: copy_from_user then returns how many bytes are left out, which is no negative int, and the
  -- driver obeys what the buffer holds.
  pub session-lamp :
      (cnts : List ℕ) (w : World S)
      → AllFit size cnts
      → let ready = (init_registers k (set 0x1) w).1 in
        pin 0 (session k size strtoul cnts ready).log
        ≡ some (level (obeys (commands k size strtoul cnts ready) dark))
  session-lamp cnts w fit =
      session-obeys cnts dark (init_registers k (set 0x1) w).1 fit (init_registers-dark k zeroes w)
