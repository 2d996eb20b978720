-- ===== src/Hello/Sharing/Serial.antt =====
-- The semaphore of hello.c makes every interleaving a serial one.
use learning_kernel.Prelude.{
  ℕ, zero, suc, ◌≡◌, ◌⊎◌, inl, inr, refl, ap, ◌∙◌, false, List, [], ◌∷◌, ◌++◌, Option, none, some,
  length, replicate, arith, if◌then◌else◌, ◌==◌,
}
use learning_kernel.Hello.Sharing.{
  Request, Pc, idle, waiting, reading, showing, writing, storing, leaving, Move, calls, goes,
  signalled, faults, read, wrote, System, byte_at, set_byte, overlay, put, note, enter, down,
  copy_out, copy_in, turn, interleave, critical, quiet,
}
use learning_kernel.Hello.Sharing.Invariant.{
  replay, IsSerial, Working, Free, Held, Inv, byte_at-take, byte_at-end, overlay-set_byte,
  put-outside, put-holder, at_self, entered, Working-critical, down-zero,
}

module _ (initial : List ℕ) where
  -- The semaphore is taken.
  down-Inv :
      (i : ℕ) (r : Request) (n : ℕ) (s : System)
      → s.sem ≡ n
      → Free initial s
      → Inv initial (down i r n s)
  unfolding down enter
  down-Inv i r zero s e h = inl h
  down-Inv i r (suc n) s e h = inr (
    i,
    record {
      closed_sem = ground (arith, h.open_sem);
      outside = λ j. ground (arith, h.outside j);
      working =
          rw (at_self i (enter r) (s.threads i))
            (entered r s.val (replay initial s.history) h.value);
      serial = h.serial;
    },
  )

  turn-Free :
      (i : ℕ) (pc : Pc) (m : Move) (s : System)
      → s.threads i ≡ pc
      → Free initial s
      → Inv initial (turn i pc m s)
  unfolding turn
  turn-Free i idle (calls r) s e h = inl (record {
    open_sem = h.open_sem;
    outside = λ j. put-outside i (waiting r) s j refl (h.outside j);
    value = h.value;
    serial = h.serial;
  })
  turn-Free i idle m s e h = inl h
  turn-Free i (waiting r) goes s e h = down-Inv i r s.sem s refl h
  turn-Free i (waiting r) signalled s e h = inl (record {
    open_sem = h.open_sem;
    outside = λ j. put-outside i idle s j refl (h.outside j);
    value = h.value;
    serial = h.serial;
  })
  turn-Free i (waiting r) m s e h = inl h
  turn-Free i pc m s e h = absurd (ground (arith, e, h.outside i))

  -- The holder goes on inside, with the value that its history makes.
  stays :
      (o : ℕ) (pc : Pc) (s : System)
      → s.sem ≡ 0
      → ((j : ℕ) → (o ≡ j) ⊎ (critical (s.threads j) ≡ false))
      → Working pc s.val (replay initial s.history)
      → IsSerial initial s.history
      → Inv initial (put o pc s)
  stays o pc s c out w serial = inr (
    o,
    record {
      closed_sem = c;
      outside = λ j. put-holder o pc s j (out j);
      working = rw (at_self o pc (s.threads o)) w;
      serial = serial;
    },
  )

  copy_out-Inv :
      (o n : ℕ) (got : List ℕ) (byte : Option ℕ) (s : System)
      → byte_at n s.val ≡ byte
      → Held initial o s
      → Working (reading n got) s.val (replay initial s.history)
      → Inv initial (copy_out o n got byte s)
  unfolding copy_out
  copy_out-Inv o n got none s e h w =
      stays o leaving (note (read got) s) h.closed_sem h.outside w.1
        (w.0 ∙ byte_at-end n s.val e ∙ w.1, h.serial)
  copy_out-Inv o n got (some b) s e h w =
      stays o (reading (suc n) (got ++ b ∷ [])) s h.closed_sem h.outside
        (ap (λ l. l ++ b ∷ []) w.0 ∙ byte_at-take n b s.val e, w.1) h.serial

  copy_in-Inv :
      (o : ℕ) (done todo : List ℕ) (s : System)
      → Held initial o s
      → Working (writing done todo) s.val (replay initial s.history)
      → Inv initial (copy_in o done todo s)
  unfolding copy_in
  copy_in-Inv o done [] s h w =
      stays o leaving (note (wrote done) s) h.closed_sem h.outside w h.serial
  copy_in-Inv o done (b ∷ todo) s h w =
      stays o (writing (done ++ b ∷ []) todo) (record s { val = set_byte (length done) b s.val })
        h.closed_sem h.outside
        (ap (set_byte (length done) b) w ∙ overlay-set_byte done b (replay initial s.history))
        h.serial

  turn-Holder :
      (o : ℕ) (pc : Pc) (m : Move) (s : System)
      → s.threads o ≡ pc
      → Held initial o s
      → Working pc s.val (replay initial s.history)
      → Inv initial (turn o pc m s)
  unfolding turn
  turn-Holder o idle m s e h w = absurd w
  turn-Holder o (waiting r) m s e h w = absurd w
  turn-Holder o (reading n got) goes s e h w = copy_out-Inv o n got (byte_at n s.val) s refl h w
  turn-Holder o (reading n got) faults s e h w =
      stays o leaving s h.closed_sem h.outside w.1 h.serial
  turn-Holder o (reading n got) m s e h w = inr (o, h)
  turn-Holder o showing goes s e h w =
      stays o leaving (note (read s.val) s) h.closed_sem h.outside w (w, h.serial)
  turn-Holder o showing m s e h w = inr (o, h)
  turn-Holder o (writing done todo) goes s e h w = copy_in-Inv o done todo s h w
  turn-Holder o (writing done todo) faults s e h w =
      stays o (writing done (replicate (length todo) 0)) s h.closed_sem h.outside w h.serial
  turn-Holder o (writing done todo) m s e h w = inr (o, h)
  turn-Holder o (storing bytes) goes s e h w =
      stays o leaving (note (wrote bytes) (record s { val = overlay bytes s.val })) h.closed_sem
        h.outside (ap (overlay bytes) w) h.serial
  turn-Holder o (storing bytes) m s e h w = inr (o, h)
  turn-Holder o leaving goes s e h w = inl (record {
    open_sem = omega (arith, h.closed_sem);
    outside = λ j. ground (arith, h.outside j);
    value = w;
    serial = h.serial;
  })
  turn-Holder o leaving m s e h w = inr (o, h)

  -- A process that does not hold the semaphore.
  keeps :
      (o i : ℕ) (pc : Pc) (s : System)
      → critical pc ≡ false
      → critical (s.threads i) ≡ false
      → Held initial o s
      → Inv initial (put i pc s)
  keeps o i pc s p q h =
      let inside = Working-critical (s.threads o) s.val (replay initial s.history) h.working in
      let same : (if i == o then pc else s.threads o) ≡ s.threads o = ground (arith, inside, q) in
      inr (
        o,
        record {
          closed_sem = h.closed_sem;
          outside = λ j. ground (arith, p, h.outside j);
          working = rw same h.working;
          serial = h.serial;
        },
      )

  turn-Other :
      (o i : ℕ) (pc : Pc) (m : Move) (s : System)
      → s.threads i ≡ pc
      → critical pc ≡ false
      → Held initial o s
      → Inv initial (turn i pc m s)
  unfolding turn
  turn-Other o i idle (calls r) s e c h = keeps o i (waiting r) s refl (ground arith) h
  turn-Other o i idle m s e c h = inr (o, h)
  turn-Other o i (waiting r) goes s e c h = rw (down-zero i r s.sem s h.closed_sem) (inr (o, h))
  turn-Other o i (waiting r) signalled s e c h = keeps o i idle s refl (ground arith) h
  turn-Other o i (waiting r) m s e c h = inr (o, h)
  turn-Other o i pc m s e c h = absurd (ground arith)

  turn-Inv :
      (i : ℕ) (m : Move) (s : System) → Inv initial s → Inv initial (turn i (s.threads i) m s)
  turn-Inv i m s (inl h) = turn-Free i (s.threads i) m s refl h
  turn-Inv i m s (inr (o, h)) = elim (h.outside i) [
    | inl e ↦ rw (← e) (turn-Holder o (s.threads o) m s refl h h.working)
    | inr c ↦ turn-Other o i (s.threads i) m s refl c h
  ]

  interleave-Inv :
      (moves : List (ℕ × Move)) (s : System) → Inv initial s → Inv initial (interleave moves s)
  unfolding interleave
  interleave-Inv [] s h = h
  interleave-Inv ((i, m) ∷ rest) s h =
      interleave-Inv rest (turn i (s.threads i) m s) (turn-Inv i m s h)

  alone :
      (s : System) (i j : ℕ)
      → Inv initial s
      → (critical (s.threads i) ≡ false) ⊎ (critical (s.threads j) ≡ false) ⊎ (i ≡ j)
  alone s i j (inl h) = inl (h.outside i)
  alone s i j (inr (o, h)) = ground (arith, h.outside i, h.outside j)

  settled : (s : System) → Inv initial s → (s.sem ≡ 0) ⊎ (s.val ≡ replay initial s.history)
  settled s (inl h) = inr h.value
  settled s (inr (o, h)) = inl h.closed_sem

  quiet-Inv : Inv initial (quiet initial)
  quiet-Inv = inl (record { open_sem = refl; outside = λ j. refl; value = refl; serial = tt })

  Inv-IsSerial : (s : System) → Inv initial s → IsSerial initial s.history
  Inv-IsSerial s (inl h) = h.serial
  Inv-IsSerial s (inr (o, h)) = h.serial

-- However the moves of any number of processes interleave, from a quiet system on, and whatever
-- copies fault (a write whose copy faults stores zeros for the rest of its bytes) and waits are
-- ended by signals: the accesses to `val` are serial, so that every read
-- that completes delivers exactly what the writes before it have left, never a value of which
-- another process has copied only some bytes; no two processes are between `down_interruptible` and
-- `up` at once; and unless the semaphore is taken, `val` is what the accesses make of it.
pub interleave-IsSerial :
    (initial : List ℕ) (moves : List (ℕ × Move)) (i j : ℕ)
    → let s = interleave moves (quiet initial) in
      IsSerial initial s.history
      × ((critical (s.threads i) ≡ false) ⊎ (critical (s.threads j) ≡ false) ⊎ (i ≡ j))
      × ((s.sem ≡ 0) ⊎ (s.val ≡ replay initial s.history))
interleave-IsSerial initial moves i j =
    let s = interleave moves (quiet initial) in
    let sound = interleave-Inv initial moves (quiet initial) (quiet-Inv initial) in
    (Inv-IsSerial initial s sound, alone initial s i j sound, settled initial s sound)
