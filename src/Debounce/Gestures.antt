-- ===== src/Debounce/Gestures.antt =====
-- A key that bounces is sampled once for each gesture, when the line has settled: for every driver
-- whose three functions keep the laws of `Samples`.
use learning_kernel.Prelude.{
  ℕ, zero, suc, ◌-◌, ◌<◌, ◌≤◌, ℤ, Bool, true, ◌&&◌, List, [], ◌∷◌, ◌++◌, map, Option, none, some,
  ltb, replicate, ◌≡◌, refl, ap, ◌∙◌, arith,
}
use native.Mathlib.Decide.{dec_lt}
use learning_kernel.Kernel.Calls.{Kernel}
use learning_kernel.Kernel.Run.{World}
use learning_kernel.Debounce.{
  Handlers, Input, edge, tick, Line, wired, asks_tasklet, armed, raise, expire, pass, step, run,
}

-- msecs_to_jiffies(15)
abbrev pub debounce : (ℕ → ℕ) → ℕ
debounce msecs_to_jiffies = msecs_to_jiffies 15

-- The first edge, what the line does until it has settled, and the ticks that then pass.
pub record Gesture : Type 0 where
  pub first : ℤ
  pub bounce : List Input
  pub rest : ℕ

-- With `n` ticks left, and `d` again from each edge on, the timer never runs down.
abbrev pub is_brisk : ℕ → ℕ → List Input → Bool
is_brisk d n [] = true
is_brisk d n (edge level ∷ is) = is_brisk d d is
is_brisk d n (tick ∷ is) = ltb 1 n && is_brisk d (n - 1) is

abbrev pub last_level : ℤ → List Input → ℤ
last_level level [] = level
last_level level (edge other ∷ is) = last_level other is
last_level level (tick ∷ is) = last_level level is

abbrev pub settles_at : Gesture → ℤ
settles_at g = last_level g.first g.bounce

-- Between two edges of the bounce pass fewer than `d` ticks, and after it at least `d`.
pub record IsSettled (d : ℕ) (g : Gesture) : Type 0 where
  pub brisk : is_brisk d d g.bounce ≡ true
  pub quiet : d ≤ g.rest

abbrev pub AllSettled : ℕ → List Gesture → Type 0
AllSettled d [] = Unit {0}
AllSettled d (g ∷ gs) = IsSettled d g × AllSettled d gs

abbrev pub course : Gesture → List Input
course g = edge g.first ∷ (g.bounce ++ replicate g.rest tick)

abbrev pub inputs : List Gesture → List Input
inputs [] = []
inputs (g ∷ gs) = course g ++ inputs gs

module _ {V : Type 0} (sample : ℤ → V → V) where
  -- One sample of each level.
  abbrev pub samples : List ℤ → V → V
  samples [] v = v
  samples (level ∷ levels) v = samples levels (sample level v)

-- What the three functions do to a view of the driver: only the timer's changes it, by a sample of
-- the line; the interrupt asks for the tasklet, and the tasklet for 15 ms, whatever ticks these are.
pub record Samples {S V : Type 0} (see : World S → V) (sample : ℤ → V → V)
    (handlers : Kernel → Handlers S) : Type 0 where
  pub interrupt_keeps : (k : Kernel) (w : World S) → see ((handlers k).interrupt w).1 ≡ see w
  pub interrupt_asks :
      (k : Kernel) (w : World S) → asks_tasklet ((handlers k).interrupt w).1.log ≡ true
  pub tasklet_keeps : (k : Kernel) (w : World S) → see ((handlers k).tasklet w).1 ≡ see w
  pub tasklet_arms :
      (msecs_to_jiffies : ℕ → ℕ) (k : Kernel) (w : World S) (old : Option ℕ)
      → armed msecs_to_jiffies old ((handlers k).tasklet w).1.log ≡ some (debounce msecs_to_jiffies)
  pub timer_samples :
      (k : Kernel) (level : ℤ) (w : World S)
      → see ((handlers (wired k level)).timer w).1 ≡ sample level (see w)
  pub timer_ends :
      (msecs_to_jiffies : ℕ → ℕ) (k : Kernel) (level : ℤ) (w : World S)
      → armed msecs_to_jiffies none ((handlers (wired k level)).timer w).1.log ≡ none

-- What the timer has left after the bounce.
remaining : ℕ → ℕ → List Input → ℕ
remaining d n [] = n
remaining d n (edge level ∷ is) = remaining d d is
remaining d n (tick ∷ is) = remaining d (n - 1) is

remaining_bounds :
    (d : ℕ) (is : List Input) (n : ℕ)
    → 0 < d
    → 0 < n
    → n ≤ d
    → is_brisk d n is ≡ true
    → (0 < remaining d n is) × (remaining d n is ≤ d)
unfolding remaining
remaining_bounds d [] n z p q b = (p, q)
remaining_bounds d (edge level ∷ is) n z p q b = remaining_bounds d is d z z (omega arith) b
remaining_bounds d (tick ∷ is) n z p q b = ground (arith, remaining_bounds d is (n - 1))

module _ {S V : Type 0} (see : World S → V) (sample : ℤ → V → V) (handlers : Kernel → Handlers S)
    (laws : Samples see sample handlers) (k : Kernel) (msecs_to_jiffies : ℕ → ℕ)
    (due : 0 < debounce msecs_to_jiffies) where
  abbrev d : ℕ
  d = debounce msecs_to_jiffies

  -- The line is at this level, the timer has so much left, and the view is this.
  record Is (s : Line S) (level : ℤ) (left : Option ℕ) (view : V) : Type 0 where
    at : s.level ≡ level
    has : s.left ≡ left
    seen : see s.world ≡ view

  raise-Is :
      (level : ℤ) (s : Line S)
      → Is (raise msecs_to_jiffies handlers k level s) level (some d) (see s.world)
  unfolding raise
  raise-Is level s =
      let w = ((handlers (wired k level)).interrupt s.world).1 in
      ground (
        arith,
        laws.interrupt_keeps (wired k level) s.world,
        laws.interrupt_asks (wired k level) s.world,
        laws.tasklet_keeps (wired k level) w,
        laws.tasklet_arms msecs_to_jiffies (wired k level) w s.left,
      )

  expire-Is :
      (s : Line S) (level : ℤ) (left : Option ℕ) (v : V)
      → Is s level left v
      → Is (expire msecs_to_jiffies handlers k s) level none (sample level v)
  unfolding expire
  expire-Is s level left v h = ground (
    arith,
    laws.timer_samples k s.level s.world,
    laws.timer_ends msecs_to_jiffies k s.level s.world,
  )

  run-append :
      (is js : List Input) (s : Line S)
      → run msecs_to_jiffies handlers k (is ++ js) s
        ≡ run msecs_to_jiffies handlers k js (run msecs_to_jiffies handlers k is s)
  unfolding run
  run-append [] js s = refl
  run-append (i ∷ is) js s = run-append is js (step msecs_to_jiffies handlers k i s)

  edge-Is :
      (other : ℤ) (s : Line S) (level : ℤ) (left : Option ℕ) (v : V)
      → Is s level left v
      → Is (step msecs_to_jiffies handlers k (edge other) s) other (some d) v
  unfolding step
  edge-Is other s level left v h = ground (arith, raise-Is other s)

  pass-Is :
      (n : ℕ) (s : Line S) (level : ℤ) (v : V)
      → 1 < n
      → Is s level (some n) v
      → Is (step msecs_to_jiffies handlers k tick s) level (some (n - 1)) v
  unfolding step pass
  pass-Is n s level v p h = rw h.has (ground arith)

  last-Is :
      (n : ℕ) (s : Line S) (level : ℤ) (v : V)
      → n ≤ 1
      → Is s level (some n) v
      → Is (step msecs_to_jiffies handlers k tick s) level none (sample level v)
  unfolding step pass
  last-Is n s level v p h = ground (arith, expire-Is s level (some n) v h)

  stay-Is :
      (s : Line S) (level : ℤ) (v : V)
      → Is s level none v
      → Is (step msecs_to_jiffies handlers k tick s) level none v
  unfolding step pass
  stay-Is s level v h = ground arith

  idle-Is :
      (m : ℕ) (s : Line S) (level : ℤ) (v : V)
      → Is s level none v
      → Is (run msecs_to_jiffies handlers k (replicate m tick) s) level none v
  unfolding run
  idle-Is zero s level v h = h
  idle-Is (suc m) s level v h =
      idle-Is m (step msecs_to_jiffies handlers k tick s) level v (stay-Is s level v h)

  -- While the line bounces the timer keeps running, and nothing is sampled.
  bounce-Is :
      (is : List Input) (n : ℕ) (s : Line S) (level : ℤ) (v : V)
      → is_brisk d n is ≡ true
      → Is s level (some n) v
      → Is (run msecs_to_jiffies handlers k is s) (last_level level is) (some (remaining d n is)) v
  unfolding run remaining
  bounce-Is [] n s level v b h = h
  bounce-Is (edge other ∷ is) n s level v b h =
      bounce-Is is d (step msecs_to_jiffies handlers k (edge other) s) other v b
        (edge-Is other s level (some n) v h)
  bounce-Is (tick ∷ is) n s level v b h =
      bounce-Is is (n - 1) (step msecs_to_jiffies handlers k tick s) level v (ground arith)
        (pass-Is n s level v (ground arith) h)

  -- The line is quiet: the timer runs down and samples once.
  quiet-Is :
      (m n : ℕ) (s : Line S) (level : ℤ) (v : V)
      → 0 < n
      → n ≤ m
      → Is s level (some n) v
      → Is (run msecs_to_jiffies handlers k (replicate m tick) s) level none (sample level v)
  unfolding run
  quiet-Is zero n s level v p q h = absurd (omega arith)
  quiet-Is (suc m) n s level v p q h = elim (dec_lt 1 n) [
    | yes more ↦
        quiet-Is m (n - 1) (step msecs_to_jiffies handlers k tick s) level v (omega arith)
          (omega arith) (pass-Is n s level v more h)
    | no last ↦
        idle-Is m (step msecs_to_jiffies handlers k tick s) level (sample level v)
          (last-Is n s level v (omega arith) h)
  ]

  -- One gesture is one sample, of the level that it settles at.
  gesture-Is :
      (g : Gesture) (s : Line S)
      → IsSettled d g
      → Is
          (run msecs_to_jiffies handlers k (course g) s)
          (settles_at g)
          none
          (sample (settles_at g) (see s.world))
  unfolding run
  gesture-Is g s settled =
      let begun = step msecs_to_jiffies handlers k (edge g.first) s in
      let n = remaining d d g.bounce in
      let left = remaining_bounds d g.bounce d due due (omega arith) settled.brisk in
      let v = see s.world in
      let begun-Is =
        edge-Is g.first s s.level s.left v (record { at = refl; has = refl; seen = refl }) in
      let bounced = bounce-Is g.bounce d begun g.first v settled.brisk begun-Is in
      rw (run-append g.bounce (replicate g.rest tick) begun) (
        quiet-Is g.rest n (run msecs_to_jiffies handlers k g.bounce begun) (settles_at g) v left.0
          (omega arith) bounced)

  pub gesture-samples :
      (g : Gesture) (s : Line S)
      → IsSettled d g
      → see (run msecs_to_jiffies handlers k (course g) s).world
        ≡ sample (settles_at g) (see s.world)
  gesture-samples g s settled = (gesture-Is g s settled).seen

  -- However a key bounces between its gestures, the driver sees one sample of each: of the level at
  -- which the line settles.
  pub gestures-samples :
      (gs : List Gesture) (s : Line S)
      → AllSettled d gs
      → see (run msecs_to_jiffies handlers k (inputs gs) s).world
        ≡ samples sample (map settles_at gs) (see s.world)
  unfolding run
  gestures-samples [] s settled = refl
  gestures-samples (g ∷ gs) s settled =
      let seen = (gesture-Is g s settled.0).seen in
      let s' = run msecs_to_jiffies handlers k (course g) s in
      rw (run-append (course g) (inputs gs) s)
        (gestures-samples gs s' settled.1 ∙ ap (λ v. samples sample (map settles_at gs) v) seen)
