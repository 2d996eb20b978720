-- ===== src/Apps/Keys/Losing.antt =====
-- What keyirqApp.c prints when the samples of keyirq.c come faster than its reads.
use learning_kernel.Prelude.{ℕ, zero, suc, ℤ, pos, negsuc, List, [], ◌∷◌, ◌≡◌, arith}
use learning_kernel.Kernel.Calls
use learning_kernel.Kernel.Calls.{Event, Kernel}
use learning_kernel.Kernel.Run.{World, M}
use learning_kernel.Apps.{Line, User, Outcome, spoken}
use learning_kernel.Apps.Keys.{Round, ticks, read_and_print, key_loop}
use learning_kernel.Apps.Keys.Changes.{levels, latest, heard}
use learning_kernel.Apps.Keys.Hearing.{Copies}
use learning_kernel.Apps.Keys.Blocking.{keyirq_app, Quiet, line_level}
use learning_kernel.IrqKeys.{KeyDev, code}
use learning_kernel.IrqKeys.Keyirq

-- The first list is the second with some lines left out.
pub data Sublist : List Line → List Line → Type 0 where
  done : Sublist [] []
  left_out : {xs ys : List Line} (l : Line) → Sublist xs ys → Sublist xs (l ∷ ys)
  kept : {xs ys : List Line} (l : Line) → Sublist xs ys → Sublist (l ∷ xs) (l ∷ ys)

shorter : (l : Line) (xs ys : List Line) → Sublist (l ∷ xs) ys → Sublist xs ys
shorter l xs _ (left_out m s) = left_out m (shorter l xs _ s)
shorter l xs _ (kept _ s) = left_out l s

spoken-Sublist : (v : ℤ) (xs ys : List Line) → Sublist xs ys → Sublist (spoken v xs) (spoken v ys)
spoken-Sublist (pos zero) xs ys s = kept Line.press s
spoken-Sublist (pos (suc zero)) xs ys s = kept Line.release s
spoken-Sublist (pos (suc (suc n))) xs ys s = ground arith
spoken-Sublist (negsuc n) xs ys s = s

unspoken-Sublist : (v : ℤ) (xs ys : List Line) → Sublist (spoken v xs) ys → Sublist xs ys
unspoken-Sublist (pos zero) xs ys s = shorter Line.press xs ys s
unspoken-Sublist (pos (suc zero)) xs ys s = shorter Line.release xs ys s
unspoken-Sublist (pos (suc (suc n))) xs ys s = ground arith
unspoken-Sublist (negsuc n) xs ys s = s

-- With the event that the driver still has, the program has printed some of the changes.
abbrev HearsSome : ℤ → List Line → World KeyDev → Type 0
HearsSome first out w =
    Sublist (spoken (code w.dev.status) out) (heard first w)
    × (w.dev.last_value ≡ latest first (levels w.log))

module _ (k : Kernel) (first : ℤ) (out : List Line) where
  tick-HearsSome :
      (w : World KeyDev) → HearsSome first out w → HearsSome first out (Keyirq.timer_function k w).1
  unfolding Keyirq.timer_function
  tick-HearsSome w h =
      let some = unspoken-Sublist (code w.dev.status) out (heard first w) h.0 in
      ground (arith, some, spoken-Sublist (line_level k w) out (heard first w) some)

  ticks-HearsSome :
      (n : ℕ) (w : World KeyDev)
      → HearsSome first out w
      → HearsSome first out (ticks (Keyirq.timer_function k) n w).1
  ticks-HearsSome zero w h = h
  ticks-HearsSome (suc n) w h = ticks-HearsSome n (Keyirq.timer_function k w).1 (tick-HearsSome w h)

module _ (k : Kernel) (torn : List Event → ℤ → ℤ) (first : ℤ) (copies : Copies k) where
  abbrev reading : User → M KeyDev User
  reading = read_and_print torn (Keyirq.kery_read k)

  read-HearsSome :
      (u : User) (w : World KeyDev)
      → HearsSome first u.out w
      → HearsSome first (reading u w).0.out (reading u w).1
  unfolding Keyirq.kery_read
  read-HearsSome u w h = ground (
    arith,
    copies (record { call = Calls.spin_lock_irqsave; ret = pos 0; out = 0 } ∷ w.log)
        (code w.dev.status),
  )

  app_loop-HearsSome :
      (rs : List Round) (u : User) (w : World KeyDev)
      → HearsSome first u.out w
      → let r = key_loop torn (Keyirq.timer_function k) (λ _. Keyirq.kery_read k) rs u w in
        HearsSome first r.0.out r.1
  app_loop-HearsSome [] u w h = h
  app_loop-HearsSome (r ∷ rs) u w h =
      let w' = (ticks (Keyirq.timer_function k) r.before w).1 in
      app_loop-HearsSome rs (reading u w').0 (reading u w').1
        (read-HearsSome u w' (ticks-HearsSome k first u.out r.before w h))

-- The program is in its loop, and what it has printed is a press or a release for some of the
-- changes of the line, in order.
abbrev pub PrintsSomeChanges : ℤ → Outcome (User × World KeyDev) → Type 0
PrintsSomeChanges first (Outcome.exited status out) = ⊥
PrintsSomeChanges first (Outcome.running (u, w)) = Sublist u.out (heard first w)

-- On keyirq.c, with no sample and no event before the program starts and copies to the user that
-- succeed, keyirqApp may miss changes of the line when samples come faster than its reads, but it
-- prints nothing that did not happen, nothing twice and nothing out of order, whatever the samples
-- between its reads.
pub keyirq_app-PrintsSomeChanges :
    (k : Kernel) (torn : List Event → ℤ → ℤ) (fd : ℕ) (garbage : ℤ) (rs : List Round)
    (w : World KeyDev)
    → Copies k
    → Quiet w
    → PrintsSomeChanges w.dev.last_value (keyirq_app k torn 2 (pos fd) garbage rs w)
keyirq_app-PrintsSomeChanges k torn fd garbage rs w copies quiet =
    let first = w.dev.last_value in
    let u : User = record { key_val = garbage; out = [] } in
    let r = key_loop torn (Keyirq.timer_function k) (λ _. Keyirq.kery_read k) rs u w in
    let none : Sublist [] [] = done in
    let some : HearsSome first [] w = ground (arith, none) in
    unspoken-Sublist (code r.1.dev.status) r.0.out (heard first r.1)
      (app_loop-HearsSome k torn first copies rs u w some).0
