-- ===== src/Apps/Blinking.antt =====
-- openedv/linux/stm32mp157/12_timer/timerApp.c on 12_timer/timer.c.
pub mod Session
use learning_kernel.Prelude.{
  ℕ, zero, suc, ◌<◌, ◌%◌, ◌^◌, ◌==◌, not, Bool, true, false, Option, none, some, List, [], ◌∷◌,
  ◌++◌, replicate, ℤ, pos, is_neg, ◌≡◌, refl, sym, ◌∙◌, arith, if◌then◌else◌,
}
use learning_kernel.Kernel.Calls.{Kernel}
use learning_kernel.Kernel.Run.{World}
use learning_kernel.Kernel.Ledger.{ledger}
use learning_kernel.Timer.{
  TimerDev, Action, ioctls, firing, act, acts, fires, timer_init, timer_open, timer_unlocked_ioctl,
  led_release, mykey_exit, close_cmd, open_cmd, setperiod_cmd, load_use_unload,
}

-- What happens at a scanf("%d", ...): so often the timer expires while the program waits, and then
-- a number is typed, or something else, whose line `fgets` takes away.
pub record Entry : Type 0 where
  pub waited : ℕ
  pub typed : Option ℕ

-- The variables `cmd` and `arg`. scanf puts an int into an unsigned int, and nothing if it fails.
pub record Vars : Type 0 where
  pub cmd : ℕ
  pub arg : ℕ

abbrev pub scanned : Option ℕ → ℕ → ℕ
scanned none old = old
scanned (some n) old = n % 2 ^ 32

-- Lines 59 to 66: the program ends, it asks for a period, or it goes on to the ioctl.
pub data Choice : Type 0 where
  leave : Choice
  ask : Choice
  go : ℕ → Choice

abbrev pub choice : ℕ → Choice
choice cmd =
    if cmd == 4
    then leave
    else if cmd == 1
    then go close_cmd
    else if cmd == 2
    then go open_cmd
    else if cmd == 3
    then ask
    else go cmd

-- What follows each choice.
abbrev pub choose {ℓ} : {A : Type ℓ} → Choice → A → A → (ℕ → A) → A
choose leave a b f = a
choose ask a b f = b
choose (go cmd) a b f = f cmd

module _ (k : Kernel) where
  abbrev pub control : ℕ → ℕ → World TimerDev → World TimerDev
  control cmd arg w = (timer_unlocked_ioctl k cmd arg w).1

  -- The loop, for the given entries; where they end the program waits in scanf.
  pub while_loop : List Entry → Vars → World TimerDev → World TimerDev
  while_loop [] v w = w
  while_loop (e ∷ []) v w =
      let w' = fires k e.waited w in
      choose (choice (scanned e.typed v.cmd)) w' w' (λ cmd. control cmd v.arg w')
  while_loop (e ∷ p ∷ es) v w =
      let w' = fires k e.waited w in
      let arg = scanned p.typed v.arg in
      choose (choice (scanned e.typed v.cmd)) w'
        (while_loop es (record { cmd = setperiod_cmd; arg = arg })
          (control setperiod_cmd arg (fires k p.waited w')))
        (λ cmd. while_loop (p ∷ es) (record { cmd = cmd; arg = v.arg }) (control cmd v.arg w'))

  -- The program from `open` on: the file is closed when it ends or is killed.
  pub timer_main : ℕ → Vars → List Entry → World TimerDev → World TimerDev
  timer_main argc garbage es w =
      let opened = timer_open k w in
      if not (argc == 2)
      then w
      else if is_neg opened.0
      then opened.1
      else (led_release k (while_loop es garbage opened.1)).1

  -- The module is loaded and, if that went well, the program is run and the module unloaded.
  pub session : ℕ → Vars → List Entry → World TimerDev → World TimerDev
  session argc garbage es w =
      let i = timer_init k w in
      if is_neg i.0 then i.1 else (mykey_exit k (timer_main argc garbage es i.1)).1

-- What the program has the driver do, with the timer's expiries in between.
abbrev pub todo : List Entry → Vars → List Action
todo [] v = []
todo (e ∷ []) v =
    let waited = replicate e.waited firing in
    choose (choice (scanned e.typed v.cmd)) waited waited (λ cmd. waited ++ (ioctls cmd v.arg ∷ []))
todo (e ∷ p ∷ es) v =
    let waited = replicate e.waited firing in
    let arg = scanned p.typed v.arg in
    choose (choice (scanned e.typed v.cmd)) waited
      (waited
        ++ (replicate p.waited firing
            ++ (ioctls setperiod_cmd arg ∷ todo es (record { cmd = setperiod_cmd; arg = arg }))))
      (λ cmd. waited ++ (ioctls cmd v.arg ∷ todo (p ∷ es) (record { cmd = cmd; arg = v.arg })))

module _ (k : Kernel) where
  acts-waited :
      (n : ℕ) (rest : List Action) (w : World TimerDev)
      → acts k (replicate n firing ++ rest) w ≡ acts k rest (fires k n w)
  unfolding acts act fires
  acts-waited zero rest w = refl
  acts-waited (suc n) rest w = acts-waited n rest _

  acts-only_waited : (n : ℕ) (w : World TimerDev) → acts k (replicate n firing) w ≡ fires k n w
  unfolding acts act fires
  acts-only_waited zero w = refl
  acts-only_waited (suc n) w = acts-only_waited n _

  choose-acts :
      (c : Choice) (a b : World TimerDev) (f : ℕ → World TimerDev) (la lb : List Action)
      (lf : ℕ → List Action) (w : World TimerDev)
      → a ≡ acts k la w
      → b ≡ acts k lb w
      → ((cmd : ℕ) → f cmd ≡ acts k (lf cmd) w)
      → choose c a b f ≡ acts k (choose c la lb lf) w
  choose-acts leave a b f la lb lf w ha hb hf = ha
  choose-acts ask a b f la lb lf w ha hb hf = hb
  choose-acts (go cmd) a b f la lb lf w ha hb hf = hf cmd

  while_loop-acts :
      (es : List Entry) (v : Vars) (w : World TimerDev) → while_loop k es v w ≡ acts k (todo es v) w
  unfolding while_loop acts act
  while_loop-acts [] v w = refl
  while_loop-acts (e ∷ []) v w =
      let waited = sym (acts-only_waited e.waited w) in
      choose-acts (choice (scanned e.typed v.cmd)) _ _ _ _ _ _ w waited waited
        (λ cmd. sym (acts-waited e.waited (ioctls cmd v.arg ∷ []) w))
  while_loop-acts (e ∷ p ∷ es) v w =
      let w' = fires k e.waited w in
      let arg = scanned p.typed v.arg in
      let period : Vars = record { cmd = setperiod_cmd; arg = arg } in
      let asked = while_loop-acts es period (control k setperiod_cmd arg (fires k p.waited w')) in
      choose-acts (choice (scanned e.typed v.cmd)) _ _ _ _ _ _ w (sym (acts-only_waited e.waited w))
        (asked
          ∙ sym (acts-waited p.waited (ioctls setperiod_cmd arg ∷ todo es period) w')
          ∙ sym (acts-waited e.waited _ w))
        (λ cmd.
          while_loop-acts (p ∷ es) (record { cmd = cmd; arg = v.arg }) (control k cmd v.arg w')
          ∙ sym (acts-waited e.waited _ w))
