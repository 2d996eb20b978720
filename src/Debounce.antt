-- ===== src/Debounce.antt =====
-- How the key drivers under openedv/linux/stm32mp157 come to a sample of the line: the interrupt
-- schedules a tasklet, the tasklet sets a timer, and the timer's function reads the line. What the
-- kernel does with the two requests is its documented behaviour: a tasklet that is scheduled in an
-- interrupt runs when the interrupt returns, and `mod_timer` replaces the time that is left, which is
-- counted in ticks of the kernel's clock. How many ticks a number of milliseconds has depends on the
-- kernel's HZ: `msecs_to_jiffies` is a parameter.
pub mod Gestures
pub mod Drivers
pub mod Reading
mod Examples
use learning_kernel.Prelude.{
  ℕ, ◌-◌, ℤ, Bool, true, false, List, [], ◌∷◌, Option, none, some, leb, pos_part, if◌then◌else◌,
}
use learning_kernel.Kernel.Calls
use learning_kernel.Kernel.Calls.{Kernel, Event, Call}
use learning_kernel.Kernel.Run.{World, M}

-- What a driver has the kernel call.
pub record Handlers (S : Type 0) : Type 0 where
  pub interrupt : M S (Unit {0})
  pub tasklet : M S (Unit {0})
  pub timer : M S (Unit {0})

-- The line goes to a level, which raises the interrupt, or a jiffy passes: a tick of the kernel's
-- clock.
pub data Input : Type 0 where
  edge : ℤ → Input
  tick : Input

-- `left` is how many ticks the timer still has to run, if it runs.
pub record Line (S : Type 0) : Type 0 where
  pub level : ℤ
  pub left : Option ℕ
  pub world : World S

abbrev pub int_at : Kernel → ℤ → List Event → Call → ℤ
int_at k level log (Call.gpio_get_value g) = level
int_at k level log c = k.int log c

-- A kernel that reads every line at this level.
abbrev pub wired : Kernel → ℤ → Kernel
wired k level = record k { int = int_at k level }

-- The newest call schedules the tasklet.
abbrev pub asks_tasklet : List Event → Bool
asks_tasklet [] = false
asks_tasklet (e ∷ es) = elim e.call [ Calls.tasklet_schedule ↦ true | _ ↦ false ]

-- The ticks that are left after the newest call, which gives milliseconds from now.
abbrev pub armed : (ℕ → ℕ) → Option ℕ → List Event → Option ℕ
armed msecs_to_jiffies left [] = left
armed msecs_to_jiffies left (e ∷ es) = elim e.call [
  | Calls.mod_timer delay ↦ some (msecs_to_jiffies (pos_part delay))
  | _ ↦ left
]

module _ (msecs_to_jiffies : ℕ → ℕ) {S : Type 0} (handlers : Kernel → Handlers S) (k : Kernel) where
  pub raise : ℤ → Line S → Line S
  raise level s =
      let h = handlers (wired k level) in
      let interrupted = (h.interrupt s.world).1 in
      let deferred = (h.tasklet interrupted).1 in
      if asks_tasklet interrupted.log
      then record {
        level = level;
        left = armed msecs_to_jiffies s.left deferred.log;
        world = deferred;
      }
      else record {
        level = level;
        left = armed msecs_to_jiffies s.left interrupted.log;
        world = interrupted;
      }

  pub expire : Line S → Line S
  expire s =
      let sampled = ((handlers (wired k s.level)).timer s.world).1 in
      record s { left = armed msecs_to_jiffies none sampled.log; world = sampled }

  pub pass : Line S → Line S
  unfolding expire
  pass s = elim s.left [
    | none ↦ s
    | some n ↦ if leb n 1 then expire s else record s { left = some (n - 1) }
  ]

  pub step : Input → Line S → Line S
  step (edge level) s = raise level s
  step tick s = pass s

  pub run : List Input → Line S → Line S
  run [] s = s
  run (i ∷ rest) s = run rest (step i s)
