-- ===== src/Timer/Races/Examples.antt =====
-- The theorem on the ioctl and the timer's function, for a period that is set while the function
-- holds the old one, and a command that waits.
use learning_kernel.Prelude.{pos, false, List, [], ◌∷◌, some, ◌≡◌, ◌⊎◌, refl}
use learning_kernel.Timer.Races.{
  open_cmd, setperiod_cmd, close_cmd, closing, idle, System, Move, calls, goes, expires, handles,
  turn, interleave, opened,
}
use learning_kernel.Timer.Races.Settling.{ArmedCurrent, IsStill, ending, close-IsStill}

abbrev before : List Move
before =
    calls open_cmd
    ∷ goes
    ∷ goes
    ∷ expires
    ∷ handles
    ∷ calls (setperiod_cmd (pos 500))
    ∷ goes
    ∷ goes
    ∷ goes
    ∷ handles
    ∷ []

abbrev after : List Move
after = expires ∷ goes ∷ handles ∷ []

abbrev s : System
s = interleave before opened

abbrev t : System
t = interleave after (turn (calls close_cmd) s)

free : s.caller ≡ idle
unfolding interleave
free = refl

close-IsStill_example :
    ((s.fired ≡ false) ⊎ ArmedCurrent s.armed s.timeperiod)
    × ((t.caller ≡ closing) ⊎ (t.caller ≡ idle) × IsStill t)
    × IsStill (interleave ending t)
close-IsStill_example = close-IsStill before after free refl

-- The function has set the timer with the period that it had read before the new one was stored.
late : s.armed ≡ some (pos 1000)
unfolding interleave
late = refl
