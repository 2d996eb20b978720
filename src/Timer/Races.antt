-- ===== src/Timer/Races.antt =====
-- The ioctl and the timer's function of 12_timer/timer.c at the same time, on two processors: each
-- read and write of `timeperiod` and each call of the timer is a move of its own. That
-- `del_timer_sync` waits for a function that is running, and that one timer's function does not run
-- twice at once, is the kernel's documented behaviour.
pub mod Settling
mod Examples
use learning_kernel.Prelude.{ℕ, ℤ, pos, Bool, true, false, List, [], ◌∷◌, Option, none, some}

pub data Command : Type 0 where
  close_cmd open_cmd : Command
  setperiod_cmd : ℤ → Command

-- Where the ioctl is: before `del_timer_sync`, before the store, before the read of `timeperiod` for
-- `mod_timer`, and before `mod_timer` with what it has read.
pub data Caller : Type 0 where
  idle closing rearming : Caller
  storing arming : ℤ → Caller

-- Where the timer's function is: not running, before its read of `timeperiod`, and before
-- `mod_timer`.
pub data Handler : Type 0 where
  resting toggled : Handler
  holding : ℤ → Handler

-- `armed` is the delay with which the timer is pending; `fired` says whether its function has begun
-- since the last store of the period.
pub record System : Type 0 where
  pub timeperiod : ℤ
  pub armed : Option ℤ
  pub caller : Caller
  pub handler : Handler
  pub fired : Bool

pub data Move : Type 0 where
  calls : Command → Move
  goes expires handles : Move

-- The `switch` of `timer_unlocked_ioctl`.
pub begin : Command → Caller
begin close_cmd = closing
begin open_cmd = rearming
begin (setperiod_cmd period) = storing period

abbrev pub accept : Caller → Command → System → System
accept idle c s = record s { caller = begin c }
accept _ c s = s

abbrev pub cancel : Handler → System → System
cancel resting s = record s { armed = none; caller = idle }
cancel _ s = s

pub proceed : Caller → System → System
proceed idle s = s
proceed closing s = cancel s.handler s
proceed rearming s = record s { caller = arming s.timeperiod }
proceed (storing period) s = record s { timeperiod = period; caller = rearming; fired = false }
proceed (arming period) s = record s { armed = some period; caller = idle }

pub expire : Option ℤ → Handler → System → System
expire (some period) resting s = record s { armed = none; handler = toggled; fired = true }
expire _ _ s = s

-- The rest of `timer_function`.
pub handle : Handler → System → System
handle resting s = s
handle toggled s = record s { handler = holding s.timeperiod }
handle (holding period) s = record s { armed = some period; handler = resting }

pub turn : Move → System → System
unfolding proceed expire handle begin
turn (calls c) s = accept s.caller c s
turn goes s = proceed s.caller s
turn expires s = expire s.armed s.handler s
turn handles s = handle s.handler s

pub interleave : List Move → System → System
unfolding turn
interleave [] s = s
interleave (m ∷ ms) s = interleave ms (turn m s)

-- A file that has just been opened.
abbrev pub opened : System
opened = record {
  timeperiod = pos 1000;
  armed = none;
  caller = idle;
  handler = resting;
  fired = false;
}
