-- ===== src/Timer/Races/Settling.antt =====
-- What a command of timer.c has brought about, whatever its timer does at the same time.
use learning_kernel.Prelude.{
  ℤ, Bool, true, false, List, [], ◌∷◌, Option, none, some, ◌≡◌, ◌⊎◌, inl, inr, refl, arith,
}
use learning_kernel.Timer.Races.{
  Command, close_cmd, open_cmd, setperiod_cmd, Caller, idle, closing, rearming, storing, arming,
  Handler, resting, toggled, holding, System, Move, calls, goes, expires, handles, begin, accept,
  cancel, proceed, expire, handle, turn, interleave, opened,
}

-- What the ioctl, the timer's function and the timer have read is the period.
abbrev CallerCurrent : Caller → ℤ → Type 0
CallerCurrent (arming p) period = p ≡ period
CallerCurrent _ period = Unit {0}

abbrev HandlerCurrent : Handler → ℤ → Type 0
HandlerCurrent (holding p) period = p ≡ period
HandlerCurrent _ period = Unit {0}

abbrev pub ArmedCurrent : Option ℤ → ℤ → Type 0
ArmedCurrent none period = Unit {0}
ArmedCurrent (some p) period = p ≡ period

record Inv (s : System) : Type 0 where
  caller : CallerCurrent s.caller s.timeperiod
  settled :
      (s.fired ≡ false)
      ⊎ (HandlerCurrent s.handler s.timeperiod × ArmedCurrent s.armed s.timeperiod)

accept-Inv : (at : Caller) (c : Command) (s : System) → Inv s → Inv (accept at c s)
unfolding begin
accept-Inv idle close_cmd s h = record { caller = tt; settled = h.settled }
accept-Inv idle open_cmd s h = record { caller = tt; settled = h.settled }
accept-Inv idle (setperiod_cmd p) s h = record { caller = tt; settled = h.settled }
accept-Inv closing c s h = h
accept-Inv rearming c s h = h
accept-Inv (storing p) c s h = h
accept-Inv (arming p) c s h = h

cancel-Inv : (at : Handler) (s : System) → s.handler ≡ at → Inv s → Inv (cancel at s)
cancel-Inv resting s e h = record {
  caller = tt;
  settled = elim h.settled [ inl f ↦ inl f | inr c ↦ inr (c.0, tt) ];
}
cancel-Inv toggled s e h = h
cancel-Inv (holding p) s e h = h

proceed-Inv :
    (at : Caller) (s : System) → CallerCurrent at s.timeperiod → Inv s → Inv (proceed at s)
unfolding proceed
proceed-Inv idle s e h = h
proceed-Inv closing s e h = cancel-Inv s.handler s refl h
proceed-Inv rearming s e h = record { caller = refl; settled = h.settled }
proceed-Inv (storing p) s e h = record { caller = tt; settled = inl refl }
proceed-Inv (arming p) s e h = record {
  caller = tt;
  settled = elim h.settled [ inl f ↦ inl f | inr c ↦ inr (c.0, e) ];
}

expire-Inv : (a : Option ℤ) (at : Handler) (s : System) → Inv s → Inv (expire a at s)
unfolding expire
expire-Inv (some p) resting s h = record { caller = h.caller; settled = inr (tt, tt) }
expire-Inv _ _ s h = h

handle-Inv : (at : Handler) (s : System) → s.handler ≡ at → Inv s → Inv (handle at s)
unfolding handle
handle-Inv resting s e h = h
handle-Inv toggled s e h = record {
  caller = h.caller;
  settled = elim h.settled [ inl f ↦ inl f | inr c ↦ inr (refl, c.1) ];
}
handle-Inv (holding p) s e h = record {
  caller = h.caller;
  settled = elim h.settled [ inl f ↦ inl f | inr c ↦ inr (tt, (rw e at (c.0))) ];
}

turn-Inv : (m : Move) (s : System) → Inv s → Inv (turn m s)
unfolding turn
turn-Inv (calls c) s h = accept-Inv s.caller c s h
turn-Inv goes s h = proceed-Inv s.caller s h.caller h
turn-Inv expires s h = expire-Inv s.armed s.handler s h
turn-Inv handles s h = handle-Inv s.handler s refl h

interleave-Inv : (ms : List Move) (s : System) → Inv s → Inv (interleave ms s)
unfolding interleave
interleave-Inv [] s h = h
interleave-Inv (m ∷ ms) s h = interleave-Inv ms (turn m s) (turn-Inv m s h)

opened-Inv : Inv opened
opened-Inv = record { caller = tt; settled = inl refl }

-- No command but CLOSE_CMD.
abbrev pub only_closes : List Move → Bool
only_closes [] = true
only_closes (calls close_cmd ∷ ms) = only_closes ms
only_closes (calls open_cmd ∷ ms) = false
only_closes (calls (setperiod_cmd p) ∷ ms) = false
only_closes (goes ∷ ms) = only_closes ms
only_closes (expires ∷ ms) = only_closes ms
only_closes (handles ∷ ms) = only_closes ms

-- The timer is not pending, and its function does not run.
abbrev pub IsStill : System → Type 0
IsStill s = (s.armed ≡ none) × (s.handler ≡ resting)

stage_kept :
    (m : Move) (ms : List Move) (s : System)
    → only_closes (m ∷ ms) ≡ true
    → (s.caller ≡ closing) ⊎ (s.caller ≡ idle) × IsStill s
    → ((turn m s).caller ≡ closing) ⊎ ((turn m s).caller ≡ idle) × IsStill (turn m s)
unfolding turn begin proceed expire handle
stage_kept (calls close_cmd) ms s o h = ground arith
stage_kept (calls open_cmd) ms s o h = absurd (ground arith)
stage_kept (calls (setperiod_cmd p)) ms s o h = absurd (ground arith)
stage_kept goes ms s o h = ground arith
stage_kept expires ms s o h = ground arith
stage_kept handles ms s o h = ground arith

stage_kept_by_all :
    (ms : List Move) (s : System)
    → only_closes ms ≡ true
    → (s.caller ≡ closing) ⊎ (s.caller ≡ idle) × IsStill s
    → ((interleave ms s).caller ≡ closing)
      ⊎ ((interleave ms s).caller ≡ idle) × IsStill (interleave ms s)
unfolding interleave
stage_kept_by_all [] s o h = h
stage_kept_by_all (m ∷ ms) s o h =
    stage_kept_by_all ms (turn m s) (rest m o) (stage_kept m ms s o h)
  where
    rest : (n : Move) → only_closes (n ∷ ms) ≡ true → only_closes ms ≡ true
    rest (calls close_cmd) p = p
    rest (calls open_cmd) p = absurd (ground arith)
    rest (calls (setperiod_cmd period)) p = absurd (ground arith)
    rest goes p = p
    rest expires p = p
    rest handles p = p

-- The timer's function ends, and then the command.
abbrev pub ending : List Move
ending = handles ∷ handles ∷ goes ∷ []

ending-IsStill :
    (s : System)
    → (s.caller ≡ closing) ⊎ (s.caller ≡ idle) × IsStill s
    → IsStill (interleave ending s)
unfolding interleave proceed handle
ending-IsStill s h = ground arith

begun : (s : System) → s.caller ≡ idle → (turn (calls close_cmd) s).caller ≡ closing
unfolding turn begin
begun s e = ground arith

-- From opening the file on, however the commands and the timer's function interleave: once the
-- function has begun after the last store of the period, the timer is not pending with any other
-- period. When CLOSE_CMD then begins and no other command follows, it has not returned, or the
-- timer is neither pending nor its function running, and it stays so; and it returns with that as
-- soon as the function has ended, though the function sets the timer again.
pub close-IsStill :
    (before after : List Move)
    → (interleave before opened).caller ≡ idle
    → only_closes after ≡ true
    → let s = interleave before opened in
      let t = interleave after (turn (calls close_cmd) s) in
      ((s.fired ≡ false) ⊎ ArmedCurrent s.armed s.timeperiod)
      × ((t.caller ≡ closing) ⊎ (t.caller ≡ idle) × IsStill t)
      × IsStill (interleave ending t)
close-IsStill before after free quiet =
    let s = interleave before opened in
    let t = interleave after (turn (calls close_cmd) s) in
    let stage = stage_kept_by_all after (turn (calls close_cmd) s) quiet (inl (begun s free)) in
    (
      elim (interleave-Inv before opened opened-Inv).settled [ inl f ↦ inl f | inr c ↦ inr c.1 ],
      stage,
      ending-IsStill t stage,
    )
