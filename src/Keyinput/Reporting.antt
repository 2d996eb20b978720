-- ===== src/Keyinput/Reporting.antt =====
-- What keyinput.c reports of the key.
use learning_kernel.Prelude.{ℕ, ℤ, List, [], ◌∷◌, none, ◌≡◌, ap, map, arith}
use learning_kernel.Kernel.Calls
use learning_kernel.Kernel.Calls.{Kernel, Event}
use learning_kernel.Kernel.Run.{World}
use learning_kernel.Kernel.Ledger.{ledger}
use learning_kernel.Keyinput.{
  KeyDev, key_interrupt_handler, key_irq_tasklet, timer_function, negation,
}

-- The levels that the line was read at, and the reports, newest first.
abbrev pub levels : List Event → List ℤ
levels [] = []
levels (e ∷ es) = elim e.call [ Calls.gpio_get_value g ↦ e.ret ∷ levels es | _ ↦ levels es ]

abbrev pub reports : List Event → List ℕ
reports [] = []
reports (e ∷ es) = elim e.call [ Calls.input_report_key p v ↦ v ∷ reports es | _ ↦ reports es ]

-- What can happen to the bound device: an interrupt, the tasklet, and the end of the timer.
pub data Action : Type 0 where
  edge bottom_half expiry : Action

pub act : Kernel → Action → World KeyDev → World KeyDev
unfolding key_interrupt_handler key_irq_tasklet timer_function
act k edge w = (key_interrupt_handler k w).1
act k bottom_half w = (key_irq_tasklet k w).1
act k expiry w = (timer_function k w).1

pub acts : Kernel → List Action → World KeyDev → World KeyDev
acts k [] w = w
acts k (a ∷ rest) w = acts k rest (act k a w)

act-reports :
    (k : Kernel) (a : Action) (w : World KeyDev)
    → reports w.log ≡ map negation (levels w.log)
    → reports (act k a w).log ≡ map negation (levels (act k a w).log)
unfolding act
act-reports k edge w h = h
act-reports k bottom_half w h = h
act-reports k expiry w h = ap (◌∷◌ (negation (k.int w.log (Calls.gpio_get_value w.dev.gpio)))) h

-- Whatever interrupts, tasklet runs and timer expiries follow each other, every level that the timer
-- reads is reported, negated, and in the same order, if that was so at first.
pub acts-reports :
    (k : Kernel) (actions : List Action) (w : World KeyDev)
    → reports w.log ≡ map negation (levels w.log)
    → reports (acts k actions w).log ≡ map negation (levels (acts k actions w).log)
unfolding acts
acts-reports k [] w h = h
acts-reports k (a ∷ rest) w h = acts-reports k rest (act k a w) (act-reports k a w h)

-- A timer that expires before the input device is allocated, which the order of the probe allows as
-- soon as the interrupt is requested, reports to NULL.
early_report :
    (k : Kernel) (w : World KeyDev)
    → w.dev.iputdev ≡ none
    → ledger (timer_function k w).1.log ≡ none
unfolding timer_function
early_report k w h = ground arith
