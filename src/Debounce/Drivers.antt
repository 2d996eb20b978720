-- ===== src/Debounce/Drivers.antt =====
-- The five key drivers with an interrupt: 13_irq/keyirq.c, 14_blockio/blockio.c,
-- 15_noblockio/noblockio.c, 16_fasync/fasync.c and 20_input/keyinput.c.
use learning_kernel.Prelude.{ℕ, suc, ◌<◌, ℤ, List, [], ◌∷◌, map, ◌≡◌, refl}
use learning_kernel.Kernel.Calls
use learning_kernel.Kernel.Calls.{Kernel, Event}
use learning_kernel.Kernel.Run.{World}
use learning_kernel.IrqKeys
use learning_kernel.IrqKeys.Keyirq
use learning_kernel.IrqKeys.Blockio
use learning_kernel.IrqKeys.Noblockio
use learning_kernel.IrqKeys.Fasync
use learning_kernel.Keyinput
use learning_kernel.Debounce.{Handlers, Line, run}
use learning_kernel.Debounce.Gestures.{
  debounce, Gesture, AllSettled, inputs, settles_at, samples, Samples, gestures-samples,
}

abbrev pub keyirq : Kernel → Handlers IrqKeys.KeyDev
keyirq k = record {
  interrupt = Keyirq.key_interrupt_handler k;
  tasklet = Keyirq.key_irq_tasklet k;
  timer = Keyirq.timer_function k;
}

abbrev pub blockio : Kernel → Handlers IrqKeys.KeyDev
blockio k = record {
  interrupt = Blockio.key_interrupt_handler k;
  tasklet = Blockio.key_irq_tasklet k;
  timer = Blockio.timer_function k;
}

abbrev pub noblockio : Kernel → Handlers IrqKeys.KeyDev
noblockio k = record {
  interrupt = Noblockio.key_interrupt_handler k;
  tasklet = Noblockio.key_irq_tasklet k;
  timer = Noblockio.timer_function k;
}

abbrev pub fasync : Kernel → Handlers IrqKeys.KeyDev
fasync k = record {
  interrupt = Fasync.key_interrupt_handler k;
  tasklet = Fasync.key_irq_tasklet k;
  timer = Fasync.timer_function k;
}

abbrev pub keyinput : Kernel → Handlers Keyinput.KeyDev
keyinput k = record {
  interrupt = Keyinput.key_interrupt_handler k;
  tasklet = Keyinput.key_irq_tasklet k;
  timer = Keyinput.timer_function k;
}

-- How often the line has been read.
abbrev pub looks : List Event → ℕ
looks [] = 0
looks (e ∷ es) = elim e.call [ Calls.gpio_get_value g ↦ suc (looks es) | _ ↦ looks es ]

-- The device and how often its line has been read, and what a sample makes of them.
abbrev pub device_seen : World IrqKeys.KeyDev → IrqKeys.KeyDev × ℕ
device_seen w = (w.dev, looks w.log)

abbrev pub device_sample : ℤ → IrqKeys.KeyDev × ℕ → IrqKeys.KeyDev × ℕ
device_sample level v = (IrqKeys.sampled level v.0, suc v.1)

-- The values that the input subsystem has been told, newest first, and what a sample adds.
abbrev pub reports : List Event → List ℕ
reports [] = []
reports (e ∷ es) = elim e.call [ Calls.input_report_key p v ↦ v ∷ reports es | _ ↦ reports es ]

abbrev pub reports_seen : World Keyinput.KeyDev → List ℕ
reports_seen w = reports w.log

abbrev pub report_sample : ℤ → List ℕ → List ℕ
report_sample level values = Keyinput.negation level ∷ values

pub keyirq-Samples : Samples device_seen device_sample keyirq
unfolding Keyirq.key_interrupt_handler Keyirq.key_irq_tasklet Keyirq.timer_function
keyirq-Samples = record {
  interrupt_keeps = λ k w. refl;
  interrupt_asks = λ k w. refl;
  tasklet_keeps = λ k w. refl;
  tasklet_arms = λ m k w old. refl;
  timer_samples = λ k level w. refl;
  timer_ends = λ m k level w. refl;
}

pub blockio-Samples : Samples device_seen device_sample blockio
unfolding Blockio.key_interrupt_handler Blockio.key_irq_tasklet Blockio.timer_function
blockio-Samples = record {
  interrupt_keeps = λ k w. refl;
  interrupt_asks = λ k w. refl;
  tasklet_keeps = λ k w. refl;
  tasklet_arms = λ m k w old. refl;
  timer_samples = λ k level w. refl;
  timer_ends = λ m k level w. refl;
}

pub noblockio-Samples : Samples device_seen device_sample noblockio
unfolding Noblockio.key_interrupt_handler Noblockio.key_irq_tasklet Noblockio.timer_function
noblockio-Samples = record {
  interrupt_keeps = λ k w. refl;
  interrupt_asks = λ k w. refl;
  tasklet_keeps = λ k w. refl;
  tasklet_arms = λ m k w old. refl;
  timer_samples = λ k level w. refl;
  timer_ends = λ m k level w. refl;
}

pub fasync-Samples : Samples device_seen device_sample fasync
unfolding Fasync.key_interrupt_handler Fasync.key_irq_tasklet Fasync.timer_function
fasync-Samples = record {
  interrupt_keeps = λ k w. refl;
  interrupt_asks = λ k w. refl;
  tasklet_keeps = λ k w. refl;
  tasklet_arms = λ m k w old. refl;
  timer_samples = λ k level w. refl;
  timer_ends = λ m k level w. refl;
}

keyinput-Samples : Samples reports_seen report_sample keyinput
unfolding Keyinput.key_interrupt_handler Keyinput.key_irq_tasklet Keyinput.timer_function
keyinput-Samples = record {
  interrupt_keeps = λ k w. refl;
  interrupt_asks = λ k w. refl;
  tasklet_keeps = λ k w. refl;
  tasklet_arms = λ m k w old. refl;
  timer_samples = λ k level w. refl;
  timer_ends = λ m k level w. refl;
}

-- A driver of the four, from this state of the line: after the gestures the device is what one
-- sample of each settled level makes of it, and the line has been read once for each.
abbrev pub Debounces :
    (ℕ → ℕ)
    → (Kernel → Handlers IrqKeys.KeyDev)
    → Kernel
    → List Gesture
    → Line IrqKeys.KeyDev
    → Type 0
Debounces msecs_to_jiffies handlers k gs s =
    device_seen (run msecs_to_jiffies handlers k (inputs gs) s).world
    ≡ samples device_sample (map settles_at gs) (device_seen s.world)

module _ (msecs_to_jiffies : ℕ → ℕ) (k : Kernel) (gs : List Gesture) where
  -- Let 15 ms be any positive number of ticks of the kernel's clock. If within a gesture of the key
  -- fewer ticks pass between two edges, and at least so many after it before the next, then each of
  -- keyirq.c, blockio.c, noblockio.c and fasync.c reads the line exactly once for each gesture,
  -- whatever the line does in between and whether or not the timer runs at first, and its device is
  -- what one sample of the level at which each gesture settles makes of it; and keyinput.c reports
  -- exactly one value for each gesture, in order: 1 if it settles at 0, and 0 otherwise.
  pub keys-debounced :
      (s : Line IrqKeys.KeyDev) (t : Line Keyinput.KeyDev)
      → 0 < debounce msecs_to_jiffies
      → AllSettled (debounce msecs_to_jiffies) gs
      → Debounces msecs_to_jiffies keyirq k gs s
        × Debounces msecs_to_jiffies blockio k gs s
        × Debounces msecs_to_jiffies noblockio k gs s
        × Debounces msecs_to_jiffies fasync k gs s
        × (reports (run msecs_to_jiffies keyinput k (inputs gs) t).world.log
            ≡ samples report_sample (map settles_at gs) (reports t.world.log))
  keys-debounced s t due settled = (
    gestures-samples device_seen device_sample keyirq keyirq-Samples k msecs_to_jiffies due gs s
        settled,
    gestures-samples device_seen device_sample blockio blockio-Samples k msecs_to_jiffies due gs s
        settled,
    gestures-samples device_seen device_sample noblockio noblockio-Samples k msecs_to_jiffies due gs
        s settled,
    gestures-samples device_seen device_sample fasync fasync-Samples k msecs_to_jiffies due gs s
        settled,
    gestures-samples reports_seen report_sample keyinput keyinput-Samples k msecs_to_jiffies due gs
        t settled,
  )
