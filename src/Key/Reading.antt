-- ===== src/Key/Reading.antt =====
-- What a read of 11_key/key.c returns, and when it returns.
use learning_kernel.Prelude.{
  ℕ, zero, suc, ◌<◌, ℤ, pos, Option, some, true, List, ◌∷◌, ◌≡◌, ◌≢◌, ◌⊎◌, arith, refl,
}
use learning_kernel.Kernel.Calls
use learning_kernel.Kernel.Calls.{Kernel, Event}
use learning_kernel.Kernel.Run.{World}
use learning_kernel.Kernel.Errno.{efault}
use learning_kernel.Kernel.Lines.{last_copy}
use learning_kernel.Key.{KeyDev, key0_value, invalkey, wait_release, key_read}

module _ (k : Kernel) (g : ℤ) where
  abbrev pub poll : List Event → Event
  poll log = record {
    call = Calls.gpio_get_value g;
    ret = k.int log (Calls.gpio_get_value g);
    out = 0;
  }

  -- The log after `n` polls of the line.
  abbrev pub polled : ℕ → List Event → List Event
  polled zero log = log
  polled (suc n) log = polled n (poll log ∷ log)

  -- The level that the next poll would read.
  abbrev pub level_at : List Event → ℤ
  level_at log = k.int log (Calls.gpio_get_value g)

  pub wait_release_returns :
      (n fuel : ℕ) (w : World KeyDev)
      → n < fuel
      → level_at (polled n w.log) ≢ pos 0
      → (wait_release k fuel g w).0 ≡ true
  unfolding wait_release
  wait_release_returns n zero w h up = absurd (omega arith)
  wait_release_returns zero (suc fuel) w h up = ground arith
  wait_release_returns (suc n) (suc fuel) w h up =
      ground (
        arith,
        wait_release_returns n fuel (record w { log = poll w.log ∷ w.log }) (omega arith) up,
      )

  pub wait_release-dev : (fuel : ℕ) (w : World KeyDev) → (wait_release k fuel g w).1.dev ≡ w.dev
  unfolding wait_release
  wait_release-dev zero w = refl
  wait_release-dev (suc fuel) w =
      ground (arith, wait_release-dev fuel (record w { log = poll w.log ∷ w.log }))

-- A read has answered `v`: it returned the size of an int, or -EFAULT if the copy failed, and `v`
-- is what it stored and copied.
pub record Answers (v : ℤ) (r : Option ℤ × World KeyDev) : Type 0 where
  pub returned : (r.0 ≡ some (pos 4)) ⊎ (r.0 ≡ some efault)
  pub copied : last_copy r.1.log ≡ some v
  pub stored : r.1.dev.keyvalue ≡ v

module _ (k : Kernel) (w : World KeyDev) where
  -- A read while the key is up answers INVALKEY without waiting.
  pub key_read_up :
      (fuel : ℕ) → level_at k w.dev.key_gpio w.log ≢ pos 0 → Answers invalkey (key_read k fuel w)
  unfolding key_read
  key_read_up fuel up = ground arith

  -- A read that begins while the key is down returns, with KEY0_VALUE, if a poll of the waiting
  -- loop that the fuel allows for, the one after `n` others, would find the line high.
  pub key_read_press :
      (fuel n : ℕ)
      → level_at k w.dev.key_gpio w.log ≡ pos 0
      → n < fuel
      → level_at k w.dev.key_gpio (polled k w.dev.key_gpio (suc n) w.log) ≢ pos 0
      → Answers key0_value (key_read k fuel w)
  unfolding key_read
  key_read_press fuel n down h up =
      let w' : World KeyDev = record w { log = poll k w.dev.key_gpio w.log ∷ w.log } in
      ground (arith, wait_release_returns k w.dev.key_gpio n fuel w' h up)
