-- ===== src/Hello/Sharing/Examples.antt =====
-- The theorem on processes that share hello.c, for a reader and a writer that interleave.
use learning_kernel.Prelude.{ℕ, ◌≡◌, ◌⊎◌, refl, false, List, [], ◌∷◌}
use learning_kernel.Hello.Sharing.{
  Move, calls, goes, reads, writes, System, read, wrote, critical, quiet, interleave,
}
use learning_kernel.Hello.Sharing.Invariant.{IsSerial, replay}
use learning_kernel.Hello.Sharing.Serial.{interleave-IsSerial}

abbrev zeros : List ℕ
zeros = 0 ∷ 0 ∷ 0 ∷ 0 ∷ []

-- Process 2 comes in when process 1 has copied one byte, waits, and reads the whole.
abbrev moves : List (ℕ × Move)
moves =
    (1, calls (writes (1 ∷ 2 ∷ 3 ∷ 4 ∷ [])))
    ∷ (1, goes)
    ∷ (1, goes)
    ∷ (2, calls reads)
    ∷ (2, goes)
    ∷ (1, goes)
    ∷ (1, goes)
    ∷ (1, goes)
    ∷ (1, goes)
    ∷ (2, goes)
    ∷ (1, goes)
    ∷ (2, goes)
    ∷ (2, goes)
    ∷ (2, goes)
    ∷ (2, goes)
    ∷ (2, goes)
    ∷ (2, goes)
    ∷ []

abbrev after : System
after = interleave moves (quiet zeros)

interleave-IsSerial_example :
    IsSerial zeros after.history
    × ((critical (after.threads 1) ≡ false)
        ⊎ (critical (after.threads 2) ≡ false)
        ⊎ (◌≡◌ {A = ℕ} 1 2))
    × ((after.sem ≡ 0) ⊎ (after.val ≡ replay zeros after.history))
interleave-IsSerial_example = interleave-IsSerial zeros moves 1 2

-- The reader has got all of the writer's bytes.
history_shared : after.history ≡ read (1 ∷ 2 ∷ 3 ∷ 4 ∷ []) ∷ wrote (1 ∷ 2 ∷ 3 ∷ 4 ∷ []) ∷ []
unfolding interleave
history_shared = refl
