-- ===== src/Apps/HelloTest.antt =====
-- drivers/helloDev/tests/test.c on drivers/helloDev/hello.c.
use learning_kernel.Prelude.{
  ℕ, ℤ, pos, negsuc, List, [], ◌∷◌, ◌≡◌, ◌≢◌, ◌⊎◌, eqb_ℤ, arith, if◌then◌else◌,
}
use learning_kernel.Kernel.Calls
use learning_kernel.Kernel.Calls.{Event, Kernel}
use learning_kernel.Kernel.Errno.{erestartsys}
use learning_kernel.Kernel.Run.{World, M, pure, ◌>>=◌, ◌>>◌}
use learning_kernel.Apps.{read_int}
use learning_kernel.Hello.{HelloDev, hello_read, hello_write}

-- The exit status of `main`, and the two values that it prints.
pub record Report : Type 0 where
  pub status : ℕ
  pub printed : List ℤ

module _ (k : Kernel) (torn : List Event → ℤ → ℤ) where
  -- `main`, with the file that `open` gives. The results of the reads and the write are not looked
  -- at. What the write makes of the user's value is what `hello_write` gets from copy_from_user.
  pub main : ℤ → M HelloDev Report
  main fd = if eqb_ℤ fd (negsuc 0) then pure (record { status = 255; printed = [] }) else do
    original ← read_int torn (hello_read k 4) (pos 0)
    hello_write k 4
    again ← read_int torn (hello_read k 4) (pos 5)
    pure (record { status = 0; printed = original ∷ again ∷ [] })

  -- If the copies succeed and bring the user's 5, and neither read is interrupted, the program
  -- prints the value of the device, and then 5, which is then the value of the device; if the write
  -- is interrupted it prints the same value twice, and the device keeps it.
  pub main-printed :
      (fd : ℕ) (w : World HelloDev)
      → ((log : List Event) (v : ℤ) → k.number log (Calls.copy_to_user v) ≡ 0)
      → ((log : List Event) → k.number log Calls.copy_from_user ≡ 0)
      → ((log : List Event) → k.int log Calls.copy_from_user ≡ pos 5)
      → let first = hello_read k 4 w in
        let written = hello_write k 4 first.1 in
        let second = hello_read k 4 written.1 in
        let r = main (pos fd) w in
        first.0 ≢ erestartsys
        → second.0 ≢ erestartsys
        → (written.0 ≡ pos 4) × (r.0.printed ≡ w.dev.val ∷ pos 5 ∷ []) × (r.1.dev.val ≡ pos 5)
          ⊎ (written.0 ≡ erestartsys)
            × (r.0.printed ≡ w.dev.val ∷ w.dev.val ∷ [])
            × (r.1.dev ≡ w.dev)
  unfolding main hello_read hello_write
  main-printed fd w to_ok from_ok five calm_first calm_second =
      let down : World HelloDev → Event = λ w'. record {
        call = Calls.down_interruptible;
        ret = Calls.status_code (k.status w'.log Calls.down_interruptible);
        out = 0;
      } in
      let first = (hello_read k 4 w).1 in
      let written = (hello_write k 4 first).1 in
      ground (
        arith,
        to_ok (down w ∷ w.log) w.dev.val,
        from_ok (down first ∷ first.log),
        five
            (record { call = Calls.copy_from_user; ret = pos 0; out = 0 } ∷ down first ∷ first.log),
        to_ok (down written ∷ written.log) written.dev.val,
      )
