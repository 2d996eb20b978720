-- ===== src/Apps/Keys.antt =====
-- openedv/linux/stm32mp157/13_irq/keyirqApp.c and 14_blockio/blockioApp.c, which are the same
-- program, 15_noblockio/noblockioApp.c and 16_fasync/fasyncApp.c, each on its driver.
pub mod Changes
pub mod Hearing
pub mod Blocking
pub mod Losing
pub mod Holding
pub mod Sessions
pub mod Noblockio
pub mod Fasync
use learning_kernel.Prelude.{
  ℕ, zero, suc, ℤ, pos, Bool, List, [], ◌∷◌, ◌||◌, ◌&&◌, if◌then◌else◌, ◌/◌, ◌%◌, ◌==◌, not, negsuc,
  false, eqb_ℤ, is_neg,
}
use learning_kernel.Prelude.Bits.{bit_or}
use learning_kernel.Kernel.Calls
use learning_kernel.Kernel.Calls.{Event, Kernel}
use learning_kernel.Kernel.Run.{World, M, pure, ◌>>=◌, ◌>>◌}
use learning_kernel.Apps.{Line, User, Outcome, spoken, read_int, started}
use learning_kernel.IrqKeys.{KeyDev}
use learning_kernel.IrqKeys.Fasync as Driver

-- One round of a program: the samples of the line before its read, and the samples in the sleep of
-- the read before a signal ends the sleep.
pub record Round : Type 0 where
  pub before : ℕ
  pub during : ℕ

abbrev pub ticks : M KeyDev (Unit {0}) → ℕ → M KeyDev (Unit {0})
ticks tick zero = pure tt
ticks tick (suc n) = do tick; ticks tick n

-- The same for a program that sleeps in `select`: the samples before it, in it, and between its
-- return and the read.
pub record Waiting : Type 0 where
  pub before : ℕ
  pub asleep : ℕ
  pub between : ℕ

-- select(fd + 1, &readfds, NULL, NULL, NULL) on one file: the file is polled at first and after
-- each sample, until it is readable, 1, or a signal ends the sleep, -1.
abbrev pub select : M KeyDev (Unit {0}) → M KeyDev ℕ → ℕ → M KeyDev ℤ
select tick poll zero = do mask ← poll; if mask == 0 then pure (negsuc 0) else pure (pos 1)
select tick poll (suc n) =
    let rest = select tick poll n in
    do mask ← poll; if mask == 0 then (do tick; rest) else pure (pos 1)

-- FASYNC, and O_NONBLOCK in the flags of a file.
abbrev pub fasync : ℕ
fasync = 0x2000

abbrev pub nonblocking : ℕ → Bool
nonblocking flags = not (flags / 0x800 % 2 == 0)

abbrev killed : Calls.Call → ℕ → ℕ
killed Calls.kill_fasync n = suc n
killed _ n = n

abbrev pub kills : List Event → ℕ
kills [] = 0
kills (e ∷ es) = killed e.call (kills es)

-- SIGIO was sent between the two.
abbrev pub raised : World KeyDev → World KeyDev → Bool
raised w w' = not (kills w.log == kills w'.log)

module _ (torn : List Event → ℤ → ℤ) where
  -- The read and the two tests of `key_val`.
  abbrev pub read_and_print : M KeyDev ℤ → User → M KeyDev User
  read_and_print read u = do
    v ← read_int torn read u.key_val
    pure (record { key_val = v; out = spoken v u.out })

  module _ (tick : M KeyDev (Unit {0})) (read : ℕ → M KeyDev ℤ) where
    -- The loop of keyirqApp.c and blockioApp.c, for the given rounds.
    abbrev pub key_loop : List Round → User → M KeyDev User
    key_loop [] u = pure u
    key_loop (r ∷ rs) u = do
      ticks tick r.before
      u' ← read_and_print (read r.during) u
      key_loop rs u'

    -- `garbage` is what the uninitialised `key_val` holds.
    abbrev pub key_main : ℕ → ℤ → ℤ → List Round → World KeyDev → Outcome (User × World KeyDev)
    key_main argc fd garbage rs w =
        let r = key_loop rs (record { key_val = garbage; out = [] }) w in started argc fd r

  -- The body of noblockioApp.c's loop: nothing is read if `select` returns 0 or -1, and the only
  -- file in the set is readable if it returns anything else.
  module _ (tick : M KeyDev (Unit {0})) (poll : M KeyDev ℕ) (read : M KeyDev ℤ) where
    abbrev pub select_and_read : Waiting → User → M KeyDev User
    select_and_read r u = do
      ticks tick r.before
      ret ← select tick poll r.asleep
      if eqb_ℤ ret (pos 1) then (do ticks tick r.between; read_and_print read u) else pure u

    abbrev pub select_loop : List Waiting → User → M KeyDev User
    select_loop [] u = pure u
    select_loop (r ∷ rs) u = do u' ← select_and_read r u; select_loop rs u'

    abbrev pub select_main : ℕ → ℤ → ℤ → List Waiting → World KeyDev → Outcome (User × World KeyDev)
    select_main argc fd garbage rs w =
        let r = select_loop rs (record { key_val = garbage; out = [] }) w in started argc fd r

  -- The handler of SIGIO, whose `key_val` is 0 at first.
  abbrev pub sigio_signal_func : M KeyDev ℤ → List Line → M KeyDev (List Line)
  sigio_signal_func read out = do v ← read_int torn read (pos 0); pure (spoken v out)

  -- The loop of fasyncApp.c only sleeps. The handler runs when SIGIO is pending and the handler is
  -- not running; a driver's `kill_fasync` makes it pending.
  module _ (tick : M KeyDev (Unit {0})) (read : ℕ → M KeyDev ℤ) where
    abbrev pub handle : Bool → Round → Bool × List Line → M KeyDev (Bool × List Line)
    handle subscribed r (pending, out) w =
        let w' = (ticks tick r.before w).1 in
        let handled = sigio_signal_func (read r.during) out w' in
        if subscribed && (pending || raised w w')
        then ((raised w' handled.1, handled.0), handled.1)
        else ((false, out), w')

    abbrev pub handle_loop : Bool → List Round → Bool × List Line → M KeyDev (Bool × List Line)
    handle_loop subscribed [] s = pure s
    handle_loop subscribed (r ∷ rs) s = do s' ← handle subscribed r s; handle_loop subscribed rs s'

  -- `fd_flags` is what F_GETFD returns. F_SETFL asks the driver to send SIGIO and, if it does, makes
  -- the flags of the file, which is opened with O_NONBLOCK.
  abbrev pub fasync_main :
      Kernel
      → M KeyDev (Unit {0})
      → (Bool → ℕ → M KeyDev ℤ)
      → ℕ
      → ℤ
      → ℕ
      → List Round
      → World KeyDev
      → Outcome (User × World KeyDev)
  fasync_main k tick read argc fd fd_flags rs w =
      let subscribed = Driver.key_fasync k w in
      let flags = if is_neg subscribed.0 then 0x800 else bit_or fd_flags fasync in
      let r =
        handle_loop tick (read (nonblocking flags)) (not (is_neg subscribed.0)) rs (false, [])
          subscribed.1 in
      started argc fd (record { key_val = pos 0; out = r.0.1 }, r.1)
