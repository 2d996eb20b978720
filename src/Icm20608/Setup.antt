-- ===== src/Icm20608/Setup.antt =====
-- What icm20608.c writes to the sensor's registers, and what it holds of the kernel's resources.
use learning_kernel.Prelude.{
  ℕ, Bool, true, ◌&&◌, List, [], ◌∷◌, ◌++◌, ◌≡◌, sym, ◌∙◌, ap, append_assoc, arith, none, some,
  is_nonzero, if◌then◌else◌, not,
}
use learning_kernel.Kernel.Calls
use learning_kernel.Kernel.Calls.{Kernel, Event, Call, status_code}
use learning_kernel.Kernel.Run.{World, M, pure, ◌>>◌, run_call, call_status}
use learning_kernel.Kernel.Ledger.{Resource, ledger}
use learning_kernel.Prelude.Bits.{bit_and}
use learning_kernel.Icm20608.{
  Icm20608Device, icm20608_write_onereg, icm20608_read_onereg, icm20608_reginit, icm20608_probe,
  icm20608_remove,
}

-- A command with its bit 7 clear writes the bytes after it to the registers from that one on; the
-- driver sends one.
abbrev sent_by : Event → List (ℕ × ℕ)
sent_by e = elim e.call [
  | Calls.spi_write bytes ↦ elim bytes [
    | [] ↦ []
    | reg ∷ values ↦ elim values [ [] ↦ [] | value ∷ more ↦ (reg, value) ∷ [] ]
  ]
  | _ ↦ []
]

-- The registers written, with their values, the last first.
abbrev pub programmed : List Event → List (ℕ × ℕ)
programmed [] = []
programmed (e ∷ es) = sent_by e ++ programmed es

-- No memory was missing and no transfer has failed.
abbrev fine : Event → Bool
fine e = elim e.call [
  | Calls.kmalloc ↦ is_nonzero e.ret
  | Calls.spi_write bytes ↦ not (is_nonzero e.ret)
  | _ ↦ true
]

abbrev pub flawless : List Event → Bool
flawless [] = true
flawless (e ∷ es) = fine e && flawless es

-- Reset, wake up, and the eight settings, the last first.
abbrev pub settings : List (ℕ × ℕ)
settings =
    (0x23, 0x00)
    ∷ (0x1E, 0x00)
    ∷ (0x6C, 0x00)
    ∷ (0x1D, 0x04)
    ∷ (0x1A, 0x04)
    ∷ (0x1C, 0x18)
    ∷ (0x1B, 0x18)
    ∷ (0x19, 0x00)
    ∷ (0x6B, 0x01)
    ∷ (0x6B, 0x80)
    ∷ []

-- A step that writes to just these registers, if nothing fails, holds nothing after it, and leaves
-- the device as it was.
pub record Programs (m : M Icm20608Device (Unit {0})) (xs : List (ℕ × ℕ)) : Type 0 where
  pub wrote :
      (w : World Icm20608Device)
      → flawless (m w).1.log ≡ true
      → (flawless w.log ≡ true) × (programmed (m w).1.log ≡ xs ++ programmed w.log)
  pub kept :
      (w : World Icm20608Device) (rs : List Resource)
      → ledger w.log ≡ some rs
      → ledger (m w).1.log ≡ some rs
  pub same_dev : (w : World Icm20608Device) → (m w).1.dev ≡ w.dev

and_then-Programs :
    {m n : M Icm20608Device (Unit {0})} {xs ys : List (ℕ × ℕ)}
    → Programs m xs
    → Programs n ys
    → Programs (m >> n) (ys ++ xs)
and_then-Programs {m} {n} {xs} {ys} p q = record {
  wrote = λ w f.
      let before = q.wrote (m w).1 f in
      let first = p.wrote w before.0 in
      (first.0, before.1 ∙ ap (λ l. ys ++ l) first.1 ∙ sym (append_assoc ys xs (programmed w.log)));
  kept = λ w rs h. q.kept (m w).1 rs (p.kept w rs h);
  same_dev = λ w. q.same_dev (m w).1 ∙ p.same_dev w;
}

module _ (k : Kernel) where
  onereg-Programs :
      (reg value : ℕ)
      → Programs (icm20608_write_onereg k reg value) ((bit_and reg 0x7F, value) ∷ [])
  unfolding icm20608_write_onereg
  onereg-Programs reg value = record {
    wrote = λ w f. ground arith;
    kept = λ w rs h. ground arith;
    same_dev = λ w. ground arith;
  }

  mdelay-Programs : (ms : ℕ) → Programs (run_call k (Calls.mdelay ms)) []
  mdelay-Programs ms = record {
    wrote = λ w f. ground arith;
    kept = λ w rs h. ground arith;
    same_dev = λ w. ground arith;
  }

  read-Programs : (reg : ℕ) → Programs (do icm20608_read_onereg k reg; pure tt) []
  unfolding icm20608_read_onereg
  read-Programs reg = record {
    wrote = λ w f. ground arith;
    kept = λ w rs h. ground arith;
    same_dev = λ w. ground arith;
  }

  pub reginit-Programs : Programs (icm20608_reginit k) settings
  unfolding icm20608_reginit
  reginit-Programs = and_then-Programs (onereg-Programs 0x6B 0x80) (
      and_then-Programs (mdelay-Programs 50) (
        and_then-Programs (onereg-Programs 0x6B 0x01) (
          and_then-Programs (mdelay-Programs 50) (
            and_then-Programs (read-Programs 0x75) (
              and_then-Programs (onereg-Programs 0x19 0x00) (
                and_then-Programs (onereg-Programs 0x1B 0x18) (
                  and_then-Programs (onereg-Programs 0x1C 0x18) (
                    and_then-Programs (onereg-Programs 0x1A 0x04) (
                      and_then-Programs (onereg-Programs 0x1D 0x04) (
                        and_then-Programs (onereg-Programs 0x6C 0x00) (
                          and_then-Programs (onereg-Programs 0x1E 0x00)
                            (onereg-Programs 0x23 0x00))))))))))))

module _ (k : Kernel) (w : World Icm20608Device) where
  -- When no memory is missing and no transfer fails up to the end of it, the initialisation writes
  -- the reset, the wake-up and the eight settings to their registers, each once and in this order,
  -- and nothing else.
  pub reginit-settings :
      flawless (icm20608_reginit k w).1.log ≡ true
      → programmed (icm20608_reginit k w).1.log ≡ settings ++ programmed w.log
  reginit-settings f = ((reginit-Programs k).wrote w f).1

  -- What comes before the initialisation in the probe.
  abbrev pub registered : ℕ → World Icm20608Device
  registered spi = record {
    dev = record { spi = some spi };
    log = (call_status k Calls.spi_setup (call_status k Calls.misc_register w).1).1.log;
  }

  -- For a driver that holds nothing at first: a probe, whose result is 0 in any case, and a remove
  -- give back everything once if misc_register succeeds; if it fails, the remove gives back a
  -- misc device that was never registered.
  pub probe-remove :
      (spi : ℕ)
      → ledger w.log ≡ some []
      → ledger (icm20608_remove k (icm20608_probe k spi w).1).1.log
        ≡ (if is_nonzero (status_code (k.status w.log Calls.misc_register)) then none else some [])
  unfolding icm20608_probe icm20608_remove
  probe-remove spi h = ground (
    arith,
    (reginit-Programs k).kept (registered spi) [],
    (reginit-Programs k).kept (registered spi) (Resource.misc ∷ []),
  )
