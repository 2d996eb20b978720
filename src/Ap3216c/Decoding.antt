-- ===== src/Ap3216c/Decoding.antt =====
-- What the three readings of ap3216c.c make of the sensor's registers.
use learning_kernel.Prelude.{
  ℕ, ◌*◌, ◌/◌, ◌%◌, ◌^◌, ◌<◌, ◌≡◌, arith, pos, negsuc, List, Option, some, none, ◌∷◌, if◌then◌else◌,
  ◌==◌, not,
}
use learning_kernel.Prelude.Bits.{bit_and, bit_or, mask2, mask4, mask6, above, bit6}
use learning_kernel.Kernel.Calls
use learning_kernel.Kernel.Calls.{Kernel, Event}
use learning_kernel.Kernel.Run.{World}
use learning_kernel.Ap3216c.{
  Ap3216cDevice, irdata_low, irdata_high, alsdata_low, alsdata_high, psdata_low, psdata_high,
  read_pair, ap3216c_read_ir_data, ap3216c_read_als_data, ap3216c_read_ps_data, show_ir, show_als,
  show_ps,
}

-- Every transfer succeeds, and the sensor's registers are `regs`, a byte each.
pub record Serves (k : Kernel) (regs : ℕ → ℕ) : Type 0 where
  pub transfers : (log : List Event) (reg : ℕ) → k.int log (Calls.i2c_read reg) ≡ pos 2
  pub answers : (log : List Event) (reg : ℕ) → k.number log (Calls.i2c_read reg) ≡ regs reg
  pub bytes : (reg : ℕ) → regs reg < 2 ^ 8

module _ (k : Kernel) (regs : ℕ → ℕ) (serves : Serves k regs) (w : World Ap3216cDevice) where
  read_pair-regs :
      (low high : ℕ) (decode : ℕ → ℕ → Option ℕ)
      → (read_pair k low high decode w).0 ≡ decode (regs low) (regs high)
  unfolding read_pair
  read_pair-regs low high decode =
      let low_read : Event = record { call = Calls.i2c_read low; ret = pos 2; out = regs low } in
      let log : List Event = low_read ∷ w.log in
      ground (
        arith,
        serves.transfers w.log low,
        serves.answers w.log low,
        serves.bytes low,
        serves.transfers log high,
        serves.answers log high,
        serves.bytes high,
      )

  show_ir_reads :
      (v : ℕ)
      → v < 2 ^ 10
      → regs irdata_low % 4 ≡ v % 4
      → regs irdata_high ≡ v / 4
      → (show_ir k w).0 ≡ pos v
  unfolding show_ir ap3216c_read_ir_data
  show_ir_reads v b l h =
      let low = regs irdata_low in
      let high = regs irdata_high in
      ground (
        arith,
        read_pair-regs irdata_low irdata_high
            (λ l' h'. some (bit_or (h' * 2 ^ 2) (bit_and l' 0x3))),
        mask2 low,
        above 2 high (low % 4),
      )

  show_als_reads :
      (v : ℕ)
      → v < 2 ^ 16
      → regs alsdata_low ≡ v % 256
      → regs alsdata_high ≡ v / 256
      → (show_als k w).0 ≡ pos v
  unfolding show_als ap3216c_read_als_data
  show_als_reads v b l h =
      let low = regs alsdata_low in
      let high = regs alsdata_high in
      ground (
        arith,
        read_pair-regs alsdata_low alsdata_high (λ l' h'. some (bit_or (h' * 2 ^ 8) l')),
        above 8 high low,
      )

  show_ps_reads :
      (v : ℕ)
      → v < 2 ^ 10
      → regs psdata_low % 16 ≡ v % 16
      → regs psdata_high % 64 ≡ v / 16
      → (show_ps k w).0 ≡ (if regs psdata_low / 64 % 2 == 0 then pos v else negsuc 0)
  unfolding show_ps ap3216c_read_ps_data
  show_ps_reads v b l h =
      let low = regs psdata_low in
      let high = regs psdata_high in
      ground (
        arith,
        read_pair-regs psdata_low psdata_high (λ l' h'.
            if not (bit_and l' (2 ^ 6) == 0)
            then none
            else some (bit_or (bit_and h' 0x3F * 2 ^ 4) (bit_and l' 0xF))),
        bit6 low,
        mask4 low,
        mask6 high,
        above 4 (high % 64) (low % 16),
      )

  -- If every transfer succeeds and the registers hold an infrared intensity of ten bits (two of them
  -- low), an ambient light of sixteen (eight of them low) and a proximity of ten (four of them low),
  -- the three attributes print these, whatever the other bits of the registers hold; but the
  -- proximity is printed as -1 if bit 6 of its low register flags it as invalid.
  pub shows-registers :
      (ir als ps : ℕ)
      → (ir < 2 ^ 10) × (als < 2 ^ 16) × (ps < 2 ^ 10)
      → (regs irdata_low % 4 ≡ ir % 4) × (regs irdata_high ≡ ir / 4)
      → (regs alsdata_low ≡ als % 256) × (regs alsdata_high ≡ als / 256)
      → (regs psdata_low % 16 ≡ ps % 16) × (regs psdata_high % 64 ≡ ps / 16)
      → ((show_ir k w).0 ≡ pos ir)
        × ((show_als k w).0 ≡ pos als)
        × ((show_ps k w).0 ≡ (if regs psdata_low / 64 % 2 == 0 then pos ps else negsuc 0))
  shows-registers ir als ps b i a p =
      (show_ir_reads ir b.0 i.0 i.1, show_als_reads als b.1 a.0 a.1, show_ps_reads ps b.2 p.0 p.1)
