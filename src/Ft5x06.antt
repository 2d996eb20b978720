-- ===== src/Ft5x06.antt =====
-- openedv/linux/stm32mp157/23_multitouch/ft5x06.c: the interrupt of a touch screen, which reads up
-- to five touch points over I2C and reports them to the input layer. Bytes are numbers below 256.
pub mod Decoding
pub mod Driver
mod Examples
use learning_kernel.Prelude.{
  ℕ, zero, suc, ◌+◌, ◌*◌, ◌/◌, ◌^◌, ◌≡◌, List, [], ◌∷◌, ◌++◌, Option, none, some, Bool, true, false,
  not, if◌then◌else◌, ◌==◌, get_or, drop,
}
use learning_kernel.Prelude.Bits.{bit_and, bit_or}

-- MAX_SUPPORT_POINTS
abbrev pub max_support_points : ℕ
max_support_points = 5

-- The kinds of touch event.
abbrev pub touch_event_up : ℕ
touch_event_up = 1

abbrev pub touch_event_reserved : ℕ
touch_event_reserved = 3

-- The reports to the input layer, in the order in which they are made.
pub data Report : Type 0 where
  slot : ℕ → Report
  slot_state : Bool → Report
  position_x position_y : ℕ → Report
  pointer_emulation : Report
  sync : Report

-- The locals of one round of the loop: `buf` is what `&rdbuf[i * 6 + 1]` points to.
abbrev pub touch_type : List ℕ → ℕ
touch_type buf = get_or buf 0 0 / 2 ^ 6

abbrev pub touch_x : List ℕ → ℕ
touch_x buf = bit_and (bit_or (get_or buf 2 0 * 2 ^ 8) (get_or buf 3 0)) 0xFFF

abbrev pub touch_y : List ℕ → ℕ
touch_y buf = bit_and (bit_or (get_or buf 0 0 * 2 ^ 8) (get_or buf 1 0)) 0xFFF

abbrev pub touch_id : List ℕ → ℕ
touch_id buf = bit_and (get_or buf 2 0 / 2 ^ 4) 0xF

-- One round of the loop.
pub report_point : List ℕ → List Report
report_point buf =
    let down = not (touch_type buf == touch_event_up) in
    if touch_type buf == touch_event_reserved
    then []
    else slot (touch_id buf)
      ∷ slot_state down
      ∷ (if not down then [] else position_x (touch_x buf) ∷ position_y (touch_y buf) ∷ [])

-- `left` rounds from the `i`th on.
pub report_points : ℕ → ℕ → List ℕ → List Report
report_points zero i rdbuf = []
report_points (suc left) i rdbuf =
    report_point (drop (i * 6 + 1) rdbuf) ++ report_points left (i + 1) rdbuf

-- `read` is what edt_ft5426_ts_read brought into `rdbuf`: nothing if the transfer failed.
pub edt_ft5426_ts_isr : Option (List ℕ) → List Report
edt_ft5426_ts_isr none = []
edt_ft5426_ts_isr (some rdbuf) =
    report_points max_support_points 0 rdbuf ++ pointer_emulation ∷ sync ∷ []
