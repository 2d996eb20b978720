-- ===== src/Ft5x06/Decoding.antt =====
-- What the interrupt of ft5x06.c reports of the touch points in a message.
use learning_kernel.Prelude.{
  ℕ, ◌+◌, ◌*◌, ◌/◌, ◌%◌, ◌^◌, ◌<◌, ◌≡◌, refl, sym, ap, ◌∙◌, arith, List, [], ◌∷◌, ◌++◌, some, Bool,
  ◌==◌, if◌then◌else◌, drop, length, drop-append_eq, append_assoc, length-append,
}
use learning_kernel.Prelude.Bits.{bit_or, mask4, mask12, above}
use learning_kernel.Ft5x06.{
  Report, slot, slot_state, position_x, position_y, pointer_emulation, sync, touch_type, touch_x,
  touch_y, touch_id, report_point, report_points, edt_ft5426_ts_isr, max_support_points,
}

-- A touch point as the screen means it.
pub record Touch : Type 0 where
  pub kind : ℕ
  pub id : ℕ
  pub x : ℕ
  pub y : ℕ
  pub weight : ℕ
  pub area : ℕ

-- Two bits of kind, four of id and twelve of each coordinate.
abbrev pub IsTouch : Touch → Type 0
IsTouch t = (t.kind < 4) × (t.id < 16) × (t.x < 2 ^ 12) × (t.y < 2 ^ 12)

-- The first four bytes in which the screen sends a touch point, by the layout of its registers.
abbrev pub bytes_of : Touch → List ℕ
bytes_of t = (t.kind * 64 + t.y / 256) ∷ (t.y % 256) ∷ (t.id * 16 + t.x / 256) ∷ (t.x % 256) ∷ []

-- The bytes of a series of touch points, six for each; what follows the first four of the last
-- is `rest`, of which the message has only a part.
abbrev pub bytes_of_all : List Touch → List ℕ → List ℕ
bytes_of_all [] rest = rest
bytes_of_all (t ∷ []) rest = bytes_of t ++ rest
bytes_of_all (t ∷ u ∷ ts) rest = bytes_of t ++ t.weight ∷ t.area ∷ bytes_of_all (u ∷ ts) rest

-- What is to be reported of a touch point.
pub reports_of : Touch → List Report
reports_of t =
    if t.kind == 3
    then []
    else if t.kind == 1
    then slot t.id ∷ slot_state Bool.false ∷ []
    else slot t.id ∷ slot_state Bool.true ∷ position_x t.x ∷ position_y t.y ∷ []

module _ (t : Touch) (h : IsTouch t) (rest : List ℕ) where
  abbrev buf : List ℕ
  buf = bytes_of t ++ rest

  type_of : touch_type buf ≡ t.kind
  type_of = omega (arith, h)

  x_of : touch_x buf ≡ t.x
  x_of = omega (
    arith,
    h,
    mask12 (bit_or ((t.id * 16 + t.x / 256) * 2 ^ 8) (t.x % 256)),
    above 8 (t.id * 16 + t.x / 256) (t.x % 256) (omega arith),
  )

  y_of : touch_y buf ≡ t.y
  y_of = omega (
    arith,
    h,
    mask12 (bit_or ((t.kind * 64 + t.y / 256) * 2 ^ 8) (t.y % 256)),
    above 8 (t.kind * 64 + t.y / 256) (t.y % 256) (omega arith),
  )

  id_of : touch_id buf ≡ t.id
  id_of = omega (arith, h, mask4 ((t.id * 16 + t.x / 256) / 2 ^ 4))

  report_point-bytes_of : report_point buf ≡ reports_of t
  unfolding report_point reports_of
  report_point-bytes_of = ground (arith, type_of, x_of, y_of, id_of)

abbrev pub AllTouches : List Touch → Type 0
AllTouches [] = Unit {0}
AllTouches (t ∷ ts) = IsTouch t × AllTouches ts

pub reports_of_all : List Touch → List Report
reports_of_all [] = []
reports_of_all (t ∷ ts) = reports_of t ++ reports_of_all ts

first_report :
    (t : Touch) (seen tail : List ℕ) (n : ℕ)
    → IsTouch t
    → length seen ≡ n
    → report_point (drop n (seen ++ (bytes_of t ++ tail))) ≡ reports_of t
first_report t seen tail n h l =
    ap report_point (drop-append_eq n seen (bytes_of t ++ tail) l) ∙ report_point-bytes_of t h tail

-- The loop, when `seen` are the bytes of the rounds before.
report_points-bytes_of_all :
    (ts : List Touch) (rest seen : List ℕ) (i : ℕ)
    → AllTouches ts
    → length seen ≡ i * 6 + 1
    → report_points (length ts) i (seen ++ bytes_of_all ts rest) ≡ reports_of_all ts
unfolding report_points reports_of_all
report_points-bytes_of_all [] rest seen i h l = refl
report_points-bytes_of_all (t ∷ []) rest seen i h l =
    ap (λ rs. rs ++ []) (first_report t seen rest (i * 6 + 1) h.0 l)
report_points-bytes_of_all (t ∷ u ∷ ts) rest seen i h l =
    ap (λ rs. rs ++ report_points (length (u ∷ ts)) (i + 1) (seen ++ (six ++ later)))
      (first_report t seen (t.weight ∷ t.area ∷ later) (i * 6 + 1) h.0 l)
    ∙ ap (λ rs. reports_of t ++ rs)
        (ap (report_points (length (u ∷ ts)) (i + 1)) (sym (append_assoc seen six later))
          ∙ report_points-bytes_of_all (u ∷ ts) rest (seen ++ six) (i + 1) h.1
              (omega (arith, length-append seen six)))
  where
    later : List ℕ
    later = bytes_of_all (u ∷ ts) rest

    six : List ℕ
    six = bytes_of t ++ t.weight ∷ t.area ∷ []

-- Whatever five touch points the screen sends, the interrupt reports each of them in its slot: its
-- end, or that it is down and where, and a reserved one not at all; then the emulated pointer and
-- the end of the message.
pub edt_ft5426_ts_isr-bytes_of_all :
    (ts : List Touch) (status : ℕ) (rest : List ℕ)
    → length ts ≡ max_support_points
    → AllTouches ts
    → edt_ft5426_ts_isr (some (status ∷ bytes_of_all ts rest))
      ≡ reports_of_all ts ++ pointer_emulation ∷ sync ∷ []
unfolding edt_ft5426_ts_isr
edt_ft5426_ts_isr-bytes_of_all ts status rest l h =
    ap (λ rs. rs ++ pointer_emulation ∷ sync ∷ [])
      (ap (λ n. report_points n 0 (status ∷ bytes_of_all ts rest)) (sym l)
        ∙ report_points-bytes_of_all ts rest (status ∷ []) 0 h refl)
