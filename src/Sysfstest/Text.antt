-- ===== src/Sysfstest/Text.antt =====
-- What the attribute of sysfstest.c keeps of a text.
use learning_kernel.Prelude.{
  ℕ, ◌+◌, Bool, true, not, ◌&&◌, List, [], ◌∷◌, length, Option, some, none, ◌≡◌, refl, arith, leb,
  if◌then◌else◌, ◌==◌,
}
use mathlib.Core.Option
use learning_kernel.Sysfstest.{Sysfstest, percent, formatted, system_name_show, system_name_store}

-- No character is a percent sign.
abbrev pub plain : List ℕ → Bool
plain [] = true
plain (c ∷ cs) = not (c == percent) && plain cs

formatted-plain : (text : List ℕ) → plain text ≡ true → formatted text ≡ some text
unfolding formatted
formatted-plain [] h = refl
formatted-plain (c ∷ []) h = ground arith
formatted-plain (c ∷ d ∷ cs) h = ground (arith, formatted-plain (d ∷ cs))

-- The text that the show function gives after a store.
abbrev pub shown_after : Option (ℕ × Sysfstest) → Option (ℕ × List ℕ)
shown_after = Option.map (λ r. (r.0, system_name_show r.1))

-- A text without a percent sign is shown again after a store of it, with its length as the result, if
-- it fits into 256 bytes with its 0; a longer one passes the end of the buffer.
pub store-show :
    (text : List ℕ) (d : Sysfstest)
    → plain text ≡ true
    → shown_after (system_name_store text d)
      ≡ (if leb (length text + 1) 256 then some (length text, text) else none)
unfolding system_name_store system_name_show
store-show text d h = ground (arith, formatted-plain text h)
