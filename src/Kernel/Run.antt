-- ===== src/Kernel/Run.antt =====
-- A driver's function as an action on the driver's state and the log of its kernel calls.
use learning_kernel.Prelude.{ℕ, ◌%◌, ◌^◌, ℤ, pos, String, List, ◌∷◌, Option}
use learning_kernel.Kernel.Calls.{Call, Event, Kernel, status_code, pointer_code, object_code}

pub record World (S : Type 0) : Type 0 where
  pub dev : S
  pub log : List Event  -- newest first

abbrev pub M : Type 0 → Type 0 → Type 0
M S A = World S → A × World S

abbrev pub pure : {S A : Type 0} → A → M S A
pure a w = (a, w)

infixl 5 ◌>>=◌ ◌>>◌
abbrev pub ◌>>=◌ : {S A B : Type 0} → M S A → (A → M S B) → M S B
◌>>=◌ m f w = f (m w).0 (m w).1

abbrev pub ◌>>◌ : {S A B : Type 0} → M S A → M S B → M S B
◌>>◌ m n w = n (m w).1

abbrev pub get : {S : Type 0} → M S S
get w = (w.dev, w)

abbrev pub modify : {S : Type 0} → (S → S) → M S (Unit {0})
modify f w = (tt, record w { dev = f w.dev })

abbrev event : Call → ℤ → ℕ → Event
event c r out = record { call = c; ret = r; out = out }

abbrev pub record_call : {S : Type 0} → World S → Call → ℤ → ℕ → World S
record_call w c r out = record w { log = event c r out ∷ w.log }

-- A function over a part of the state, as a function over the state.
abbrev pub zoom : {S T A : Type 0} → (S → T) → (T → S → S) → M T A → M S A
zoom part set m w =
    let r = m (record { dev = part w.dev; log = w.log }) in
    (r.0, record { dev = set r.1.dev w.dev; log = r.1.log })

module _ (k : Kernel) {S : Type 0} where
  -- A call made for its effect alone.
  abbrev pub run_call : Call → M S (Unit {0})
  run_call c w = (tt, record_call w c (pos 0) 0)

  -- 0 or a negative error code.
  abbrev pub call_status : Call → M S ℤ
  call_status c w = let r : ℤ = status_code (k.status w.log c) in (r, record_call w c r 0)

  -- A pointer or an error pointer, as a signed machine word.
  abbrev pub call_pointer : Call → M S ℤ
  call_pointer c w = let r : ℤ = pointer_code (k.pointer w.log c) in (r, record_call w c r 0)

  -- A pointer or NULL.
  abbrev pub call_object : Call → M S (Option ℕ)
  call_object c w = (k.object w.log c, record_call w c (object_code (k.object w.log c)) 0)

  -- Any int.
  abbrev pub call_int : Call → M S ℤ
  call_int c w = (k.int w.log c, record_call w c (k.int w.log c) 0)

  -- An unsigned value.
  abbrev pub call_number : Call → M S ℕ
  call_number c w = (k.number w.log c, record_call w c (pos (k.number w.log c)) 0)

  -- 0 or a negative error code, with a number stored through a pointer argument.
  abbrev pub call_status_out : Call → M S (ℤ × ℕ)
  call_status_out c w =
      let r : ℤ = status_code (k.status w.log c) in
      ((r, k.number w.log c), record_call w c r (k.number w.log c))

  -- The same with a string.
  abbrev pub call_status_text : Call → M S (ℤ × String)
  call_status_text c w =
      let r : ℤ = status_code (k.status w.log c) in ((r, k.text w.log c), record_call w c r 0)

  -- Any int, with a byte stored through a pointer argument.
  abbrev pub call_int_out : Call → M S (ℤ × ℕ)
  call_int_out c w =
      let byte : ℕ = k.number w.log c % 2 ^ 8 in
      ((k.int w.log c, byte), record_call w c (k.int w.log c) byte)

  -- The bytes that a call leaves in a buffer, with a result that is 0 or a negative error code.
  abbrev pub call_status_bytes : Call → M S (ℤ × List ℕ)
  call_status_bytes c w =
      let r : ℤ = status_code (k.status w.log c) in ((r, k.bytes w.log c), record_call w c r 0)

  -- The same with any int as the result.
  abbrev pub call_int_bytes : Call → M S (ℤ × List ℕ)
  call_int_bytes c w = ((k.int w.log c, k.bytes w.log c), record_call w c (k.int w.log c) 0)

  -- A 32-bit word.
  abbrev pub call_word : Call → M S ℕ
  call_word c w = let v : ℕ = k.number w.log c % 2 ^ 32 in (v, record_call w c (pos v) 0)
