-- ===== src/Hello/Sharing.antt =====
-- Several processes on drivers/helloDev/hello.c at once: hello_read and hello_write, which copy `val`
-- byte by byte between `down_interruptible` and `up`, and __hello_get_val and __hello_set_val, which
-- read and write it at once. A move is what one process does between two points at which another
-- may come in.
mod Invariant
pub mod Serial
mod Examples
use learning_kernel.Prelude.{
  ℕ, zero, suc, Bool, true, false, List, [], ◌∷◌, ◌++◌, Option, none, some, length, replicate, ◌==◌,
  if◌then◌else◌,
}

-- `nothing` is a read or write whose count is refused; the bytes of a write are the user's, those of
-- `stores` the parsed number's.
pub data Request : Type 0 where
  reads shows nothing : Request
  writes stores : List ℕ → Request

-- Where a process is: before the semaphore, between `down_interruptible` and `out`, or at `up`.
-- `reading n got` has copied the first `n` bytes out, `writing done todo` has copied `done` in.
pub data Pc : Type 0 where
  idle : Pc
  waiting : Request → Pc
  reading : ℕ → List ℕ → Pc
  showing : Pc
  writing : List ℕ → List ℕ → Pc
  storing : List ℕ → Pc
  leaving : Pc

pub data Move : Type 0 where
  calls : Request → Move
  goes signalled faults : Move

-- What has happened to `val`: a read that delivered all of it, or bytes written from its start on.
pub data Access : Type 0 where
  read wrote : List ℕ → Access

-- `history` has the newest access first.
pub record System : Type 0 where
  pub sem : ℕ
  pub val : List ℕ
  pub threads : ℕ → Pc
  pub history : List Access

abbrev pub byte_at : ℕ → List ℕ → Option ℕ
byte_at n [] = none
byte_at zero (b ∷ bs) = some b
byte_at (suc n) (b ∷ bs) = byte_at n bs

abbrev pub set_byte : ℕ → ℕ → List ℕ → List ℕ
set_byte n v [] = []
set_byte zero v (b ∷ bs) = v ∷ bs
set_byte (suc n) v (b ∷ bs) = b ∷ set_byte n v bs

-- The first bytes replaced.
abbrev pub overlay : List ℕ → List ℕ → List ℕ
overlay [] old = old
overlay (b ∷ bs) [] = []
overlay (b ∷ bs) (o ∷ old) = b ∷ overlay bs old

abbrev pub put : ℕ → Pc → System → System
put i pc s = record s { threads = λ j. if i == j then pc else s.threads j }

abbrev pub note : Access → System → System
note a s = record s { history = a ∷ s.history }

pub enter : Request → Pc
enter reads = reading 0 []
enter shows = showing
enter nothing = leaving
enter (writes user) = writing [] user
enter (stores bytes) = storing bytes

-- `down_interruptible`: with the semaphore at 0 the process sleeps.
pub down : ℕ → Request → ℕ → System → System
unfolding enter
down i r zero s = s
down i r (suc n) s = put i (enter r) (record s { sem = n })

-- One byte of `copy_to_user`, or its end.
pub copy_out : ℕ → ℕ → List ℕ → Option ℕ → System → System
copy_out i n got none s = put i leaving (note (read got) s)
copy_out i n got (some b) s = put i (reading (suc n) (got ++ b ∷ [])) s

-- One byte of `copy_from_user`, or its end.
pub copy_in : ℕ → List ℕ → List ℕ → System → System
copy_in i done [] s = put i leaving (note (wrote done) s)
copy_in i done (b ∷ todo) s =
    put i (writing (done ++ b ∷ []) todo) (record s { val = set_byte (length done) b s.val })

-- The next move of a process. A copy may fault at any byte, and a signal ends a wait. A faulting
-- `copy_from_user` stores zeros for the bytes that it cannot copy.
pub turn : ℕ → Pc → Move → System → System
unfolding down copy_out copy_in
turn i idle (calls r) s = put i (waiting r) s
turn i (waiting r) goes s = down i r s.sem s
turn i (waiting r) signalled s = put i idle s
turn i (reading n got) goes s = copy_out i n got (byte_at n s.val) s
turn i (reading n got) faults s = put i leaving s
turn i showing goes s = put i leaving (note (read s.val) s)
turn i (writing done todo) goes s = copy_in i done todo s
turn i (writing done todo) faults s = put i (writing done (replicate (length todo) 0)) s
turn i (storing bytes) goes s =
    put i leaving (note (wrote bytes) (record s { val = overlay bytes s.val }))
turn i leaving goes s = put i idle (record s { sem = suc s.sem })
turn i _ _ s = s

-- Any interleaving: each move with the process that makes it.
pub interleave : List (ℕ × Move) → System → System
unfolding turn
interleave [] s = s
interleave ((i, m) ∷ rest) s = interleave rest (turn i (s.threads i) m s)

-- Inside `down_interruptible` and `up`.
abbrev pub critical : Pc → Bool
critical idle = false
critical (waiting r) = false
critical _ = true

-- Nobody has begun.
abbrev pub quiet : List ℕ → System
quiet initial = record { sem = 1; val = initial; threads = λ i. idle; history = [] }
