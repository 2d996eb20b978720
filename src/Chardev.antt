-- ===== src/Chardev.antt =====
-- drivers/chrdev/chardev.c: a buffer of 60 bytes behind a character device.
pub mod Bounds
pub mod Content
pub mod Module
mod Examples
use learning_kernel.Prelude.{
  ℕ, zero, suc, ◌+◌, ◌-◌, ℤ, pos, negsuc, List, [], ◌∷◌, ◌++◌, take, drop, replicate, length,
  Option, none, some, Bool, ◌||◌, leb, ltb, ◌==◌, if◌then◌else◌, to_ulong, to_loff, to_int, is_neg,
  eqb_ℤ, ltb_ℤ, ◌+ℤ◌, ◌-ℤ◌, pos_part,
}
use learning_kernel.Prelude.Splice.{splice}
use learning_kernel.Kernel.Errno.{enospc}
use learning_kernel.Kernel.Uaccess.{Uaccess}

-- MAX_LENGTH
abbrev pub max_length : ℕ
max_length = 60

-- `device_buf` and the position of the one open file.
pub record State : Type 0 where
  pub device_buf : List ℕ
  pub f_pos : ℤ

pub record Reply : Type 0 where
  pub ret : ℤ
  pub user : List ℕ
  pub state : State

abbrev reply : ℤ → List ℕ → State → Reply
reply r user s = record { ret = r; user = user; state = s }

-- (int)(MAX_LENGTH - *ppos)
abbrev pub maxbytes : ℤ → ℤ
maxbytes ppos = to_int (pos max_length -ℤ ppos)

-- `bytes_to_read` and `bytes_to_write`: the comparison is one of unsigned longs, and the result is
-- an int.
abbrev pub bytes_to_move : ℤ → ℕ → ℤ
bytes_to_move ppos lbuf =
    if ltb lbuf (to_ulong (maxbytes ppos)) then to_int (pos lbuf) else maxbytes ppos

-- `n` bytes at `at` do not lie in `device_buf`.
abbrev pub outside : ℤ → ℤ → Bool
outside at n = is_neg at || is_neg n || ltb max_length (pos_part at + pos_part n)

read_bytes : Uaccess → ℕ → State → Reply
read_bytes u n s =
    let src = take n s.device_buf in
    let nbytes : ℕ = n - u.to_left src in
    reply (pos nbytes) (take nbytes src) (record s { f_pos = s.f_pos +ℤ pos nbytes })

-- `none` is an access outside `device_buf`. The copy starts at its first byte, whatever `*ppos` is.
pub device_read : Uaccess → ℕ → State → Option Reply
unfolding read_bytes
device_read u lbuf s =
    let n = bytes_to_move s.f_pos lbuf in
    if eqb_ℤ n (pos 0)
    then some (reply enospc [] s)
    else if outside (pos 0) n
    then none
    else some (read_bytes u (pos_part n) s)

write_bytes : Uaccess → List ℕ → ℕ → State → Reply
write_bytes u user n s =
    let nbytes : ℕ = n - u.from_left user n in
    reply (pos nbytes) [] (record {
      device_buf = splice (pos_part s.f_pos) (u.got user n) s.device_buf;
      f_pos = s.f_pos +ℤ pos nbytes;
    })

pub device_write : Uaccess → List ℕ → ℕ → State → Option Reply
unfolding write_bytes
device_write u user lbuf s =
    let n = bytes_to_move s.f_pos lbuf in
    if eqb_ℤ n (pos 0)
    then some (reply enospc [] s)
    else if outside s.f_pos n
    then none
    else some (write_bytes u user (pos_part n) s)

-- SEEK_SET, SEEK_CUR and SEEK_END are 0, 1 and 2; any other leaves `new_pos` at 0. The kernel is
-- compiled so that the sums of loff_t wrap around.
abbrev pub new_pos : ℤ → ℕ → State → ℤ
new_pos offset zero s = offset
new_pos offset (suc zero) s = to_loff (s.f_pos +ℤ offset)
new_pos offset (suc (suc zero)) s = to_loff (pos max_length +ℤ offset)
new_pos offset (suc (suc (suc whence))) s = pos 0

abbrev pub clamp : ℤ → ℤ
clamp p =
    let p' : ℤ = if ltb_ℤ (pos max_length) p then pos max_length else p in
    if is_neg p' then pos 0 else p'

unfoldable pub device_lseek : ℤ → ℕ → State → Reply
device_lseek offset whence s =
    let p = clamp (new_pos offset whence s) in reply p [] (record s { f_pos = p })

-- `major` is what `register_chrdev` returned. The buffer is cleared only if that succeeded.
pub init_device : ℤ → State → Reply
init_device major s =
    if is_neg major
    then reply major [] s
    else reply (pos 0) [] (record s { device_buf = replicate max_length 0 })

pub data Operation : Type 0 where
  reads : ℕ → Operation
  writes : List ℕ → ℕ → Operation
  seeks : ℤ → ℕ → Operation

-- fops
pub step : Uaccess → Operation → State → Option Reply
step u (reads lbuf) s = device_read u lbuf s
step u (writes user lbuf) s = device_write u user lbuf s
step u (seeks offset whence) s = some (device_lseek offset whence s)

-- `none` if some access was outside the buffer.
pub run : Uaccess → List Operation → State → Option State
run u [] s = some s
run u (o ∷ os) s = elim (step u o s) [ none ↦ none | some r ↦ run u os r.state ]
