-- ===== src/GlobalMem.antt =====
-- drivers/globalMem/global_mem.c: a memory of 0x1000 bytes behind a character device, with its file
-- operations; GlobalMem/Registration has the loading of the module.
pub mod Bounds
pub mod Registration
pub mod Content
mod Examples
use learning_kernel.Prelude.{
  ℕ, zero, suc, ◌+◌, ◌-◌, ◌%◌, ◌^◌, ℤ, pos, Option, none, some, List, [], ◌++◌, take, drop,
  replicate, length, leb, ltb, ◌==◌, if◌then◌else◌, to_ulong, to_loff, to_uint, is_neg, ltb_ℤ, ◌+ℤ◌,
}
use learning_kernel.Prelude.Splice.{splice}
use learning_kernel.Kernel.Errno.{einval, enxio, enotty, efault}
use learning_kernel.Kernel.Uaccess.{Uaccess}

-- GLOBALMEM_SIZE
abbrev pub globalmem_size : ℕ
globalmem_size = 0x1000

-- MEM_CLEAR
abbrev pub mem_clear : ℕ
mem_clear = 1

-- The device's memory and the position of the one open file.
pub record State : Type 0 where
  pub mem : List ℕ
  pub f_pos : ℤ

-- The returned value, the bytes that reached the user's buffer, and the state after the call.
pub record Reply : Type 0 where
  pub ret : ℤ
  pub user : List ℕ
  pub state : State

abbrev reply : ℤ → List ℕ → State → Reply
reply r user s = record { ret = r; user = user; state = s }

-- `count` after the two tests: the bytes that a transfer at `p` moves.
abbrev pub clip : ℕ → ℕ → ℕ
clip p count = if ltb (globalmem_size - p) count then globalmem_size - p else count

-- The bytes that a copy of `src` brings to the user.
abbrev pub delivered : Uaccess → List ℕ → List ℕ
delivered u src = take (length src - u.to_left src) src

-- `size` is a size_t and `count` an unsigned int.
pub globalmem_read : Uaccess → ℕ → State → Reply
globalmem_read u size s =
    let p = to_ulong s.f_pos in
    let count : ℕ = size % 2 ^ 32 in
    if leb globalmem_size p
    then reply (if count == 0 then pos 0 else enxio) [] s
    else let n : ℕ = clip p count in
      let src = take n (drop p s.mem) in
      if u.to_left src == 0
      then reply (pos n) (delivered u src) (record s { f_pos = s.f_pos +ℤ pos n })
      else reply efault (delivered u src) s

pub globalmem_write : Uaccess → List ℕ → ℕ → State → Reply
globalmem_write u user size s =
    let p = to_ulong s.f_pos in
    let count : ℕ = size % 2 ^ 32 in
    if leb globalmem_size p
    then reply (if count == 0 then pos 0 else enxio) [] s
    else let n : ℕ = clip p count in
      let s' : State = record s { mem = splice p (u.got user n) s.mem } in
      if u.from_left user n == 0
      then reply (pos n) [] (record s' { f_pos = s.f_pos +ℤ pos n })
      else reply efault [] s'

-- SEEK_SET is 0 and SEEK_CUR is 1; SEEK_END is refused like any other. The kernel is compiled so that
-- the sum of loff_t wraps around.
pub globalmem_llseek : ℤ → ℕ → State → Reply
globalmem_llseek offset zero s =
    if is_neg offset
    then reply einval [] s
    else if ltb globalmem_size (to_uint offset)
    then reply einval [] s
    else reply (pos (to_uint offset)) [] (record s { f_pos = pos (to_uint offset) })
globalmem_llseek offset (suc zero) s =
    if ltb_ℤ (pos globalmem_size) (to_loff (s.f_pos +ℤ offset))
    then reply einval [] s
    else if is_neg (to_loff (s.f_pos +ℤ offset))
    then reply einval [] s
    else reply (to_loff (s.f_pos +ℤ offset)) [] (record s { f_pos = to_loff (s.f_pos +ℤ offset) })
globalmem_llseek offset (suc (suc orig)) s = reply einval [] s

-- With the arguments that it is written for.
pub globalmem_ioctl : ℕ → State → Reply
globalmem_ioctl cmd s =
    if cmd == mem_clear
    then reply (pos 0) [] (record s { mem = replicate globalmem_size 0 })
    else reply einval [] s

-- A command and its argument come by the `ioctl` of a process of the kernel's own word size, or by
-- that of a 32-bit process on a 64-bit kernel.
pub data Operation : Type 0 where
  reads : ℕ → Operation
  writes : List ℕ → ℕ → Operation
  seeks : ℤ → ℕ → Operation
  ioctls : ℕ → ℕ → Operation
  compat_ioctls : ℕ → ℕ → Operation

-- globalmem_fops: it has no `unlocked_ioctl`, and `globalmem_ioctl` stands for `compat_ioctl`, which
-- the kernel calls with the file, the command and the argument. `globalmem_ioctl` takes these for its
-- inode, file and command, and follows the command as a pointer: `none`.
pub step : Uaccess → Operation → State → Option Reply
step u (reads size) s = some (globalmem_read u size s)
step u (writes user size) s = some (globalmem_write u user size s)
step u (seeks offset orig) s = some (globalmem_llseek offset orig s)
step u (ioctls cmd arg) s = some (reply enotty [] s)
step u (compat_ioctls cmd arg) s = none

pub run : Uaccess → List Operation → State → Option State
run u [] s = some s
run u (List.◌∷◌ o os) s = elim (step u o s) [ none ↦ none | some r ↦ run u os r.state ]

-- A fresh device, opened once.
pub fresh : State
fresh = record { mem = replicate globalmem_size 0; f_pos = pos 0 }
