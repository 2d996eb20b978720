-- ===== src/GlobalMem/Content.antt =====
-- What the calls of drivers/globalMem/global_mem.c read, write and accept.
use learning_kernel.Prelude.{
  ℕ, zero, suc, ◌+◌, ◌-◌, ◌*◌, ◌%◌, ◌^◌, ◌≤◌, ◌<◌, ◌≡◌, ◌⊎◌, refl, ap, ◌∙◌, true, ℤ, pos, List, [],
  take, drop, length, get_or, min, ltb, if◌then◌else◌, ◌||◌, ltb_ℤ, ◌+ℤ◌, is_neg, pos_part,
  to_ulong, to_loff, arith, take-append_eq, take_self,
}
use learning_kernel.Kernel.Errno.{einval}
use learning_kernel.Prelude.Splice.{splice, length-splice, drop-splice, get_or-splice}
use learning_kernel.Kernel.Uaccess.{Uaccess, got-all}
use learning_kernel.GlobalMem.{
  State, Reply, globalmem_size, clip, delivered, globalmem_read, globalmem_write, globalmem_llseek,
}
use learning_kernel.GlobalMem.Bounds.{IsValid}

-- The part of the memory that a read of `count` bytes at `p` asks for.
abbrev pub window : ℕ → ℕ → List ℕ → List ℕ
window p count mem = take (min count (globalmem_size - p)) (drop p mem)

-- The position as a number, for a valid state.
abbrev pub position : State → ℕ
position s = pos_part s.f_pos

-- What a transfer at a position in range is clipped to.
clip-min :
    (p size : ℕ)
    → p < globalmem_size
    → size < 2 ^ 32
    → clip (p % 2 ^ 64) (size % 2 ^ 32) ≡ min size (globalmem_size - p)
clip-min p size h b = ground arith

clip-room : (p size : ℕ) → p + size ≤ globalmem_size → clip (p % 2 ^ 64) (size % 2 ^ 32) ≡ size
clip-room p size h = ground arith

delivered-all : (u : Uaccess) (src : List ℕ) → u.to_left src ≡ 0 → delivered u src ≡ src
delivered-all u src h = take_self (length src - u.to_left src) src (omega arith)

-- A read at a valid position below the end: when the copy succeeds it delivers exactly the bytes
-- from the position on, as many as were asked for and are there, and moves the position past them.
pub read-window :
    (u : Uaccess) (size p : ℕ) (mem : List ℕ)
    → length mem ≡ globalmem_size
    → p < globalmem_size
    → size < 2 ^ 32
    → u.to_left (window p size mem) ≡ 0
    → globalmem_read u size (record { mem = mem; f_pos = pos p }) ≡ record {
      ret = pos (min size (globalmem_size - p));
      user = window p size mem;
      state = record { mem = mem; f_pos = pos (p + min size (globalmem_size - p)) };
    }
unfolding globalmem_read
read-window u size p mem l h b c =
    let e : p % 2 ^ 64 ≡ p = omega arith in
    ground (arith, clip-min p size h b, delivered-all u (window p size mem) c)

-- A read that returns an error code has moved no position and changed no byte of the memory.
read_failed :
    (u : Uaccess) (size : ℕ) (s : State)
    → is_neg (globalmem_read u size s).ret ≡ true
    → (globalmem_read u size s).state ≡ s
unfolding globalmem_read
read_failed u size s h = ground arith

write-splice :
    (u : Uaccess) (user : List ℕ) (p : ℕ) (mem : List ℕ)
    → p < globalmem_size
    → p + length user ≤ globalmem_size
    → u.from_left user (length user) ≡ 0
    → globalmem_write u user (length user) (record { mem = mem; f_pos = pos p }) ≡ record {
      ret = pos (length user);
      user = [];
      state = record { mem = splice p user mem; f_pos = pos (p + length user) };
    }
unfolding globalmem_write
write-splice u user p mem h b c =
    let e : p % 2 ^ 64 ≡ p = omega arith in
    ground (arith, clip-room p (length user) b, got-all u user c)

-- Where a seek asks to go: SEEK_SET is 0, and any other number is taken for SEEK_CUR.
abbrev pub target : ℤ → ℕ → State → ℤ
target offset zero s = offset
target offset (suc orig) s = to_loff (s.f_pos +ℤ offset)

-- For an offset below 2 ^ 32, a SEEK_SET or SEEK_CUR is accepted exactly if its target is within 0
-- and the memory's size, both included: it returns the target and moves there. A refused one
-- returns -EINVAL and changes nothing, and so does every other kind of seek.
pub llseek-target :
    (offset : ℤ) (orig : ℕ) (s : State)
    → pos_part offset < 2 ^ 32
    → globalmem_llseek offset orig s ≡ (
        if ltb 1 orig
          || is_neg (target offset orig s)
          || ltb_ℤ (pos globalmem_size) (target offset orig s)
        then record { ret = einval; user = []; state = s }
        else record {
          ret = target offset orig s;
          user = [];
          state = record s { f_pos = target offset orig s };
        })
unfolding globalmem_llseek
llseek-target offset zero s h = ground arith
llseek-target offset (suc zero) s h = ground arith
llseek-target offset (suc (suc orig)) s h = ground arith

llseek_inside :
    (s : State) (n : ℕ)
    → n ≤ globalmem_size
    → globalmem_llseek (pos n) 0 s
      ≡ record { ret = pos n; user = []; state = record s { f_pos = pos n } }
unfolding globalmem_llseek
llseek_inside s n h = ground arith

window-splice :
    (p : ℕ) (user mem : List ℕ)
    → p + length user ≤ globalmem_size
    → p ≤ length mem
    → window p (length user) (splice p user mem) ≡ user
window-splice p user mem h l =
    let e : min (length user) (globalmem_size - p) ≡ length user = omega arith in
    rw (e, drop-splice p user mem l) (take-append_eq (length user) user _ refl)

-- After a write of `user` that fits at a position of the memory, a seek to where it began and a
-- read of as many bytes, the user has the same bytes again, if both copies succeed.
pub write-read :
    (u : Uaccess) (user : List ℕ) (p : ℕ) (mem : List ℕ)
    → length mem ≡ globalmem_size
    → p < globalmem_size
    → p + length user ≤ globalmem_size
    → u.from_left user (length user) ≡ 0
    → u.to_left user ≡ 0
    → let written = globalmem_write u user (length user) (record { mem = mem; f_pos = pos p }) in
      let rewound = globalmem_llseek (pos p) 0 written.state in
      (globalmem_read u (length user) rewound.state).user ≡ user
write-read u user p mem l h b cf ct =
    let same = window-splice p user mem b (omega arith) in
    rw (write-splice u user p mem h b cf) (
      rw
        (llseek_inside (record { mem = splice p user mem; f_pos = pos (p + length user) }) p
          (omega arith))
        (ap (λ (r : Reply). r.user) again ∙ same))
  where
    mem' : List ℕ
    mem' = splice p user mem

    again : globalmem_read u (length user) (record { mem = mem'; f_pos = pos p }) ≡ record {
      ret = pos (min (length user) (globalmem_size - p));
      user = window p (length user) mem';
      state = record { mem = mem'; f_pos = pos (p + min (length user) (globalmem_size - p)) };
    }
    again =
        read-window u (length user) p mem' (length-splice p user mem (omega arith) ∙ l) h
          (omega arith) (rw (window-splice p user mem b (omega arith)) ct)

-- In a valid state, a write changes no byte before the position or after the range that it was
-- asked to write, whatever the copy leaves out.
pub write-frame :
    (u : Uaccess) (user : List ℕ) (size : ℕ) (s : State) (i : ℕ)
    → IsValid s
    → (i < position s) ⊎ (position s + size ≤ i)
    → get_or (globalmem_write u user size s).state.mem i 0 ≡ get_or s.mem i 0
unfolding globalmem_write
write-frame u user size s i v out =
    let n = clip (to_ulong s.f_pos) (size % 2 ^ 32) in
    ground (arith, u.length_got user n, get_or-splice (to_ulong s.f_pos) (u.got user n) s.mem i)

-- A seek from the start to an offset whose low 32 bits are within the memory's size is accepted,
-- and returns those, however large the offset is.
pub llseek_truncates :
    (s : State) (n m : ℕ)
    → n ≤ globalmem_size
    → (globalmem_llseek (pos (n + m * 2 ^ 32)) 0 s).ret ≡ pos n
unfolding globalmem_llseek
llseek_truncates s n m h = ground arith
