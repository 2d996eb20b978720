-- ===== src/Chardev/Content.antt =====
-- What the calls of drivers/chrdev/chardev.c read and write.
use learning_kernel.Prelude.{
  ℕ, ◌+◌, ◌-◌, ◌≤◌, ◌<◌, ◌^◌, ◌≡◌, ◌⊎◌, refl, ◌∙◌, ℤ, pos, List, [], take, true, some, none, min,
  length, is_neg, arith, length-take, take_self, take-append_eq, ◌≤ℤ◌,
}
use learning_kernel.Prelude.Splice.{splice, length-splice}
use learning_kernel.Kernel.Uaccess.{Uaccess, got-all}
use learning_kernel.Chardev.{
  State, max_length, bytes_to_move, device_read, device_write, device_lseek, new_pos,
}

-- Bytes that one transfer at `p` moves.
abbrev pub moved : ℕ → ℕ → ℕ
moved p lbuf = min lbuf (max_length - p)

move-moved : (p lbuf : ℕ) → p ≤ max_length → bytes_to_move (pos p) lbuf ≡ pos (moved p lbuf)
move-moved p lbuf h = ground arith

-- A read at a position in range, with a copy that succeeds, delivers as many bytes as were asked
-- for and are left from the position on; but they are always the first bytes of the buffer, not
-- those at the position.
pub read_from_start :
    (u : Uaccess) (lbuf p : ℕ) (buf : List ℕ)
    → length buf ≡ max_length
    → p < max_length
    → 0 < lbuf
    → u.to_left (take (moved p lbuf) buf) ≡ 0
    → device_read u lbuf (record { device_buf = buf; f_pos = pos p })
      ≡ some (record {
        ret = pos (moved p lbuf);
        user = take (moved p lbuf) buf;
        state = record { device_buf = buf; f_pos = pos (p + moved p lbuf) };
      })
unfolding device_read
read_from_start u lbuf p buf l h b c = ground (
  arith,
  move-moved p lbuf,
  take_self (moved p lbuf) (take (moved p lbuf) buf),
  length-take (moved p lbuf) buf,
)

-- At a position past the end, which pread can pass, and below 2 ^ 31, a read of more than the whole
-- buffer leaves the buffer: the room left becomes a large unsigned number.
pub read_past_end :
    (u : Uaccess) (lbuf p : ℕ) (buf : List ℕ)
    → max_length < p
    → p < 2 ^ 31
    → max_length < lbuf
    → lbuf < 2 ^ 31
    → device_read u lbuf (record { device_buf = buf; f_pos = pos p }) ≡ none
unfolding device_read
read_past_end u lbuf p buf h b l m = ground arith

-- lseek goes to the position that was asked for if the buffer has it, and to the nearest end if not.
pub lseek-nearest :
    (offset : ℤ) (whence : ℕ) (s : State)
    → let p = (device_lseek offset whence s).ret in
      let q = new_pos offset whence s in
      ((device_lseek offset whence s).state.f_pos ≡ p)
      × (pos 0 ≤ℤ p)
      × (p ≤ℤ pos max_length)
      × ((p ≡ q)
          ⊎ ((p ≡ pos 0) × (is_neg q ≡ true))
          ⊎ ((p ≡ pos max_length) × (pos max_length ≤ℤ q)))
unfolding device_lseek
lseek-nearest offset whence s = ground arith

pub write-splice :
    (u : Uaccess) (user buf : List ℕ) (p : ℕ)
    → 0 < length user
    → p + length user ≤ max_length
    → u.from_left user (length user) ≡ 0
    → device_write u user (length user) (record { device_buf = buf; f_pos = pos p })
      ≡ some (record {
        ret = pos (length user);
        user = [];
        state = record { device_buf = splice p user buf; f_pos = pos (p + length user) };
      })
unfolding device_write
write-splice u user buf p l h c = ground (arith, move-moved p (length user), got-all u user c)

-- What is written at the start of the buffer, one to 60 bytes, is read back after a seek to the
-- start, if both copies succeed.
pub write-read_start :
    (u : Uaccess) (user buf : List ℕ)
    → length buf ≡ max_length
    → 0 < length user
    → length user ≤ max_length
    → u.from_left user (length user) ≡ 0
    → u.to_left user ≡ 0
    → (s : State) × (t : State) × (device_write u user
          (length user)
          (record { device_buf = buf; f_pos = pos 0 })
        ≡ some (record { ret = pos (length user); user = []; state = s }))
      × (device_read u (length user) (device_lseek (pos 0) 0 s).state
          ≡ some (record { ret = pos (length user); user = user; state = t }))
unfolding device_lseek
write-read_start u user buf l b h cf ct = (
  record { device_buf = splice 0 user buf; f_pos = pos (0 + length user) },
  record { device_buf = splice 0 user buf; f_pos = pos (length user) },
  write-splice u user buf 0 b (omega arith) cf,
  ground
      (arith, first, read_from_start u (length user) 0 written sized (omega arith) b (rw first ct)),
)
  where
    written : List ℕ
    written = splice 0 user buf

    sized : length written ≡ max_length
    sized = length-splice 0 user buf (omega arith) ∙ l

    first : take (moved 0 (length user)) written ≡ user
    first =
        let e : moved 0 (length user) ≡ length user = omega arith in
        rw e (take-append_eq (length user) user _ refl)
