-- ===== src/Apps/Testdriver.antt =====
-- drivers/chrdev/tests/testdriver.c on drivers/chrdev/chardev.c.
use learning_kernel.Prelude.{
  ℕ, zero, suc, ℤ, pos, is_neg, List, [], ◌∷◌, ◌++◌, Option, none, some, replicate, length, drop,
  ◌≡◌, refl, ap, ◌∙◌, append-nil, arith, if◌then◌else◌,
}
use learning_kernel.Prelude.Splice.{splice}
use learning_kernel.Kernel.Uaccess.{Uaccess}
use learning_kernel.Chardev.{State, Reply, max_length, device_read, device_write, device_lseek}
use learning_kernel.Chardev.Content.{write-splice, read_from_start}

-- '*'
abbrev pub star : ℕ
star = 42

-- The first 15 bytes of "This is just testing".
abbrev pub testing : List ℕ
testing = 84 ∷ 104 ∷ 105 ∷ 115 ∷ 32 ∷ 105 ∷ 115 ∷ 32 ∷ 106 ∷ 117 ∷ 115 ∷ 116 ∷ 32 ∷ 116 ∷ 101 ∷ []

-- What "%s" prints of an array: the bytes before the first 0, and `none` if it has none, and printf
-- reads on behind the array.
abbrev pub string_in : List ℕ → Option (List ℕ)
string_in [] = none
string_in (zero ∷ bs) = some []
string_in (suc b ∷ bs) = elim (string_in bs) [ none ↦ none | some text ↦ some (suc b ∷ text) ]

-- The exit status, the array at each "%s", and the driver's state.
pub record Result : Type 0 where
  pub status : ℕ
  pub buffers : List (List ℕ)
  pub state : State

abbrev result : ℕ → List (List ℕ) → State → Result
result status buffers s = record { status = status; buffers = buffers; state = s }

drop_all : (xs : List ℕ) → drop (length xs) xs ≡ []
drop_all [] = refl
drop_all (x ∷ xs) = drop_all xs

-- What the program leaves in the device, and what it has in its array at the end.
abbrev pub expected : List ℕ
expected = replicate 30 star ++ (testing ++ replicate 15 star)

-- `none` is a driver that leaves its buffer, and nothing follows it.
infixl 5 ◌>>=◌
abbrev ◌>>=◌ {ℓ} : {A B : Type ℓ} → Option A → (A → Option B) → Option B
none >>= f = none
some a >>= f = f a

-- read(fd, my_buf, n) returns, and the bytes come to the start of the array; write(fd, ..., n)
-- returns.
abbrev pub has_read : List ℕ → Reply → Option (ℤ × List ℕ × State)
has_read my_buf r = some (r.ret, splice 0 r.user my_buf, r.state)

abbrev pub has_written : Reply → Option (ℤ × State)
has_written r = some (r.ret, r.state)

-- The program ends, with its array at the first "%s" and what the last read gave.
abbrev pub ended : List ℕ → ℤ × List ℕ × State → Option Result
ended first r = some (result 0 (first ∷ r.1 ∷ []) r.2)

module _ (u : Uaccess) where
  abbrev pub read_into : ℕ → List ℕ → State → Option (ℤ × List ℕ × State)
  read_into n my_buf s = device_read u n s >>= has_read my_buf

  abbrev pub write_from : List ℕ → State → Option (ℤ × State)
  write_from user s = device_write u user (length user) s >>= has_written

  abbrev pub seek_set : ℕ → State → State
  seek_set offset s = (device_lseek (pos offset) 0 s).state

  -- From the memset on, with the array at the first "%s"; the results are not looked at.
  abbrev pub second_half : List ℕ → State → Option Result
  second_half first s = do
    w ← write_from testing s
    r ← read_into 60 (replicate 60 0) (seek_set 0 w.1)
    ended first r

  -- From the first read on.
  abbrev pub first_half : State → Option Result
  first_half s = do
    r ← read_into 10 (replicate 60 star) (seek_set 20 s)
    if is_neg r.0 then some (result 2 [] r.2) else second_half r.1 r.2

  -- `main` from the first write on. A file that could not be opened makes that fail.
  pub testdriver : State → Option Result
  testdriver s = do
    w ← write_from (replicate 60 star) s
    if is_neg w.0 then some (result 1 [] w.1) else first_half w.1

  -- Every copy from and to the program's memory succeeds.
  abbrev pub Mapped : Type 0
  Mapped =
      ((user : List ℕ) → u.from_left user (length user) ≡ 0) × ((src : List ℕ) → u.to_left src ≡ 0)

  whole : (bytes mem : List ℕ) → length mem ≡ length bytes → splice 0 bytes mem ≡ bytes
  whole bytes mem h =
      ap (◌++◌ bytes) (ap (λ n. drop n mem) (omega arith) ∙ drop_all mem) ∙ append-nil bytes

  abbrev stars : List ℕ
  stars = replicate 60 star

  abbrev at : List ℕ → ℕ → State
  at buf p = record { device_buf = buf; f_pos = pos p }

  first-write :
      (buf : List ℕ)
      → Mapped
      → length buf ≡ max_length
      → write_from stars (at buf 0) ≡ some (pos 60, at stars 60)
  first-write buf mapped sized =
      let written = write-splice u stars buf 0 (omega arith) (omega arith) (mapped.0 stars) in
      ap (λ o. o >>= has_written) written ∙ ap (λ b. some (pos 60, at b 60)) (whole stars buf sized)

  first-read :
      Mapped → read_into 10 stars (seek_set 20 (at stars 60)) ≡ some (pos 10, stars, at stars 30)
  unfolding device_lseek
  first-read mapped =
      ap (λ o. o >>= has_read stars)
        (read_from_start u 10 20 stars refl (omega arith) (omega arith) (mapped.1 _))

  second-write : Mapped → write_from testing (at stars 30) ≡ some (pos 15, at expected 45)
  second-write mapped =
      ap (λ o. o >>= has_written)
        (write-splice u testing stars 30 (omega arith) (omega arith) (mapped.0 testing))

  second-read :
      Mapped
      → read_into 60 (replicate 60 0) (seek_set 0 (at expected 45))
        ≡ some (pos 60, expected, at expected 60)
  unfolding device_lseek
  second-read mapped =
      ap (λ o. o >>= has_read (replicate 60 0))
        (read_from_start u 60 0 expected refl (omega arith) (omega arith) (mapped.1 _))

  -- On chardev.c, opened at the start of its buffer with any content, if every copy from and to the
  -- program succeeds: testdriver exits with 0; its first read gets 10 of its own stars, though it
  -- has seeked to 20, and its last read the whole device, 30 stars, 15 letters of its text and 15
  -- stars; and each time the array that it prints as a string has no end.
  pub testdriver_lem :
      (buf : List ℕ)
      → Mapped
      → length buf ≡ max_length
      → (testdriver (record { device_buf = buf; f_pos = pos 0 })
          ≡ some (record {
            status = 0;
            buffers = replicate 60 star ∷ expected ∷ [];
            state = record { device_buf = expected; f_pos = pos 60 };
          }))
        × (string_in (replicate 60 star) ≡ none)
        × (string_in expected ≡ none)
  unfolding testdriver
  testdriver_lem buf mapped sized = (
    ap (λ o. o >>= λ w. if is_neg w.0 then some (result 1 [] w.1) else first_half w.1)
          (first-write buf mapped sized)
        ∙ ap (λ o. o >>= λ r. if is_neg r.0 then some (result 2 [] r.2) else second_half r.1 r.2)
            (first-read mapped)
        ∙ ap (λ o. o >>= λ w. read_into 60 (replicate 60 0) (seek_set 0 w.1) >>= ended stars)
            (second-write mapped)
        ∙ ap (λ o. o >>= ended stars) (second-read mapped),
    refl,
    refl,
  )
