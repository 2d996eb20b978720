-- ===== src/Hello.antt =====
-- drivers/helloDev/hello.c: one int behind a character device, a sysfs attribute and (unused) a
-- proc file. This file has the operations, Hello/Registration the loading of the module.
pub mod Registration
pub mod Value
pub mod Sharing
mod Examples
use learning_kernel.Prelude.{
  ℕ, ℤ, pos, List, [], Option, none, some, Bool, not, is_neg, is_nonzero, eqb_ℤ, ltb, ltb_ℤ,
  if◌then◌else◌, ◌==◌, ◌≡◌, length,
}
use learning_kernel.Kernel.Calls
use learning_kernel.Kernel.Calls.{Kernel}
use learning_kernel.Kernel.Errno.{efault, enomem, erestartsys}
use learning_kernel.Kernel.Files.{FileOperations, direct}
use learning_kernel.Kernel.Run.{
  World, M, pure, ◌>>=◌, ◌>>◌, get, modify, run_call, call_status, call_int, call_number,
  call_object,
}

-- The globals of the driver and the `val` of its one device. 0 is a NULL class.
pub record HelloDev : Type 0 where
  pub hello_major : ℕ
  pub hello_minor : ℕ
  pub hello_class : ℤ
  pub hello_dev : Option ℕ
  pub val : ℤ

-- snprintf with "%d\n" and simple_strtol to the base 10, which are the kernel's. A value that was
-- printed is read back.
pub record Digits : Type 0 where
  pub print : ℤ → List ℕ
  pub parse : List ℕ → ℤ
  pub parse_print : (v : ℤ) → parse (print v) ≡ v

-- PAGE_SIZE
abbrev pub page_size : ℕ
page_size = 4096

module _ (k : Kernel) where
  up : ℤ → M HelloDev ℤ
  up ret = do run_call k Calls.up; pure ret

  -- sizeof(dev->val) is 4.
  unfoldable pub hello_read : ℕ → M HelloDev ℤ
  unfolding up
  hello_read count = do
    interrupted ← call_status k Calls.down_interruptible
    if is_nonzero interrupted then pure erestartsys else if ltb count 4 then up (pos 0) else do
      d ← get
      left ← call_number k (Calls.copy_to_user d.val)
      if is_nonzero (pos left) then up efault else up (pos 4)

  -- What a failing copy leaves in `val` is the kernel's choice.
  unfoldable pub hello_write : ℕ → M HelloDev ℤ
  unfolding up
  hello_write count = do
    interrupted ← call_status k Calls.down_interruptible
    if is_nonzero interrupted then pure erestartsys else if not (count == 4) then up (pos 0) else do
      left ← call_number k Calls.copy_from_user
      arrived ← (λ w. (k.int w.log Calls.copy_from_user, w))
      modify (λ d. record d { val = arrived })
      if is_nonzero (pos left) then up efault else up (pos 4)

  module _ (t : Digits) where
    -- The returned value and the text in the buffer.
    pub hello_get_val : M HelloDev (ℤ × List ℕ)
    hello_get_val = do
      interrupted ← call_status k Calls.down_interruptible
      if is_nonzero interrupted
          then pure (erestartsys, [])
          else do d ← get; run_call k Calls.up; pure (pos (length (t.print d.val)), t.print d.val)

    pub hello_set_val : List ℕ → ℕ → M HelloDev ℤ
    hello_set_val buf count = do
      interrupted ← call_status k Calls.down_interruptible
      if is_nonzero interrupted then pure erestartsys else do
        modify (λ d. record d { val = t.parse buf })
        run_call k Calls.up
        pure (pos count)

    pub hello_val_show : M HelloDev (ℤ × List ℕ)
    unfolding hello_get_val
    hello_val_show = hello_get_val

    pub hello_val_store : List ℕ → ℕ → M HelloDev ℤ
    unfolding hello_set_val
    hello_val_store buf count = hello_set_val buf count

    -- A read from a later offset is at the end of the file.
    pub hello_proc_read : ℤ → M HelloDev (ℤ × List ℕ)
    unfolding hello_get_val
    hello_proc_read off = if ltb_ℤ (pos 0) off then pure (pos 0, []) else hello_get_val

    free_page : ℕ → ℤ → M HelloDev ℤ
    free_page page err = do run_call k (Calls.free_page page); pure err

    -- `text` is what arrives in the page from the user's `len` bytes.
    with_page : Option ℕ → List ℕ → ℕ → M HelloDev ℤ
    unfolding free_page hello_set_val
    with_page none text len = pure enomem
    with_page (some page) text len = do
      left ← call_number k Calls.copy_from_user
      if is_nonzero (pos left)
          then free_page page efault
          else do err ← hello_set_val text len; free_page page err

    pub hello_proc_write : List ℕ → ℕ → M HelloDev ℤ
    unfolding with_page
    hello_proc_write text len =
        if ltb page_size len
        then pure efault
        else do page ← call_object k Calls.get_free_page; with_page page text len

pub hello_open : M HelloDev ℤ
hello_open = pure (pos 0)

pub hello_release : Unit {0} → M HelloDev ℤ
hello_release _ = pure (pos 0)

unfoldable pub hello_fops : Kernel → FileOperations HelloDev ℕ ℕ
unfolding hello_open
hello_fops k = record {
  open_file = hello_open;
  read = direct (hello_read k);
  write = direct (hello_write k);
  unlocked_ioctl = none;
  poll = none;
  fasync = none;
  release = direct hello_release;
}
