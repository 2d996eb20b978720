-- ===== src/Myclass.antt =====
-- drivers/myclass/myclass.c: three LEDs of an i.MX6 board, each behind a character device of its own.
pub mod Opening
pub mod Lifecycle
mod Examples
use learning_kernel.Prelude.{
  ℕ, zero, suc, ◌+◌, ◌*◌, ◌-◌, ◌^◌, ℤ, pos, ◌+ℤ◌, Bool, is_neg, is_nonzero, to_int, if◌then◌else◌,
  ◌==◌, none,
}
use learning_kernel.Kernel.Calls
use learning_kernel.Kernel.Calls.{Kernel}
use learning_kernel.Kernel.Files.{FileOperations, direct}
use learning_kernel.Kernel.Run.{
  World, M, pure, ◌>>=◌, ◌>>◌, get, modify, run_call, call_object, call_status, call_pointer,
  call_status_out, call_word,
}
use learning_kernel.Chrdev.{mkdev, major_of, minor_of}
use learning_kernel.Mmio.{clear, set}

-- struct led_chrdev, without its cdev and its mapped addresses.
pub record LedChrdev : Type 0 where
  pub pa_dr : ℕ
  pub pa_gdir : ℕ
  pub pa_iomuxc_mux : ℕ
  pub pa_ccm_ccgrx : ℕ
  pub pa_iomux_pad : ℕ
  pub led_pin : ℕ
  pub clock_offset : ℕ

abbrev pub led_cdev : ℕ → LedChrdev
led_cdev zero = record {
  pa_dr = 0x0209C000;
  pa_gdir = 0x0209C004;
  pa_iomuxc_mux = 0x20E006C;
  pa_ccm_ccgrx = 0x20C406C;
  pa_iomux_pad = 0x20E02F8;
  led_pin = 4;
  clock_offset = 26;
}
led_cdev (suc zero) = record {
  pa_dr = 0x20A8000;
  pa_gdir = 0x20A8004;
  pa_iomuxc_mux = 0x20E01E0;
  pa_ccm_ccgrx = 0x20C4074;
  pa_iomux_pad = 0x20E046C;
  led_pin = 20;
  clock_offset = 12;
}
led_cdev (suc (suc n)) = record {
  pa_dr = 0x20A8000;
  pa_gdir = 0x20A8004;
  pa_iomuxc_mux = 0x20E01DC;
  pa_ccm_ccgrx = 0x20C4074;
  pa_iomux_pad = 0x20E0468;
  led_pin = 19;
  clock_offset = 12;
}

-- DEV_CNT
abbrev pub dev_cnt : ℕ
dev_cnt = 3

-- The variables that hold the mapped registers of the `i`th LED.
abbrev pub va_dr : ℕ → ℕ
va_dr i = i * 5

abbrev pub va_gdir : ℕ → ℕ
va_gdir i = i * 5 + 1

abbrev pub va_iomuxc_mux : ℕ → ℕ
va_iomuxc_mux i = i * 5 + 2

abbrev pub va_ccm_ccgrx : ℕ → ℕ
va_ccm_ccgrx i = i * 5 + 3

abbrev pub va_iomux_pad : ℕ → ℕ
va_iomux_pad i = i * 5 + 4

-- The globals `devno` and `led_chrdev_class`, and the position of the open file.
pub record Myclass : Type 0 where
  pub devno : ℕ
  pub led_chrdev_class : ℤ
  pub ppos : ℤ

-- What kstrtoul_from_user leaves in `ret`, which is 0 before the call.
abbrev pub typed : ℤ × ℕ → ℕ
typed r = if is_nonzero r.0 then 0 else r.1

-- The local `cur_dev` of the `i`th round.
abbrev pub cur_dev : ℕ → ℕ → ℕ
cur_dev devno i = mkdev (major_of devno) (minor_of devno + i)

module _ (k : Kernel) where
  -- The `i`th LED is opened.
  pub led_chrdev_open : ℕ → M Myclass ℤ
  led_chrdev_open i = do
    let led = led_cdev i
    call_object k (Calls.ioremap (va_dr i) led.pa_dr)
    call_object k (Calls.ioremap (va_gdir i) led.pa_gdir)
    call_object k (Calls.ioremap (va_iomuxc_mux i) led.pa_iomuxc_mux)
    call_object k (Calls.ioremap (va_ccm_ccgrx i) led.pa_ccm_ccgrx)
    call_object k (Calls.ioremap (va_iomux_pad i) led.pa_iomux_pad)
    clock ← call_word k (Calls.readl (va_ccm_ccgrx i))
    run_call k (
        Calls.writel (set (3 * 2 ^ led.clock_offset) (clear (3 * 2 ^ led.clock_offset) clock))
          (va_ccm_ccgrx i))
    run_call k (Calls.writel 5 (va_iomuxc_mux i))
    run_call k (Calls.write_raw 0x1F838 led.pa_iomux_pad)
    direction ← call_word k (Calls.readl (va_gdir i))
    run_call k
        (Calls.writel (set (2 ^ led.led_pin) (clear (2 ^ led.led_pin) direction)) (va_gdir i))
    level ← call_word k (Calls.readl (va_dr i))
    run_call k (Calls.writel (set (2 ^ led.led_pin) level) (va_dr i))
    pure (pos 0)

  pub led_chrdev_release : ℕ → M Myclass ℤ
  led_chrdev_release i = do
    run_call k (Calls.iounmap (va_dr i))
    run_call k (Calls.iounmap (va_gdir i))
    run_call k (Calls.iounmap (va_iomuxc_mux i))
    run_call k (Calls.iounmap (va_ccm_ccgrx i))
    run_call k (Calls.iounmap (va_iomux_pad i))
    pure (pos 0)

  -- `tmp` is the count as an int; the result of the parse is not looked at.
  pub led_chrdev_write : ℕ → ℕ → M Myclass ℤ
  led_chrdev_write i count = do
    let pin = 2 ^ (led_cdev i).led_pin
    let tmp = to_int (pos count)
    r ← call_status_out k (Calls.kstrtoul_from_user 10)
    val ← call_word k (Calls.readl (va_dr i))
    run_call k (Calls.writel (if typed r == 0 then clear pin val else set pin val) (va_dr i))
    modify (λ d. record d { ppos = d.ppos +ℤ tmp })
    pure tmp

  -- The rounds of the loop of `led_chrdev_init` from the `i`th on, `left` of them.
  pub add_all : ℕ → ℕ → M Myclass (Unit {0})
  add_all zero i = pure tt
  add_all (suc left) i = do
    d ← get
    call_status k (Calls.cdev_add i (cur_dev d.devno i))
    call_pointer k (Calls.device_create d.led_chrdev_class (cur_dev d.devno i))
    add_all left (i + 1)

  -- No result is looked at. `devno` keeps its 0 when no region is allocated.
  pub led_chrdev_init : M Myclass ℤ
  unfolding add_all
  led_chrdev_init = do
    r ← call_status_out k (Calls.alloc_chrdev_regions dev_cnt)
    modify (λ d. if is_neg r.0 then d else record d { devno = r.1 })
    class ← call_pointer k Calls.class_create
    modify (λ d. record d { led_chrdev_class = class })
    add_all dev_cnt 0
    pure (pos 0)

  -- The same for `led_chrdev_exit`.
  pub remove_all : ℕ → ℕ → M Myclass (Unit {0})
  remove_all zero i = pure tt
  remove_all (suc left) i = do
    d ← get
    run_call k (Calls.device_destroy d.led_chrdev_class (cur_dev d.devno i))
    run_call k (Calls.cdev_del i)
    remove_all left (i + 1)

  pub led_chrdev_exit : M Myclass (Unit {0})
  unfolding remove_all
  led_chrdev_exit = do
    remove_all dev_cnt 0
    d ← get
    run_call k (Calls.unregister_chrdev_regions d.devno dev_cnt)
    run_call k (Calls.class_destroy d.led_chrdev_class)

  -- The module is loaded, which always succeeds, and unloaded again.
  pub load_unload : World Myclass → World Myclass
  load_unload w = (led_chrdev_exit (led_chrdev_init w).1).1

-- `i` is the device whose file it is.
unfoldable pub led_chrdev_fops : Kernel → ℕ → FileOperations Myclass (Unit {0}) ℕ
led_chrdev_fops k i = record {
  open_file = led_chrdev_open k i;
  read = none;
  write = direct (led_chrdev_write k i);
  unlocked_ioctl = none;
  poll = none;
  fasync = none;
  release = direct (λ _. led_chrdev_release k i);
}
