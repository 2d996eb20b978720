-- ===== src/Newchrled.antt =====
-- openedv/linux/stm32mp157/03_newchrled/newchrled.c: the LED of PI0 behind a character device whose
-- number the kernel may choose.
pub mod Lifecycle
use learning_kernel.Prelude.{ℕ, ℤ, pos, List, Option, is_neg, if◌then◌else◌, Bool, none}
use learning_kernel.Kernel.Calls
use learning_kernel.Kernel.Calls.{Kernel}
use learning_kernel.Kernel.Errno.{eio}
use learning_kernel.Kernel.Files.{FileOperations, direct}
use learning_kernel.Kernel.Run.{World, M, pure, ◌>>=◌, ◌>>◌}
use learning_kernel.Chrdev.{Chrdev, register, unregister}
use learning_kernel.Mmio
use learning_kernel.Mmio.{set}
use learning_kernel.Led.{address}

module _ (k : Kernel) where
  pub led_switch : (List ℕ → ℕ) → List ℕ → M Chrdev (Unit {0})
  led_switch = Mmio.led_switch k

  pub led_unmap : M Chrdev (Unit {0})
  led_unmap = Mmio.led_unmap k

  pub led_remap : M Chrdev (Unit {0})
  led_remap = Mmio.led_remap k (λ slot. Calls.ioremap slot (address slot))

  -- `databuf` has 32 bytes.
  pub led_write : (List ℕ → ℕ) → ℕ → M Chrdev (Option ℤ)
  led_write = Mmio.led_write k 32

  -- `~(0x1 << 0)` is 0xFFFFFFFE as a 32-bit word.
  pub led_init : M Chrdev ℤ
  unfolding led_unmap led_remap
  led_init = do
    led_remap
    Mmio.init_registers k (set 0xFFFFFFFE)
    registered ← register k
    if registered then pure (pos 0) else do led_unmap; pure eio

  pub led_exit : M Chrdev (Unit {0})
  unfolding led_unmap
  led_exit = do led_unmap; unregister k

  -- The module is loaded and, if that went well, unloaded again.
  pub load_unload : World Chrdev → World Chrdev
  load_unload w = let r = led_init w in if is_neg r.0 then r.1 else (led_exit r.1).1

-- The rest of the file operations, and their table.
pub led_open : M Chrdev ℤ
led_open = pure (pos 0)

pub led_read : ℕ → M Chrdev ℤ
led_read cnt = pure (pos 0)

pub led_release : Unit {0} → M Chrdev ℤ
led_release _ = pure (pos 0)

unfoldable pub newchrled_fops : Kernel → (List ℕ → ℕ) → FileOperations Chrdev ℕ ℕ
unfolding led_open
newchrled_fops k strtoul = record {
  open_file = led_open;
  read = direct led_read;
  write = direct (led_write k strtoul);
  unlocked_ioctl = none;
  poll = none;
  fasync = none;
  release = direct led_release;
}
