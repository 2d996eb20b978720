-- ===== src/Led.antt =====
-- openedv/linux/stm32mp157/02_led/led.c: the LED of PI0 behind a character device with a fixed
-- major number.
pub mod Lifecycle
use learning_kernel.Prelude.{ℕ, ◌+◌, ℤ, pos, List, Option, is_neg, if◌then◌else◌, Bool, none}
use learning_kernel.Kernel.Calls
use learning_kernel.Kernel.Calls.{Kernel}
use learning_kernel.Kernel.Errno.{eio}
use learning_kernel.Kernel.Files.{FileOperations, direct}
use learning_kernel.Kernel.Run.{World, M, pure, ◌>>=◌, ◌>>◌, run_call, call_status}
use learning_kernel.Mmio
use learning_kernel.Mmio.{set}

-- LED_MAJOR
abbrev pub led_major : ℕ
led_major = 200

-- The physical addresses of the registers.
abbrev pub periph_base : ℕ
periph_base = 0x40000000

abbrev pub rcc_base : ℕ
rcc_base = periph_base + 0x10000000

abbrev pub gpioi_base : ℕ
gpioi_base = periph_base + 0x10000000 + 0xA000

-- By the variable that the register is mapped to.
abbrev pub address : ℕ → ℕ
address ℕ.zero = rcc_base + 0xA28
address (ℕ.suc ℕ.zero) = gpioi_base
address (ℕ.suc (ℕ.suc ℕ.zero)) = gpioi_base + 0x4
address (ℕ.suc (ℕ.suc (ℕ.suc ℕ.zero))) = gpioi_base + 0x8
address (ℕ.suc (ℕ.suc (ℕ.suc (ℕ.suc ℕ.zero)))) = gpioi_base + 0xC
address (ℕ.suc (ℕ.suc (ℕ.suc (ℕ.suc (ℕ.suc slot))))) = gpioi_base + 0x18

module _ (k : Kernel) where
  pub led_switch : (List ℕ → ℕ) → List ℕ → M (Unit {0}) (Unit {0})
  led_switch = Mmio.led_switch k

  pub led_unmap : M (Unit {0}) (Unit {0})
  led_unmap = Mmio.led_unmap k

  -- `databuf` has 128 bytes.
  pub led_write : (List ℕ → ℕ) → ℕ → M (Unit {0}) (Option ℤ)
  unfolding Mmio.led_write
  led_write = Mmio.led_write k 128

  pub led_init : M (Unit {0}) ℤ
  unfolding led_unmap
  led_init = do
    Mmio.led_remap k (λ slot. Calls.ioremap slot (address slot))
    Mmio.init_registers k (set 0x1)
    retvalue ← call_status k (Calls.register_chrdev led_major)
    if is_neg retvalue then (do led_unmap; pure eio) else pure (pos 0)

  pub led_exit : M (Unit {0}) (Unit {0})
  unfolding led_unmap
  led_exit = do led_unmap; run_call k (Calls.unregister_chrdev led_major)

  -- The module is loaded and, if that went well, unloaded again.
  pub load_unload : World (Unit {0}) → World (Unit {0})
  load_unload w = let r = led_init w in if is_neg r.0 then r.1 else (led_exit r.1).1

-- The rest of the file operations, and their table.
pub led_open : M (Unit {0}) ℤ
led_open = pure (pos 0)

pub led_read : ℕ → M (Unit {0}) ℤ
led_read cnt = pure (pos 0)

pub led_release : Unit {0} → M (Unit {0}) ℤ
led_release _ = pure (pos 0)

unfoldable pub led_fops : Kernel → (List ℕ → ℕ) → FileOperations (Unit {0}) ℕ ℕ
unfolding led_open
led_fops k strtoul = record {
  open_file = led_open;
  read = direct led_read;
  write = direct (led_write k strtoul);
  unlocked_ioctl = none;
  poll = none;
  fasync = none;
  release = direct led_release;
}
