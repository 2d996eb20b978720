-- ===== src/PlatformLed.antt =====
-- openedv/linux/stm32mp157/17_platform: leddriver.c, a driver for the LED of PI0 that finds the
-- addresses of its registers in a platform device, and leddevice.c, that device.
pub mod Lifecycle
pub mod Bus
mod Examples
use learning_kernel.Prelude.{ℕ, ℤ, pos, List, Option, is_neg, if◌then◌else◌, Bool, none}
use learning_kernel.Kernel.Calls
use learning_kernel.Kernel.Calls.{Kernel}
use learning_kernel.Kernel.Errno.{eio, einval}
use learning_kernel.Kernel.Files.{FileOperations, direct}
use learning_kernel.Kernel.Run.{World, M, pure, ◌>>=◌, ◌>>◌, run_call, call_status, call_object}
use learning_kernel.DeviceTree.{is_null}
use learning_kernel.Mmio
use learning_kernel.Mmio.{set}
use learning_kernel.Led.{address, led_major}

-- The start of each memory resource of the device, at the addresses that led.c uses too.
abbrev pub led_resources : ℕ → ℕ
led_resources = address

module _ (k : Kernel) where
  pub led_switch : (List ℕ → ℕ) → List ℕ → M (Unit {0}) (Unit {0})
  led_switch = Mmio.led_switch k

  pub led_unmap : M (Unit {0}) (Unit {0})
  led_unmap = Mmio.led_unmap k

  -- `databuf` has 128 bytes.
  pub led_write : (List ℕ → ℕ) → ℕ → M (Unit {0}) (Option ℤ)
  led_write = Mmio.led_write k 128

  -- One of the six steps of `led_probe` that map a register, and what comes after it.
  pub map_resource : ℕ → M (Unit {0}) ℤ → M (Unit {0}) ℤ
  map_resource i rest = do
    mem ← call_object k (Calls.platform_get_resource i)
    if is_null mem then pure einval else do call_object k (Calls.ioremap i (led_resources i)); rest

  -- The rest of `led_probe`.
  pub set_up : M (Unit {0}) ℤ
  unfolding led_unmap
  set_up = do
    Mmio.init_registers k (set 0x1)
    retvalue ← call_status k (Calls.register_chrdev led_major)
    if is_neg retvalue then (do led_unmap; pure eio) else pure (pos 0)

  pub led_probe : M (Unit {0}) ℤ
  unfolding map_resource set_up
  led_probe =
      map_resource 0
        (map_resource 1 (map_resource 2 (map_resource 3 (map_resource 4 (map_resource 5 set_up)))))

  pub led_remove : M (Unit {0}) ℤ
  unfolding led_unmap
  led_remove = do led_unmap; run_call k (Calls.unregister_chrdev led_major); pure (pos 0)

-- The rest of the file operations, and their table.
pub led_open : M (Unit {0}) ℤ
led_open = pure (pos 0)

pub led_read : ℕ → M (Unit {0}) ℤ
led_read cnt = pure (pos 0)

pub led_release : Unit {0} → M (Unit {0}) ℤ
led_release _ = pure (pos 0)

unfoldable pub led_fops : Kernel → (List ℕ → ℕ) → FileOperations (Unit {0}) ℕ ℕ
unfolding led_open
led_fops k strtoul = record {
  open_file = led_open;
  read = direct led_read;
  write = direct (led_write k strtoul);
  unlocked_ioctl = none;
  poll = none;
  fasync = none;
  release = direct led_release;
}
