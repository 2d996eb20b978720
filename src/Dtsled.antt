-- ===== src/Dtsled.antt =====
-- openedv/linux/stm32mp157/04_dtsled/dtsled.c: the LED of PI0 with the addresses of its registers in
-- the device tree.
pub mod Lifecycle
use learning_kernel.Prelude.{ℕ, ℤ, pos, List, Option, is_neg, if◌then◌else◌, Bool, none}
use learning_kernel.Kernel.Calls
use learning_kernel.Kernel.Calls.{Kernel}
use learning_kernel.Kernel.Errno.{eio}
use learning_kernel.Kernel.Files.{FileOperations, direct}
use learning_kernel.Kernel.Run.{
  World, M, pure, ◌>>=◌, ◌>>◌, modify, zoom, call_status, call_status_text, call_object,
}
use learning_kernel.Chrdev.{Chrdev, register, unregister}
use learning_kernel.Mmio
use learning_kernel.Mmio.{set}

pub record DtsledDev : Type 0 where
  pub chr : Chrdev
  pub nd : Option ℕ

abbrev pub on_chr : {A : Type 0} → M Chrdev A → M DtsledDev A
on_chr = zoom (λ d. d.chr) (λ c d. record d { chr = c })

module _ (k : Kernel) where
  pub led_switch : (List ℕ → ℕ) → List ℕ → M DtsledDev (Unit {0})
  led_switch = Mmio.led_switch k

  pub led_unmap : M DtsledDev (Unit {0})
  led_unmap = Mmio.led_unmap k

  -- `led_remap` up to the mappings: what the properties say is only printed.
  pub read_node : M DtsledDev (Unit {0})
  read_node = do
    nd ← call_object k (Calls.of_find_node_by_path "/stm32mp1_led")
    modify (λ d. record d { nd = nd })
    call_object k (Calls.of_find_property "compatible")
    call_status_text k (Calls.of_property_read_string "status")
    call_status k (Calls.of_property_read_u32_array "reg")
    pure tt

  pub led_remap : M DtsledDev (Unit {0})
  unfolding read_node
  led_remap = do read_node; Mmio.led_remap k Calls.of_iomap

  -- `databuf` has 32 bytes.
  pub led_write : (List ℕ → ℕ) → ℕ → M DtsledDev (Option ℤ)
  led_write = Mmio.led_write k 32

  -- `~(0x1 << 0)` is 0xFFFFFFFE as a 32-bit word.
  pub led_init : M DtsledDev ℤ
  unfolding led_unmap led_remap
  led_init = do
    led_remap
    Mmio.init_registers k (set 0xFFFFFFFE)
    registered ← on_chr (register k)
    if registered then pure (pos 0) else do led_unmap; pure eio

  pub led_exit : M DtsledDev (Unit {0})
  unfolding led_unmap
  led_exit = do led_unmap; on_chr (unregister k)

  -- The module is loaded and, if that went well, unloaded again.
  pub load_unload : World DtsledDev → World DtsledDev
  load_unload w = let r = led_init w in if is_neg r.0 then r.1 else (led_exit r.1).1

-- The rest of the file operations, and their table.
pub led_open : M DtsledDev ℤ
led_open = pure (pos 0)

pub led_read : ℕ → M DtsledDev ℤ
led_read cnt = pure (pos 0)

pub led_release : Unit {0} → M DtsledDev ℤ
led_release _ = pure (pos 0)

unfoldable pub newchrled_fops : Kernel → (List ℕ → ℕ) → FileOperations DtsledDev ℕ ℕ
unfolding led_open
newchrled_fops k strtoul = record {
  open_file = led_open;
  read = direct led_read;
  write = direct (led_write k strtoul);
  unlocked_ioctl = none;
  poll = none;
  fasync = none;
  release = direct led_release;
}
