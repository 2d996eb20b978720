-- ===== src/Key.antt =====
-- openedv/linux/stm32mp157/11_key/key.c: a key whose line is requested by every open and polled by
-- every read.
mod Lifecycle
mod Reading
mod Examples
use learning_kernel.Prelude.{
  ℕ, zero, suc, List, [], ◌∷◌, ℤ, pos, Option, none, some, Bool, true, false, not, is_neg,
  is_nonzero, eqb_ℤ, if◌then◌else◌,
}
use learning_kernel.Kernel.Calls
use learning_kernel.Kernel.Calls.{Kernel}
use learning_kernel.Kernel.Errno.{eio, einval, efault}
use learning_kernel.Kernel.Files.{FileOperations, direct}
use learning_kernel.Kernel.Run.{
  World, M, pure, ◌>>=◌, ◌>>◌, get, modify, zoom, run_call, call_status, call_int, call_number,
}
use learning_kernel.Chrdev.{Chrdev, register, unregister}
use learning_kernel.DeviceTree.{check_node}

pub record KeyDev : Type 0 where
  pub chr : Chrdev
  pub nd : Option ℕ
  pub key_gpio : ℤ
  pub keyvalue : ℤ

-- KEY0_VALUE and INVALKEY
abbrev pub key0_value : ℤ
key0_value = pos 0xF0

abbrev pub invalkey : ℤ
invalkey = pos 0x00

abbrev pub on_chr : {A : Type 0} → M Chrdev A → M KeyDev A
on_chr = zoom (λ d. d.chr) (λ c d. record d { chr = c })

module _ (k : Kernel) where
  pub gpiokey_parse : M KeyDev ℤ
  unfolding check_node
  gpiokey_parse = do
    bad ← check_node k "/key" "alex,key" (λ nd d. record d { nd = nd })
    if is_neg bad then pure bad else do
      gpio ← call_int k (Calls.of_get_named_gpio "gpios")
      modify (λ d. record d { key_gpio = gpio })
      if is_neg gpio then pure einval else do
        ret ← call_status k (Calls.gpio_request gpio)
        if is_neg ret
            then pure ret
            else do call_status k (Calls.gpio_direction_input gpio); pure (pos 0)

  pub key_open : M KeyDev ℤ
  unfolding gpiokey_parse
  key_open = gpiokey_parse

  -- `while(!gpio_get_value(...));` with fuel for the polls: false if the key was never released.
  pub wait_release : ℕ → ℤ → M KeyDev Bool
  wait_release zero gpio = pure false
  wait_release (suc fuel) gpio =
      let again = wait_release fuel gpio in
      do
        level ← call_int k (Calls.gpio_get_value gpio)
        if eqb_ℤ level (pos 0) then again else pure true

  -- From `atomic_set` to the return. sizeof(int) is 4.
  answer : ℤ → M KeyDev (Option ℤ)
  answer value = do
    modify (λ d. record d { keyvalue = value })
    d ← get
    left ← call_number k (Calls.copy_to_user d.keyvalue)
    if is_nonzero (pos left) then pure (some efault) else pure (some (pos 4))

  -- `none` while the key is still held down when the fuel is used up.
  pub key_read : ℕ → M KeyDev (Option ℤ)
  unfolding answer
  key_read fuel = do
    d ← get
    level ← call_int k (Calls.gpio_get_value d.key_gpio)
    if not (eqb_ℤ level (pos 0)) then answer invalkey else do
      released ← wait_release fuel d.key_gpio
      if released then answer key0_value else pure none

  pub key_write : M KeyDev ℤ
  key_write = pure einval

  pub key_release : M KeyDev ℤ
  key_release = do d ← get; run_call k (Calls.gpio_free d.key_gpio); pure (pos 0)

  pub mykey_init : M KeyDev ℤ
  mykey_init = do
    modify (λ d. record d { keyvalue = pos 0 })
    registered ← on_chr (register k)
    if registered then pure (pos 0) else pure eio

  pub mykey_exit : M KeyDev (Unit {0})
  mykey_exit = on_chr (unregister k)

  closed : Option ℤ × World KeyDev → Option (World KeyDev)
  closed (none, w) = none
  closed (some ret, w) = some (key_release w).1

  -- One use of the device: open, a read, close. `none` if the read never returns; an open that
  -- fails is no use.
  pub visit : ℕ → World KeyDev → Option (World KeyDev)
  unfolding closed
  visit fuel w = let o = key_open w in if is_neg o.0 then some o.1 else closed (key_read fuel o.1)

  pub visits : List ℕ → World KeyDev → Option (World KeyDev)
  visits [] w = some w
  visits (fuel ∷ fuels) w = elim (visit fuel w) [ none ↦ none | some w' ↦ visits fuels w' ]

  -- The module is loaded, used and unloaded.
  pub load_use_unload : List ℕ → World KeyDev → Option (World KeyDev)
  load_use_unload fuels w =
      let r = mykey_init w in
      if is_neg r.0
      then some r.1
      else elim (visits fuels r.1) [ none ↦ none | some w' ↦ some (mykey_exit w').1 ]

-- A read that is still waiting when its fuel is used up counts as over.
unfoldable pub gpiokey_fops : Kernel → FileOperations KeyDev ℕ (Unit {0})
gpiokey_fops k = record {
  open_file = key_open k;
  read = direct (key_read k);
  write = direct (λ _. key_write k);
  unlocked_ioctl = none;
  poll = none;
  fasync = none;
  release = direct (λ _. key_release k);
}
