-- ===== src/Kernel/Ledger.antt =====
-- What a driver holds after the calls that it has made, by the documented effect of each call. A
-- call that needs or releases what is not held has no result: a double free or a use after free.
use learning_kernel.Prelude.{
  ℕ, ℤ, pos, negsuc, suc, zero, Bool, true, false, ◌&&◌, ◌||◌, Option, none, some, List, [], ◌∷◌,
  ◌++◌, if◌then◌else◌, ◌==◌, leb, eqb_ℤ, pos_part,
}
use learning_kernel.Kernel.Calls.{Call, Event}

pub data Resource : Type 0 where
  gpio : ℤ → Resource
  irq : ℤ → Resource
  region : ℕ → Resource
  cdev : ℕ → Resource
  class : ℤ → Resource
  device : ℤ → ℕ → Resource
  memory : ℕ → Resource
  page : ℕ → Resource
  misc : Resource
  mapping : ℕ → Resource
  chrdev : ℕ → Resource
  input : ℕ → Resource
  kset : ℕ → Resource
  kobject : ℕ → Resource
  group : ℕ → Resource
  bus : Resource
  bus_device : Resource
  bus_driver : Resource
  semaphore : Resource
  spinlock : Resource

abbrev pub same : Resource → Resource → Bool
same (gpio a) (gpio b) = eqb_ℤ a b
same (irq a) (irq b) = eqb_ℤ a b
same (region a) (region b) = a == b
same (cdev a) (cdev b) = a == b
same (class a) (class b) = eqb_ℤ a b
same (device a m) (device b n) = eqb_ℤ a b && (m == n)
same (memory a) (memory b) = a == b
same (page a) (page b) = a == b
same misc misc = true
same (mapping a) (mapping b) = a == b
same (chrdev a) (chrdev b) = a == b
same (input a) (input b) = a == b
same (kset a) (kset b) = a == b
same (kobject a) (kobject b) = a == b
same (group a) (group b) = a == b
same bus bus = true
same bus_device bus_device = true
same bus_driver bus_driver = true
same semaphore semaphore = true
same spinlock spinlock = true
same _ _ = false

abbrev pub holds : Resource → List Resource → Bool
holds r [] = false
holds r (x ∷ xs) = same r x || holds r xs

abbrev pub drop_one : Resource → List Resource → List Resource
drop_one r [] = []
drop_one r (x ∷ xs) = if same r x then xs else x ∷ drop_one r xs

abbrev pub release : Resource → List Resource → Option (List Resource)
release r xs = if holds r xs then some (drop_one r xs) else none

abbrev pub need : Resource → List Resource → Option (List Resource)
need r xs = if holds r xs then some xs else none

-- What a successful call acquires: success is 0, or a pointer that is no error pointer.
abbrev on_zero : ℤ → Resource → List Resource → Option (List Resource)
on_zero (pos zero) r xs = some (r ∷ xs)
on_zero (pos (suc n)) r xs = some xs
on_zero (negsuc n) r xs = some xs

abbrev on_pointer : ℤ → (ℤ → Resource) → List Resource → Option (List Resource)
on_pointer (pos p) f xs = some (f (pos p) ∷ xs)
on_pointer (negsuc n) f xs = some xs

abbrev on_object : ℤ → (ℕ → Resource) → List Resource → Option (List Resource)
on_object (pos zero) f xs = some xs
on_object (pos (suc p)) f xs = some (f p ∷ xs)
on_object (negsuc n) f xs = some xs

abbrev pub and_then :
    Option (List Resource) → (List Resource → Option (List Resource)) → Option (List Resource)
and_then none f = none
and_then (some xs) f = f xs

-- `n` regions of one device number each, from the `d`th number on.
abbrev pub regions : ℕ → ℕ → List Resource
regions d zero = []
regions d (suc n) = region d ∷ regions (suc d) n

abbrev release_all : List Resource → List Resource → Option (List Resource)
release_all [] xs = some xs
release_all (r ∷ rs) xs = and_then (release r xs) (release_all rs)

abbrev on_zeros : ℤ → List Resource → List Resource → Option (List Resource)
on_zeros (pos zero) rs xs = some (rs ++ xs)
on_zeros (pos (suc n)) rs xs = some xs
on_zeros (negsuc n) rs xs = some xs

abbrev pub effect : Call → ℤ → ℕ → List Resource → Option (List Resource)
effect (Call.gpio_request g) ret out xs = on_zero ret (gpio g) xs
effect (Call.gpio_direction_input g) ret out xs = need (gpio g) xs
effect (Call.gpio_direction_output g v) ret out xs = need (gpio g) xs
effect (Call.gpio_get_value g) ret out xs = need (gpio g) xs
effect (Call.gpio_set_value g v) ret out xs = need (gpio g) xs
effect (Call.gpio_free g) ret out xs = release (gpio g) xs
effect (Call.request_irq i flags) ret out xs = on_zero ret (irq i) xs
effect (Call.free_irq i) ret out xs = release (irq i) xs
effect Call.alloc_chrdev_region ret out xs = on_zero ret (region out) xs
effect (Call.register_chrdev_region d) ret out xs = on_zero ret (region d) xs
effect (Call.unregister_chrdev_region d) ret out xs = release (region d) xs
effect (Call.alloc_chrdev_regions n) ret out xs = on_zeros ret (regions out n) xs
effect (Call.unregister_chrdev_regions d n) ret out xs = release_all (regions d n) xs
effect (Call.cdev_add slot d) ret out xs = and_then (need (region d) xs) (on_zero ret (cdev slot))
effect (Call.cdev_del slot) ret out xs = release (cdev slot) xs
effect Call.class_create ret out xs = on_pointer ret class xs
effect (Call.class_destroy c) ret out xs = release (class c) xs
effect (Call.device_create c d) ret out xs =
    and_then (need (class c) xs) (on_pointer ret (λ _. device c d))
effect (Call.device_destroy c d) ret out xs = release (device c d) xs
effect Call.kmalloc ret out xs = on_object ret memory xs
effect (Call.kfree p) ret out xs = release (memory p) xs
effect Call.get_free_page ret out xs = on_object ret page xs
effect (Call.free_page p) ret out xs = release (page p) xs
effect Call.misc_register ret out xs = on_zero ret misc xs
effect Call.misc_deregister ret out xs = release misc xs
effect (Call.ioremap slot address) ret out xs = on_object ret (λ _. mapping slot) xs
effect (Call.of_iomap slot) ret out xs = on_object ret (λ _. mapping slot) xs
effect (Call.iounmap slot) ret out xs = release (mapping slot) xs
effect (Call.readl slot) ret out xs = need (mapping slot) xs
effect (Call.writel value slot) ret out xs = need (mapping slot) xs
effect (Call.write_raw value address) ret out xs = none
effect (Call.register_chrdev major) ret out xs = on_zero ret (chrdev major) xs
effect Call.register_chrdev_dynamic ret out xs =
    on_pointer ret (λ major. chrdev (pos_part major)) xs
effect (Call.unregister_chrdev major) ret out xs = release (chrdev major) xs
effect (Call.copy_into size n) ret out xs = if leb n size then some xs else none
effect (Call.memcpy size n) ret out xs = if leb n size then some xs else none
effect Call.devm_kmalloc ret out xs = on_object ret memory xs
effect (Call.devm_gpio_request_one g) ret out xs = on_zero ret (gpio g) xs
effect (Call.devm_request_threaded_irq i) ret out xs = on_zero ret (irq i) xs
effect Call.devm_input_allocate_device ret out xs = on_object ret input xs
effect Call.input_allocate_device ret out xs = on_object ret input xs
effect (Call.input_register_device p) ret out xs = need (input p) xs
effect (Call.input_report_key none v) ret out xs = none
effect (Call.input_report_key (some p) v) ret out xs = need (input p) xs
effect (Call.input_sync none) ret out xs = none
effect (Call.input_sync (some p)) ret out xs = need (input p) xs
effect (Call.input_unregister_device none) ret out xs = none
effect (Call.input_unregister_device (some p)) ret out xs = release (input p) xs
effect Call.kset_create_and_add ret out xs = on_object ret kset xs
effect Call.kobject_create_and_add ret out xs = on_object ret kobject xs
effect (Call.kobject_put p) ret out xs = release (kobject p) xs
effect (Call.kobject_uevent p) ret out xs = need (kobject p) xs
effect (Call.sysfs_create_group p) ret out xs =
    and_then (need (kobject p) xs) (on_zero ret (group p))
effect (Call.sysfs_remove_group p) ret out xs = release (group p) xs
effect Call.bus_register ret out xs = on_zero ret bus xs
effect Call.bus_create_file ret out xs = need bus xs
effect Call.bus_remove_file ret out xs = need bus xs
effect Call.bus_unregister ret out xs = release bus xs
effect Call.device_register ret out xs = on_zero ret bus_device xs
effect Call.device_add_file ret out xs = need bus_device xs
effect Call.device_remove_file ret out xs = need bus_device xs
effect Call.device_unregister ret out xs = release bus_device xs
effect Call.driver_register ret out xs = on_zero ret bus_driver xs
effect Call.driver_create_file ret out xs = need bus_driver xs
effect Call.driver_remove_file ret out xs = need bus_driver xs
effect Call.driver_unregister ret out xs = release bus_driver xs
effect Call.down_interruptible ret out xs = on_zero ret semaphore xs
effect Call.up ret out xs = release semaphore xs
effect Call.spin_lock_irqsave ret out xs = if holds spinlock xs then none else some (spinlock ∷ xs)
effect Call.spin_unlock_irqrestore ret out xs = release spinlock xs
effect _ ret out xs = some xs

abbrev pub ledger : List Event → Option (List Resource)
ledger [] = some []
ledger (e ∷ es) = and_then (ledger es) (effect e.call e.ret e.out)
