-- ===== src/Kernel/Calls.antt =====
-- The kernel interface of the drivers under openedv/linux/stm32mp157 and drivers/. The kernel is no
-- part of the repository: it is a parameter, which answers each call from the calls made before.
use learning_kernel.Prelude.{ℕ, ℤ, pos, negsuc, suc, String, Option, none, some, List}

pub data Call : Type 0 where
  -- device tree
  of_find_node_by_path : String → Call
  of_property_read_string : String → Call
  of_get_named_gpio : String → Call
  irq_of_parse_and_map : Call
  -- gpio lines
  gpio_request : ℤ → Call
  gpio_direction_input : ℤ → Call
  gpio_direction_output : ℤ → ℕ → Call
  gpio_get_value : ℤ → Call
  gpio_set_value : ℤ → ℕ → Call
  gpio_free : ℤ → Call
  -- interrupts and deferred work
  irq_get_trigger_type : ℤ → Call
  request_irq : ℤ → ℕ → Call
  free_irq : ℤ → Call
  tasklet_init : Call
  tasklet_schedule : Call
  timer_setup : Call
  mod_timer : ℤ → Call
  del_timer_sync : Call
  -- waiting readers
  wait_event_interruptible : Call
  wake_up_interruptible : Call
  kill_fasync : Call
  fasync_helper : Call
  poll_wait : Call
  -- character devices: a cdev is named by its slot in the driver
  alloc_chrdev_region : Call
  register_chrdev_region : ℕ → Call
  unregister_chrdev_region : ℕ → Call
  cdev_add : ℕ → ℕ → Call
  cdev_del : ℕ → Call
  class_create : Call
  class_destroy : ℤ → Call
  device_create : ℤ → ℕ → Call
  device_destroy : ℤ → ℕ → Call
  device_create_file : ℤ → Call
  dev_set_drvdata : ℤ → Call
  -- memory
  kmalloc : Call
  kfree : ℕ → Call
  get_free_page : Call
  free_page : ℕ → Call
  -- an int or an array of them copied to the user, or one that comes from the user
  copy_to_user : ℤ → Call
  copy_from_user : Call
  copy_ints_to_user : List ℤ → Call
  -- a number parsed from the user's text, in the given base
  kstrtoul_from_user : ℕ → Call
  -- I2C: a register, or a register and so many more, read or written; misc devices
  i2c_read : ℕ → Call
  i2c_write : ℕ → ℕ → Call
  i2c_read_bytes : ℕ → ℕ → Call
  i2c_write_bytes : List ℕ → Call
  misc_register : Call
  misc_deregister : Call
  misc_set_drvdata : Call
  -- registers mapped into memory: a mapping is named by the variable that holds its pointer; a
  -- write to an address that is no mapping
  ioremap : ℕ → ℕ → Call
  of_iomap : ℕ → Call
  iounmap : ℕ → Call
  readl : ℕ → Call
  writel : ℕ → ℕ → Call
  write_raw : ℕ → ℕ → Call
  -- platform devices and numbers in the device tree
  platform_get_resource : ℕ → Call
  platform_device_register : Call
  platform_device_unregister : Call
  platform_driver_register : Call
  platform_driver_unregister : Call
  of_find_property : String → Call
  of_property_read_u32_array : String → Call
  -- a region of so many device numbers, by its first
  alloc_chrdev_regions : ℕ → Call
  unregister_chrdev_regions : ℕ → ℕ → Call
  -- character devices of the old interface
  register_chrdev : ℕ → Call
  register_chrdev_dynamic : Call
  unregister_chrdev : ℕ → Call
  -- so many of the user's bytes copied into a buffer of the given size
  copy_into : ℕ → ℕ → Call
  -- so many bytes copied into a part of a buffer of the given size
  memcpy : ℕ → ℕ → Call
  -- input devices
  input_allocate_device : Call
  input_register_device : ℕ → Call
  input_unregister_device : Option ℕ → Call
  input_report_key : Option ℕ → ℕ → Call
  input_sync : Option ℕ → Call
  input_set_abs_params : Call
  input_mt_init_slots : Call
  -- SPI: a command with an answer of the given length, and bytes written; waiting so many ms
  spi_setup : Call
  spi_write_then_read : ℕ → ℕ → Call
  spi_write : List ℕ → Call
  mdelay : ℕ → Call
  msleep : ℕ → Call
  -- what the kernel gives back by itself when a driver is unbound
  devm_kmalloc : Call
  devm_gpio_request_one : ℤ → Call
  devm_request_threaded_irq : ℤ → Call
  devm_input_allocate_device : Call
  -- a bus, a static device and a driver on it, each with an attribute file; device_add_file is
  -- device_create_file on the static device
  bus_register : Call
  bus_create_file : Call
  bus_remove_file : Call
  bus_unregister : Call
  device_register : Call
  device_add_file : Call
  device_remove_file : Call
  device_unregister : Call
  driver_register : Call
  driver_create_file : Call
  driver_remove_file : Call
  driver_unregister : Call
  -- objects of sysfs
  kset_create_and_add : Call
  kobject_create_and_add : Call
  kobject_put : ℕ → Call
  kobject_uevent : ℕ → Call
  sysfs_create_group : ℕ → Call
  sysfs_remove_group : ℕ → Call
  -- locks
  down_interruptible : Call
  up : Call
  spin_lock_irqsave : Call
  spin_unlock_irqrestore : Call
  -- a message, without or with a number at its end
  printk : String → Call
  printk_number : String → ℤ → Call

-- A call that has been made, with its value; `out` is what it stored through a pointer argument.
pub record Event : Type 0 where
  pub call : Call
  pub ret : ℤ
  pub out : ℕ

-- What a function documented to return 0 or a negative error code returns.
pub data Status : Type 0 where
  success : Status
  failure : ℕ → Status

-- What a function documented to return a pointer or ERR_PTR(-errno) returns.
pub data Pointer : Type 0 where
  valid : ℕ → Pointer
  err_ptr : ℕ → Pointer

abbrev pub status_code : Status → ℤ
status_code success = pos 0
status_code (failure n) = negsuc n

-- A valid pointer is not NULL.
abbrev pub pointer_code : Pointer → ℤ
pointer_code (valid p) = pos (suc p)
pointer_code (err_ptr n) = negsuc n

-- A pointer that is NULL on failure; an allocated object is not at address 0.
abbrev pub object_code : Option ℕ → ℤ
object_code none = pos 0
object_code (some p) = pos (suc p)

-- The answers, each from the calls made before (newest first) and the call itself.
pub record Kernel : Type 0 where
  pub status : List Event → Call → Status
  pub pointer : List Event → Call → Pointer
  pub object : List Event → Call → Option ℕ
  pub int : List Event → Call → ℤ
  pub number : List Event → Call → ℕ
  pub text : List Event → Call → String
  pub bytes : List Event → Call → List ℕ
