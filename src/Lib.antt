-- ===== src/Lib.antt =====
-- Linux kernel drivers: the character device exercises under drivers/ and the stm32mp157 drivers
-- under openedv/linux/stm32mp157.
--
-- Every driver is a kernel module: an init function takes resources of the kernel step by step and
-- gives them back through `goto` labels when a step fails, file operations and interrupts work on
-- one global struct, and an exit function gives everything back. The drivers share no code, but
-- most were written from each other, so the files here share what the sources repeat.
--
-- Kernel: the kernel is a parameter. `Kernel.Calls` names the calls that the drivers make; a
-- `Kernel` record answers each of them from all calls made before, without any restriction but the
-- documented kind of the answer: 0 or a negative error, a pointer or an error pointer, an object or
-- NULL, any int. `Kernel.Run` runs a driver's function as an action on the driver's struct and the
-- log of its calls. `Kernel.Ledger` reads off a log what the driver holds (gpio lines, interrupts,
-- device numbers, cdevs, classes, devices, memory, pages, mapped registers, input devices, objects
-- of sysfs, a semaphore, a spinlock) by the documented effect of each call; it has no result once
-- something is released or used that is not held, or a buffer is overrun. `Kernel.Lines` reads off
-- what was last put on a line or copied to the user. `Prelude.Bits` has what masks and shifts
-- compute. `Kernel.Uaccess` has the copies of bytes from and to the user, of which some may be left
-- out. `Kernel.Friendly` is a concrete kernel for the examples. `Kernel.Files` has the tables of
-- file operations; each driver's table stands at the end of its module. `Kernel.Bus` has a bus with
-- a place for one device, which calls the probe and the remove of a driver by the driver core's
-- rules; how the bus matches is a parameter. `Kernel.Bus.Binding` is about every driver that keeps
-- its promise.
--
-- Chrdev: the registration of a character device, from taking the device numbers to device_create,
-- with the labels that take it back, as in 03_newchrled, 04_dtsled, 05_gpioled, 11_key, 12_timer
-- and, with a dynamic number only, in the four interrupt drivers. DeviceTree: the checks of a node
-- with which the parse functions begin.
--
-- Debounce: the way from an edge of a key's line over the interrupt, the tasklet and the timer to a
-- sample. The line is an input, edge by edge and tick by tick of the kernel's clock, and both its
-- edges raise the interrupt, as the drivers ask for where the device tree says nothing else; a
-- scheduled tasklet runs when the interrupt returns. The clock's HZ belongs to the kernel's
-- configuration: `msecs_to_jiffies` is a parameter, of which 15 ms has to be a positive number of
-- ticks. `Debounce.Gestures` is about every driver that keeps the laws there, and
-- `Debounce.Drivers` has the five drivers that do.
--
-- Gpioled: 05_gpioled/gpioled.c. Key: 11_key/key.c. Timer: 12_timer/timer.c, with the kernel's
-- timer as a flag that a timer is pending; `Timer.Races` has its ioctl and its timer's function at
-- the same time. IrqKeys: 13_irq/keyirq.c, 14_blockio/blockio.c,
-- 15_noblockio/noblockio.c and 16_fasync/fasync.c, which differ in how a read waits; the functions
-- that they share are in IrqKeys, those of each driver in a child module of its name. Hello:
-- drivers/helloDev/hello.c. GlobalMem: drivers/globalMem/global_mem.c. Chardev:
-- drivers/chrdev/chardev.c, with `Chardev.Module` for loading and unloading it and for the files
-- that are open on it. `Hello.Sharing` has several processes on hello.c at once, as the moves of one
-- process at a time between points at which another may come in. HelloWorld: drivers/hello/hello.c.
--
-- Mmio: the registers of the LED at pin PI0, which 02_led/led.c, 03_newchrled/newchrled.c,
-- 04_dtsled/dtsled.c and 17_platform/leddriver.c program with the same code: a register is named by
-- the variable that holds its mapping. The drivers themselves are Led, Newchrled, Dtsled and
-- PlatformLed. `PlatformLed.Bus` has the two modules of 17_platform on the platform bus. Myclass:
-- the three LEDs of drivers/myclass/myclass.c. Miscbeep: 19_miscbeep/miscbeep.c. Keyinput:
-- 20_input/keyinput.c. Ap3216c: 21_iic/ap3216c.c. Icm20608: 22_spi/icm20608.c. Ft5x06: the
-- interrupt of 23_multitouch/ft5x06.c; Ft5x06.Driver: the rest of it. Sysfstest:
-- drivers/sysfstest/sysfstest.c. Xbus: drivers/xbus, a bus with its device and driver.
-- Buses: the drivers that a bus binds by their tables, which stand in a module `Binding` of each.
--
-- Apps: the user space test programs, each on the driver that it tests. `Apps.Keys` has the
-- programs that read a key (keyirqApp.c, blockioApp.c, noblockioApp.c and fasyncApp.c in the
-- directories of their drivers), `Apps.Blinking` 12_timer/timerApp.c, `Apps.Sensing`
-- 22_spi/icm20608App.c, `Apps.Testdriver` drivers/chrdev/tests/testdriver.c and `Apps.HelloTest`
-- drivers/helloDev/tests/test.c. A program's calls are the operations of the driver's model; what a
-- copy that failed leaves in a variable, what an uninitialised one holds, and the arithmetic of
-- floats and doubles, with the conversions between them, are parameters.
--
-- A definition has the name of the function that it models; a part of a function has a name of its
-- own and says which part it is. An `Examples` module has the theorems of its component at concrete
-- inputs.
--
-- Numbers: an int or a loff_t is an integer of `Prelude.Int`, an unsigned value a natural number,
-- and conversions between them are written out (`to_uint`, `to_ulong`, `to_int`, and `to_loff` for
-- sums that wrap around). Memory is a list of bytes; an access outside a buffer, where the source
-- does not prevent it, is a result of its own (`none` in Chardev, in Sysfstest and in the led_write
-- of Mmio).
--
-- Loops: the busy loop of key.c has fuel, and enough of it is one more than the number of polls
-- that find the key down. A sleep of the blocking reads is given the number of timer expiries that
-- happen before a signal ends it. The number of timer expiries in Timer is an argument. The endless
-- loops of the test programs run for a list of rounds, or of inputs, that is an argument.
--
-- Not modelled: messages (printk, pr_err) but those of drivers/hello and of opening, closing,
-- loading and unloading chardev.c; module metadata; the open and release functions of global_mem.c,
-- which pass on its only struct; `private_data`, through which the other drivers reach their one
-- struct, which the functions here take as the device; the initialisation of kernel objects without
-- a result (cdev_init, init_waitqueue_head, spin_lock_init); and interleavings on several
-- processors other than those that a theorem names. simple_strtoul, gpio_is_valid, gpio_to_irq and
-- the matching of the platform, I2C and SPI buses are parameters of the definitions that use them;
-- what a buffer holds after a transfer that failed is any list of bytes. What the `devm_` calls of
-- ft5x06.c have taken is given back by the kernel and stays in the log.
mod Prelude
pub mod Kernel
pub mod Chrdev
pub mod Debounce
pub mod DeviceTree
pub mod Buses
pub mod Chardev
pub mod GlobalMem
pub mod HelloWorld
pub mod Gpioled
pub mod Key
pub mod Hello
pub mod IrqKeys
pub mod Timer
pub mod Ft5x06
pub mod Ap3216c
pub mod Apps
pub mod Mmio
pub mod Led
pub mod Newchrled
pub mod Dtsled
pub mod PlatformLed
pub mod Icm20608
pub mod Keyinput
pub mod Miscbeep
pub mod Myclass
pub mod Sysfstest
pub mod Xbus
