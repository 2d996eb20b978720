-- ===== src/Kernel.antt =====
-- What the drivers ask of the kernel, and how a driver's function is run against it.
pub mod Calls
pub mod Errno
pub mod Run
pub mod Ledger
pub mod Uaccess
pub mod Lines
pub mod Friendly
pub mod Files
pub mod Bus
pub mod Misc
