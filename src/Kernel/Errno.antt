-- ===== src/Kernel/Errno.antt =====
-- The error codes that the drivers return, negated as in the sources: `einval` is -EINVAL.
use learning_kernel.Prelude.{ℤ, negsuc}

abbrev pub eio : ℤ
eio = negsuc 4

abbrev pub enxio : ℤ
enxio = negsuc 5

abbrev pub eagain : ℤ
eagain = negsuc 10

abbrev pub enomem : ℤ
enomem = negsuc 11

abbrev pub enotty : ℤ
enotty = negsuc 24

abbrev pub efault : ℤ
efault = negsuc 13

abbrev pub einval : ℤ
einval = negsuc 21

abbrev pub enospc : ℤ
enospc = negsuc 27

abbrev pub erestartsys : ℤ
erestartsys = negsuc 511
