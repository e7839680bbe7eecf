-- ===== src/Errno.antt =====
-- The return codes of the module's functions, which are those of the kernel's errno.h.
use nano_net_ull.Base.{ℕ, Bool, true, false}

-- `success` is 0; the others stand for `-EINVAL` and so on.
pub data Code : Type 0 where
  success einval eprotonosupport enomem ebusy eperm eio efault enotty enodev enetdown : Code

-- `result < 0`
abbrev pub is_error : Code → Bool
is_error success = false
is_error _ = true

-- The number behind the minus sign.
abbrev pub magnitude : Code → ℕ
magnitude success = 0
magnitude eperm = 1
magnitude eio = 5
magnitude enomem = 12
magnitude efault = 14
magnitude ebusy = 16
magnitude enodev = 19
magnitude einval = 22
magnitude enotty = 25
magnitude eprotonosupport = 93
magnitude enetdown = 100
