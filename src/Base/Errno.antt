-- ===== src/Base/Errno.antt =====
-- The error numbers that the modelled functions return (`-ENOMEM` and so on), and the result of a
-- function that returns either an error or a value.
use mathlib.Core.Bool.{Bool, true, false}

pub data Errno : Type 0 where
  eagain efault einval enomem enospc enfile ebadf epipe ewouldblock enametoolong enotsup : Errno
  eintr erestart etimedout eio eacces enosys eperm esrch : Errno

pub data Result {ℓ} (A : Type ℓ) : Type ℓ where
  ok : A → Result A
  err : Errno → Result A

abbrev pub is_enospc : Errno → Bool
is_enospc enospc = true
is_enospc _ = false
