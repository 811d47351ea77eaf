-- ===== src/Common/Outcomes.antt =====
-- What a kernel function gives back: a value, or one of the error numbers that the driver uses.
use Prim.Native.Nat.{ℕ}

-- `raw n` is a negative number -n that is no named error.
pub data Errno : Type 0 where
  eio erestartsys enodev enomem einval efault enospc ebusy eperm : Errno
  raw : ℕ → Errno

pub data Result {ℓ} (A : Type ℓ) : Type ℓ where
  ok : A → Result A
  err : Errno → Result A
