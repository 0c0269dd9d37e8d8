-- ===== src/Errno.antt =====
-- include/hwrun.h: return codes. 0 is `ok`, and a negative errno is `err`.
use mathlib.Core.Path.{◌≡◌, refl}
use mathlib.Core.Logic.{◌⊎◌, inl, inr}

pub data Errno : Type 0 where
  eperm enoent eio enomem eacces eexist einval enospc enametoolong enotsup eilseq enotdir : Errno
  -- HWRUN_ECONFLICT and HWRUN_ENOTREADY, of the private domain above HW_EBASE
  econflict enotready : Errno
  -- another code, which a callback of a plugin or the system returned
  other : Errno

pub data Rc : Type 0 where
  ok : Rc
  err : Errno → Rc

pub Rc-cases : (rc : Rc) → (rc ≡ ok) ⊎ ((e : Errno) × (rc ≡ err e))
Rc-cases ok = inl refl
Rc-cases (err e) = inr (e, refl)
