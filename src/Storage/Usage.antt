-- ===== src/Storage/Usage.antt =====
-- How much a volume holds, in storage/src/storage_impl.c.
use hwrun_os_linux.Prelude.{
  ℕ, ◌+◌, ◌-◌, ◌*◌, ◌%◌, ◌^◌, Bool, not, List, [], ◌∷◌, Option, none, some, Bytes, is_empty,
  if◌then◌else◌, ◌==◌, ◌⊎◌, inl, inr,
}
use hwrun_os_linux.Errno.{Errno, Rc, ok, err, einval, enoent}
use hwrun_os_linux.Storage.{Volume, Ctx, storage_find_volume}
use hwrun_os_linux.Storage.Fs.{Fs, is_dir}
use hwrun_os_linux.Storage.Volumes.{guarded}

-- struct statvfs, with the fields that are read; unsigned 64-bit numbers.
pub record Statvfs : Type 0 where
  pub bsize : ℕ
  pub frsize : ℕ
  pub blocks : ℕ
  pub bfree : ℕ
  pub bavail : ℕ
  pub files : ℕ
  pub ffree : ℕ

-- hw_storage_df_t
pub record Df : Type 0 where
  pub size_limit : ℕ
  pub used_bytes : ℕ
  pub file_count : ℕ
  pub fs_total : ℕ
  pub fs_used : ℕ
  pub fs_avail : ℕ
  pub fs_block_size : ℕ
  pub fs_files : ℕ
  pub fs_files_free : ℕ

-- The rounds of storage_du_walk_cb, over what nftw visits: whether it is a file, and its size.
unfoldable pub du_walk : ℕ → ℕ → List (Bool × ℕ) → ℕ × ℕ
du_walk bytes files [] = (bytes, files)
du_walk bytes files ((is_file, size) ∷ rest) =
    if is_file
    then du_walk ((bytes + size) % 2 ^ 64) ((files + 1) % 2 ^ 64) rest
    else du_walk bytes files rest

abbrev unit_of : Statvfs → ℕ
unit_of sv = if sv.frsize == 0 then sv.bsize else sv.frsize

-- The end of storage_volume_df.
unfoldable pub df_of : ℕ → ℕ × ℕ → Statvfs → Df
df_of limit (bytes, files) sv = record {
  size_limit = limit;
  used_bytes = bytes;
  file_count = files;
  fs_total = (sv.blocks * unit_of sv) % 2 ^ 64;
  fs_used = (((sv.blocks + 2 ^ 64 - sv.bfree) % 2 ^ 64) * unit_of sv) % 2 ^ 64;
  fs_avail = (sv.bavail * unit_of sv) % 2 ^ 64;
  fs_block_size = sv.bsize;
  fs_files = sv.files;
  fs_files_free = sv.ffree;
}

-- `visited` is what nftw passes to its callback in turn.
module _ {F : Type 0} (fs : Fs F) (visited : F → Bytes → Errno ⊎ List (Bool × ℕ))
    (statvfs : F → Bytes → Errno ⊎ Statvfs) where
  unfoldable pub storage_du : F → Bytes → Errno ⊎ (ℕ × ℕ)
  unfolding du_walk
  storage_du f path = elim (visited f path) [ inl e ↦ inl e | inr rest ↦ inr (du_walk 0 0 rest) ]

  df_found : F → Volume → Option Df × Rc
  unfolding storage_du df_of
  df_found f v =
      if not (is_dir (fs.lstat f v.path)) then (none, err enoent) else elim (storage_du f v.path) [
        | inl e ↦ (none, err e)
        | inr used ↦ elim (statvfs f v.path) [
          | inl e ↦ (none, err e)
          | inr sv ↦ (some (df_of v.size_limit used sv), ok)
        ]
      ]

  -- What `*out` has in the end of a call that succeeds.
  unfoldable pub storage_volume_df : Ctx F → Option Bytes → Option Df × Rc
  unfolding df_found storage_find_volume
  storage_volume_df ctx none = (none, err einval)
  storage_volume_df ctx (some n) =
      guarded (is_empty n) ctx.initialized (λ e. (none, err e))
        (elim (storage_find_volume ctx.volumes n) [
          | none ↦ (none, err enoent)
          | some v ↦ df_found ctx.disk v
        ])
