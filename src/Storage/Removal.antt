-- ===== src/Storage/Removal.antt =====
-- What the calls that remove a volume in storage/src/storage_impl.c return, and what they leave.
use hwrun_os_linux.Prelude.{
  zero, suc, ◌≡◌, ◌≢◌, refl, Bool, false, List, [], ◌∷◌, Option, none, some, Bytes, ℤ, pos, negsuc,
  codes, length, str_eq, is_empty, find?, drop_first, arith, Bool-cases, ◌⊎◌, inl, inr,
}
use hwrun_os_linux.Errno.{Errno, Rc, ok, err, einval, enoent, eperm, Rc-cases}
use hwrun_os_linux.Storage.{Volume, Ctx, storage_find_volume, volume_called}
use hwrun_os_linux.Storage.Fs.{
  Fs, Kind, missing, directory, regular, symlink, special, unreadable, Walk, walked, broken,
  stopped_by,
}
use hwrun_os_linux.Storage.State.{storage_persist}
use hwrun_os_linux.Storage.Volumes.{
  delete_found, remove_data, is_set, guarded_elim, drop_volume, storage_delete_volume,
}

length-drop_first :
    (p : Volume → Bool) (vs : List Volume) (v : Volume)
    → find? p vs ≡ some v
    → suc (length (drop_first p vs)) ≡ length vs
unfolding find? drop_first
length-drop_first p [] v h = ground arith
length-drop_first p (w ∷ vs) v h = ground (arith, length-drop_first p vs v)

-- The record of a name has gone from the list, and the call returns what the write of the file gave.
abbrev pub Dropped : {F : Type 0} → Fs F → Ctx F → Bytes → F → Ctx F × Rc → Type 0
Dropped fs ctx n f out =
    let saved =
      storage_persist fs
        (record ctx { volumes = drop_first (volume_called n) ctx.volumes; disk = f }) in
    (out.0 ≡ record ctx { volumes = drop_first (volume_called n) ctx.volumes; disk = saved.0 })
    × (suc (length out.0.volumes) ≡ length ctx.volumes)
    × (out.1 ≡ saved.1)

abbrev pub Kept : {F : Type 0} → Ctx F → Ctx F × Rc → Type 0
Kept ctx out =
    ((e : Errno) × (out.1 ≡ err e))
    × (out.0.volumes ≡ ctx.volumes)
    × (out.0.snapshots ≡ ctx.snapshots)

-- What becomes of the data below a path: it is walked to the end by nftw where lstat shows a directory,
-- and left where lstat fails.
pub data Removed {F : Type 0} (fs : Fs F) (f : F) (path : Bytes) : F → Type 0 where
  emptied :
      fs.lstat f path ≡ directory
      → (fs.rm_walk f path).1 ≡ walked
      → Removed fs f path (fs.rm_walk f path).0
  absent : fs.lstat f path ≡ missing → Removed fs f path f
  unseen : (e : Errno) → fs.lstat f path ≡ unreadable e → Removed fs f path f

-- What a call that deletes a volume may end in.
abbrev pub DeleteOutcome : {F : Type 0} → Fs F → Ctx F → Bytes → Ctx F × Rc → Type 0
DeleteOutcome {F = F} fs ctx n out =
    Kept ctx out
    ⊎ ((v : Volume) × (storage_find_volume ctx.volumes n ≡ some v)
        × (v.readonly ≡ pos 0)
        × (v.path ≢ codes "/")
        × ((f : F) × Removed fs ctx.disk v.path f × Dropped fs ctx n f out))

is_set-pos : (z : ℤ) → is_set z ≡ false → z ≡ pos 0
is_set-pos (pos zero) h = refl
is_set-pos (pos (suc n)) h = ground arith
is_set-pos (negsuc n) h = ground arith

module _ {F : Type 0} (fs : Fs F) where
  remove_data-Removed :
      (f : F) (path : Bytes)
      → (remove_data fs f path).1 ≡ ok
      → Removed fs f path (remove_data fs f path).0
  unfolding remove_data
  remove_data-Removed f path h = go (fs.lstat f path) refl h
    where
      ends :
          (w : Walk)
          → (fs.rm_walk f path).1 ≡ w
          → fs.lstat f path ≡ directory
          → (remove_data fs f path).1 ≡ ok
          → Removed fs f path (remove_data fs f path).0
      ends walked w d h = rw (d, w, remove_data) (emptied d w)
      ends broken w d h = absurd (ground arith)
      ends (stopped_by e) w d h = absurd (ground arith)

      go :
          (k : Kind)
          → fs.lstat f path ≡ k
          → (remove_data fs f path).1 ≡ ok
          → Removed fs f path (remove_data fs f path).0
      go directory k h = ends (fs.rm_walk f path).1 refl k h
      go missing k h = rw (k, remove_data) (absent k)
      go (unreadable e) k h = rw (k, remove_data) (unseen e k)
      go regular k h = absurd (ground arith)
      go symlink k h = absurd (ground arith)
      go special k h = absurd (ground arith)

  drop_volume_outcome :
      (ctx : Ctx F) (n : Bytes) (f : F) (v : Volume)
      → storage_find_volume ctx.volumes n ≡ some v
      → Dropped fs ctx n f (drop_volume fs ctx n f)
  unfolding drop_volume storage_find_volume
  drop_volume_outcome ctx n f v h =
      (refl, length-drop_first (volume_called n) ctx.volumes v h, refl)

  delete_found_outcome :
      (ctx : Ctx F) (n : Bytes) (found : Option Volume)
      → storage_find_volume ctx.volumes n ≡ found
      → DeleteOutcome fs ctx n (delete_found fs ctx n found)
  unfolding delete_found
  delete_found_outcome ctx n none h = inl ((enoent, refl), refl, refl)
  delete_found_outcome ctx n (some v) h = elim (Bool-cases (is_set v.readonly)) [
    | inl e ↦ inl (rw (e, delete_found) ((eperm, refl), refl, refl))
    | inr e ↦ elim (Bool-cases (str_eq v.path (codes "/"))) [
      | inl root ↦ inl (rw (e, root, delete_found) ((einval, refl), refl, refl))
      | inr below ↦ elim (Rc-cases (remove_data fs ctx.disk v.path).1) [
        | inr (x, failed) ↦ inl (rw (e, below, failed, delete_found) ((x, refl), refl, refl))
        | inl gone ↦ inr (
          v,
          h,
          is_set-pos v.readonly e,
          ground (arith, below),
          (
            (remove_data fs ctx.disk v.path).0,
            remove_data-Removed ctx.disk v.path gone,
            rw (e, below, gone, delete_found)
                (drop_volume_outcome ctx n (remove_data fs ctx.disk v.path).0 v h),
          ),
        )
      ]
    ]
  ]

  -- A call that deletes a volume either fails and leaves both lists, or has found a volume that is not
  -- read-only and not the root, and has dropped its record. In the second case nftw has walked the
  -- volume's directory to the end and succeeded, or lstat has failed, for a directory that is not there or
  -- for any other reason, and the data is left alone. The list is one shorter whatever the call
  -- returns, which is what the write of the state file gave: when that fails, the record has gone from
  -- the list all the same.
  pub delete_outcome :
      (ctx : Ctx F) (n : Bytes) → DeleteOutcome fs ctx n (storage_delete_volume fs ctx (some n))
  unfolding storage_delete_volume
  delete_outcome ctx n =
      guarded_elim {A = Ctx F × Rc} (DeleteOutcome fs ctx n) (is_empty n) ctx.initialized
        (λ e. (ctx, err e)) (delete_found fs ctx n (storage_find_volume ctx.volumes n))
        (λ e. inl ((e, refl), refl, refl))
        (delete_found_outcome ctx n (storage_find_volume ctx.volumes n) refl)
