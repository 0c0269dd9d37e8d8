-- ===== src/Storage/Snapshots.antt =====
-- The snapshots of storage/src/storage_impl.c: copies of the directory of a volume.
-- storage_snapshot_create takes the lock twice, and copies in between. `prepare` and `finish` are its
-- two locked sections, so that steps of others can stand between them. storage_snapshot_delete drops the
-- record under the lock, `drop_snapshot`, and removes the directory after it, `remove_copy`.
use hwrun_os_linux.Prelude.{
  ℕ, suc, Bool, true, false, not, ◌||◌, List, [], ◌∷◌, ◌++◌, Option, none, some, Bytes, codes,
  length, str_eq, is_empty, fit, drop_first, keep, take, map, if◌then◌else◌, ℤ, pos, ◌⊎◌, inl, inr,
}
use hwrun_os_linux.Errno.{Errno, Rc, ok, err, einval, enoent, eio, eperm, enomem, eexist, enotready}
use hwrun_os_linux.Storage.{
  Snapshot, Ctx, storage_valid_label, storage_gen_id, storage_find_volume, storage_find_snapshot,
  storage_find_snapshot_in, snapshot_called,
}
use hwrun_os_linux.Storage.Fs.{Fs, Kind, missing, unreadable, is_dir, walked, broken, stopped_by}
use hwrun_os_linux.Storage.State.{storage_persist}
use hwrun_os_linux.Storage.Volumes.{guarded, is_set}
use hwrun_os_linux.Storage.Fs.{storage_copy_tree, storage_dir_clear}

-- hw_storage_snapshot_info_t
pub record SnapshotInfo : Type 0 where
  pub id : Bytes
  pub name : Bytes
  pub volume : Bytes
  pub path : Bytes
  pub created_at : ℕ
  pub active : ℤ

unfoldable pub storage_snap_fill : Snapshot → SnapshotInfo
storage_snap_fill s = record {
  id = fit 40 s.id;
  name = fit 128 s.name;
  volume = fit 128 s.volume;
  path = fit 512 s.path;
  created_at = s.created_at;
  active = s.active;
}

-- vol_name, vol_path and snap_path
pub record Plan : Type 0 where
  pub vol_name : Bytes
  pub vol_path : Bytes
  pub snap_path : Bytes

abbrev snapshot_path : Bytes → Bytes → Bytes → Bytes
snapshot_path dir volume name = fit 512 (dir ++ codes "/snapshots/" ++ volume ++ b'/' ∷ name)

abbrev is_there : Kind → Bool
is_there missing = false
is_there (unreadable e) = false
is_there _ = true

abbrev pub new_snapshot : Bytes → ℕ → Bytes → Plan → Snapshot
new_snapshot random now name plan = record {
  id = fit 40 (storage_gen_id random);
  name = fit 128 name;
  volume = fit 128 plan.vol_name;
  path = fit 512 plan.snap_path;
  created_at = now;
  active = pos 1;
}

module _ {F : Type 0} (fs : Fs F) where
  -- The first locked section.
  unfoldable pub prepare : Ctx F → Bytes → Bytes → Errno ⊎ Plan
  unfolding storage_find_volume storage_find_snapshot_in
  prepare ctx n name = elim (storage_find_volume ctx.volumes n) [
    | none ↦ inl enoent
    | some v ↦
        if not (is_dir (fs.lstat ctx.disk v.path))
        then inl enoent
        else elim (storage_find_snapshot_in ctx.snapshots v.name name) [
          | some s ↦ inl eexist
          | none ↦
              if is_there (fs.lstat ctx.disk (snapshot_path ctx.state_dir v.name name))
              then inl eexist
              else inr record {
                vol_name = fit 128 v.name;
                vol_path = fit 512 v.path;
                snap_path = snapshot_path ctx.state_dir v.name name;
              }
        ]
  ]

  abbrev discarded : Ctx F → Bytes → Errno → Ctx F × Rc × Option SnapshotInfo
  discarded ctx path e = (record ctx { disk = (fs.rm_walk ctx.disk path).0 }, err e, none)

  -- The second locked section, with the new record.
  unfoldable pub finish : Ctx F → Bytes → Plan → Snapshot → Ctx F × Rc × Option SnapshotInfo
  unfolding storage_persist storage_snap_fill storage_find_volume storage_find_snapshot_in
  finish ctx name plan s = elim (storage_find_volume ctx.volumes plan.vol_name) [
    | none ↦ discarded ctx plan.snap_path enoent
    | some v ↦ elim (storage_find_snapshot_in ctx.snapshots plan.vol_name name) [
      | some other ↦ discarded ctx plan.snap_path eexist
      | none ↦
          (let saved = storage_persist fs (record ctx { snapshots = s ∷ ctx.snapshots }) in
            elim saved.1 [
              | err e ↦ discarded (record ctx { disk = saved.0 }) plan.snap_path e
              | ok ↦ (
                record ctx { snapshots = s ∷ ctx.snapshots; disk = saved.0 },
                ok,
                some (storage_snap_fill s),
              )
            ])
    ]
  ]

  -- The copy, outside of the lock, and all that follows.
  unfoldable pub copy_and_finish :
      ℕ → Ctx F → Bool → Bytes → ℕ → Bytes → Plan → Ctx F × Rc × Option SnapshotInfo
  unfolding finish storage_copy_tree
  copy_and_finish depth ctx alloc random now name plan =
      (let copied = storage_copy_tree fs depth ctx.disk plan.vol_path plan.snap_path in
        let after = record ctx { disk = copied.0 } in
        elim copied.1 [
          | err e ↦ discarded after plan.snap_path e
          | ok ↦
              if alloc
              then finish after name plan (new_snapshot random now name plan)
              else discarded after plan.snap_path enomem
        ])

  create_checked : ℕ → Ctx F → Bool → Bytes → ℕ → Bytes → Bytes → Ctx F × Rc × Option SnapshotInfo
  unfolding prepare copy_and_finish storage_valid_label
  create_checked depth ctx alloc random now n name = elim (storage_valid_label name 128) [
    | err e ↦ (ctx, err e, none)
    | ok ↦ elim (prepare ctx n name) [
      | inl e ↦ (ctx, err e, none)
      | inr plan ↦ copy_and_finish depth ctx alloc random now name plan
    ]
  ]

  -- The call with no step of another thread in between.
  unfoldable pub storage_snapshot_create :
      ℕ → Ctx F → Bool → Bytes → ℕ → Option Bytes → Option Bytes → Ctx F × Rc × Option SnapshotInfo
  unfolding create_checked
  storage_snapshot_create depth ctx alloc random now (some n) (some name) =
      guarded (is_empty n) ctx.initialized (λ e. (ctx, err e, none))
        (create_checked depth ctx alloc random now n name)
  storage_snapshot_create depth ctx alloc random now _ _ = (ctx, err einval, none)

  -- The volume that a snapshot goes back to: its own where none is asked for.
  abbrev pub wanted : Option Bytes → Snapshot → Bytes
  wanted none s = s.volume
  wanted (some t) s = if is_empty t then s.volume else t

  -- What is restored, and where to.
  unfoldable pub restore_plan : Ctx F → Bytes → Option Bytes → Errno ⊎ (Bytes × Bytes)
  unfolding storage_find_snapshot storage_find_volume
  restore_plan ctx n target = elim (storage_find_snapshot ctx.snapshots n) [
    | none ↦ inl enoent
    | some s ↦ elim (storage_find_volume ctx.volumes (wanted target s)) [
      | none ↦ inl enoent
      | some v ↦
          if is_set v.readonly
          then inl eperm
          else if not (is_dir (fs.lstat ctx.disk s.path))
          then inl enoent
          else if not (is_dir (fs.lstat ctx.disk v.path))
          then inl enoent
          else inr (fit 512 s.path, fit 512 v.path)
    ]
  ]

  restore_tree : ℕ → F → Bytes → Bytes → F × Rc
  unfolding storage_dir_clear storage_copy_tree
  restore_tree depth f snap vol =
      (let cleared = storage_dir_clear fs f vol in
        elim cleared.1 [ err e ↦ cleared | ok ↦ storage_copy_tree fs depth cleared.0 snap vol ])

  -- The new state of the file system; the lists stay.
  unfoldable pub storage_snapshot_restore : ℕ → Ctx F → Option Bytes → Option Bytes → F × Rc
  unfolding restore_plan restore_tree
  storage_snapshot_restore depth ctx none target = (ctx.disk, err einval)
  storage_snapshot_restore depth ctx (some n) target =
      guarded (is_empty n) ctx.initialized (λ e. (ctx.disk, err e))
        (elim (restore_plan ctx n target) [
          | inl e ↦ (ctx.disk, err e)
          | inr (snap, vol) ↦ restore_tree depth ctx.disk snap vol
        ])

  -- The locked section of storage_snapshot_delete: the record goes, and the state file is written.
  unfoldable pub drop_snapshot : Ctx F → Bytes → Ctx F × Rc
  unfolding storage_persist
  drop_snapshot ctx n =
      (let rest = record ctx { snapshots = drop_first (snapshot_called n) ctx.snapshots } in
        let saved = storage_persist fs rest in (record rest { disk = saved.0 }, saved.1))

  -- After it, outside of the lock: what is left of the snapshot's directory is removed.
  unfoldable pub remove_copy : F → Bytes → F × Rc
  remove_copy f path =
      if is_dir (fs.lstat f path)
      then (let gone = fs.rm_walk f path in
          elim gone.1 [
            | walked ↦ (gone.0, ok)
            | broken ↦ (gone.0, err eio)
            | stopped_by e ↦ (gone.0, err e)
          ])
      else (f, ok)

  -- The two one after the other.
  unfoldable pub delete_snapshot : Ctx F → Bytes → Snapshot → Ctx F × Rc
  unfolding drop_snapshot remove_copy
  delete_snapshot ctx n s =
      (let dropped = drop_snapshot ctx n in
        elim dropped.1 [
          | err e ↦ dropped
          | ok ↦
              (let gone = remove_copy dropped.0.disk s.path in
                (record (dropped.0) { disk = gone.0 }, gone.1))
        ])

  -- The call with no step of another thread in between.
  unfoldable pub storage_snapshot_delete : Ctx F → Option Bytes → Ctx F × Rc
  unfolding delete_snapshot storage_find_snapshot
  storage_snapshot_delete ctx none = (ctx, err einval)
  storage_snapshot_delete ctx (some n) =
      guarded (is_empty n) ctx.initialized (λ e. (ctx, err e))
        (elim (storage_find_snapshot ctx.snapshots n) [
          | none ↦ (ctx, err enoent)
          | some s ↦ delete_snapshot ctx n s
        ])

  abbrev is_listed : Option Bytes → Snapshot → Bool
  is_listed none s = true
  is_listed (some volume) s = is_empty volume || str_eq s.volume volume

  -- What is written to `out`, and `*count`; `out` and `count` are not NULL.
  unfoldable pub storage_list_snapshots : Ctx F → Option Bytes → ℤ → (List SnapshotInfo × ℕ) × Rc
  unfolding storage_snap_fill
  storage_list_snapshots ctx volume (pos (suc cap)) =
      if ctx.initialized
      then (let chosen = keep (is_listed volume) ctx.snapshots in
          ((map storage_snap_fill (take (suc cap) chosen), length chosen), ok))
      else (([], 0), err enotready)
  storage_list_snapshots ctx volume _ = (([], 0), err einval)
