-- ===== src/Storage/Volumes.antt =====
-- The volumes of storage/src/storage_impl.c.
use hwrun_os_linux.Prelude.{
  ℕ, suc, Bool, true, false, not, ◌||◌, List, [], ◌∷◌, Option, none, some, Bytes, codes, length,
  str_eq, is_empty, fit, drop_first, take, map, if◌then◌else◌, ◌==◌, ℤ, pos, negsuc, ◌⊎◌, inl, inr,
}
use hwrun_os_linux.Errno.{
  Errno, Rc, ok, err, einval, enoent, eio, eperm, enomem, eexist, enotdir, enotready,
}
use hwrun_os_linux.Storage.{
  Volume, Ctx, Def, storage_valid_label, storage_valid_path, storage_sanitize_desc, storage_gen_id,
  storage_find_volume, volume_called,
}
use hwrun_os_linux.Storage.Fs.{
  Fs, missing, directory, unreadable, is_dir, walked, broken, stopped_by, storage_mkdir_p,
}
use hwrun_os_linux.Storage.State.{storage_persist}

-- hw_storage_volume_info_t
pub record VolumeInfo : Type 0 where
  pub id : Bytes
  pub name : Bytes
  pub path : Bytes
  pub description : Bytes
  pub size_limit : ℕ
  pub created_at : ℕ
  pub readonly : ℤ
  pub exists : Bool

abbrev pub is_set : ℤ → Bool
is_set z = elim z [ pos n ↦ not (n == 0) | negsuc n ↦ true ]

-- Whether another volume has the directory.
unfoldable pub path_taken : List Volume → Bytes → Bool
path_taken [] path = false
path_taken (v ∷ vs) path = str_eq v.path path || path_taken vs path

abbrev pub new_volume : Bytes → ℕ → Bytes → Bytes → Def → Volume
new_volume random now name path def = record {
  id = fit 40 (storage_gen_id random);
  name = fit 128 name;
  path = fit 512 path;
  description = storage_sanitize_desc 256 def.description;
  size_limit = def.size_limit;
  created_at = now;
  readonly = if def.readonly then pos 1 else pos 0;
}

-- The head of the calls that name a volume.
abbrev pub guarded : {A : Type 0} → Bool → Bool → (Errno → A) → A → A
guarded bad up fail go = if bad then fail einval else if up then go else fail enotready

-- What holds of every failure and of the rest holds of the call.
pub guarded_elim :
    {A : Type 0} (P : A → Type 0) (bad up : Bool) (fail : Errno → A) (go : A)
    → ((e : Errno) → P (fail e))
    → P go
    → P (guarded bad up fail go)
guarded_elim P true up fail go hf hg = hf einval
guarded_elim P false true fail go hf hg = hg
guarded_elim P false false fail go hf hg = hf enotready

module _ {F : Type 0} (fs : Fs F) where
  unfoldable pub storage_vol_fill : F → Volume → VolumeInfo
  storage_vol_fill f v = record {
    id = fit 40 v.id;
    name = fit 128 v.name;
    path = fit 512 v.path;
    description = fit 256 v.description;
    size_limit = v.size_limit;
    created_at = v.created_at;
    readonly = v.readonly;
    exists = is_dir (fs.lstat f v.path);
  }

  -- The directory of a new volume: whether the call made it, or why there is none.
  unfoldable pub ensure_dir : F → Bytes → F × (Errno ⊎ Bool)
  unfolding storage_mkdir_p
  ensure_dir f path = elim (fs.lstat f path) [
    | unreadable e ↦ (f, inl e)
    | directory ↦ (f, inr false)
    | missing ↦
        (let made = storage_mkdir_p fs f path in
          elim made.1 [ err e ↦ (made.0, inl e) | ok ↦ (made.0, inr true) ])
    | _ ↦ (f, inl enotdir)
  ]

  -- From the record on: it is registered while the state file can be written.
  unfoldable pub add_record : Ctx F → Bool → Volume → Bytes → Ctx F × Rc × Option VolumeInfo
  unfolding storage_persist storage_vol_fill
  add_record ctx created rec path =
      (let saved = storage_persist fs (record ctx { volumes = rec ∷ ctx.volumes }) in
        elim saved.1 [
          | err e ↦ (
            record ctx { disk = if created then (fs.rm_walk saved.0 path).0 else saved.0 },
            err e,
            none,
          )
          | ok ↦ (
            record ctx { volumes = rec ∷ ctx.volumes; disk = saved.0 },
            ok,
            some (storage_vol_fill saved.0 rec),
          )
        ])

  -- From the locking on.
  unfoldable pub create_locked :
      Ctx F → Bool → Bytes → ℕ → Bytes → Bytes → Def → Ctx F × Rc × Option VolumeInfo
  unfolding storage_find_volume path_taken ensure_dir add_record
  create_locked ctx alloc random now name path def = elim (storage_find_volume ctx.volumes name) [
    | some v ↦ (ctx, err eexist, none)
    | none ↦
        if path_taken ctx.volumes path
        then (ctx, err eexist, none)
        else (let ready = ensure_dir ctx.disk path in
            elim ready.1 [
              | inl e ↦ (record ctx { disk = ready.0 }, err e, none)
              | inr created ↦
                  if alloc
                  then add_record (record ctx { disk = ready.0 }) created
                      (new_volume random now name path def) path
                  else (
                    record ctx { disk = if created then fs.rmdir ready.0 path else ready.0 },
                    err enomem,
                    none,
                  )
            ])
  ]

  unfoldable pub create_named :
      Ctx F → Bool → Bytes → ℕ → Option Bytes → Option Bytes → Def → Ctx F × Rc × Option VolumeInfo
  unfolding storage_valid_label storage_valid_path create_locked
  create_named ctx alloc random now (some name) (some path) def =
      if not ctx.initialized
      then (ctx, err enotready, none)
      else elim (storage_valid_label name 128) [
        | err e ↦ (ctx, err e, none)
        | ok ↦ elim (storage_valid_path path) [
          | err e ↦ (ctx, err e, none)
          | ok ↦ create_locked ctx alloc random now name path def
        ]
      ]
  create_named ctx alloc random now name path def = (ctx, err einval, none)

  -- The last result is what is written to `*out`, if it is not NULL.
  unfoldable pub storage_create_volume :
      Ctx F → Bool → Bytes → ℕ → Option Def → Ctx F × Rc × Option VolumeInfo
  unfolding create_named
  storage_create_volume ctx alloc random now none = (ctx, err einval, none)
  storage_create_volume ctx alloc random now (some def) =
      create_named ctx alloc random now def.name def.path def

  -- Without the record, persisted.
  unfoldable pub drop_volume : Ctx F → Bytes → F → Ctx F × Rc
  unfolding storage_persist
  drop_volume ctx n f =
      (let rest = record ctx { volumes = drop_first (volume_called n) ctx.volumes; disk = f } in
        let saved = storage_persist fs rest in (record rest { disk = saved.0 }, saved.1))

  -- The data of a volume that is there and may be deleted.
  unfoldable pub remove_data : F → Bytes → F × Rc
  remove_data f path = elim (fs.lstat f path) [
    | directory ↦
        (let gone = fs.rm_walk f path in
          elim gone.1 [
            | walked ↦ (gone.0, ok)
            | broken ↦ (gone.0, err eio)
            | stopped_by e ↦ (gone.0, err e)
          ])
    | missing ↦ (f, ok)
    | unreadable e ↦ (f, ok)
    | _ ↦ (f, err enotdir)
  ]

  unfoldable pub delete_found : Ctx F → Bytes → Option Volume → Ctx F × Rc
  unfolding remove_data drop_volume
  delete_found ctx n none = (ctx, err enoent)
  delete_found ctx n (some v) =
      if is_set v.readonly
      then (ctx, err eperm)
      else if str_eq v.path (codes "/")
      then (ctx, err einval)
      else (let gone = remove_data ctx.disk v.path in
          elim gone.1 [
            | err e ↦ (record ctx { disk = gone.0 }, err e)
            | ok ↦ drop_volume ctx n gone.0
          ])

  unfoldable pub storage_delete_volume : Ctx F → Option Bytes → Ctx F × Rc
  unfolding delete_found storage_find_volume
  storage_delete_volume ctx none = (ctx, err einval)
  storage_delete_volume ctx (some n) =
      guarded (is_empty n) ctx.initialized (λ e. (ctx, err e))
        (delete_found ctx n (storage_find_volume ctx.volumes n))

  unfoldable pub storage_unregister_volume : Ctx F → Option Bytes → Ctx F × Rc
  unfolding drop_volume storage_find_volume
  storage_unregister_volume ctx none = (ctx, err einval)
  storage_unregister_volume ctx (some n) =
      guarded (is_empty n) ctx.initialized (λ e. (ctx, err e))
        (elim (storage_find_volume ctx.volumes n) [
          | none ↦ (ctx, err enoent)
          | some v ↦ drop_volume ctx n ctx.disk
        ])

  -- What is written to `out`, and `*count`; `out` and `count` are not NULL.
  unfoldable pub storage_list_volumes : Ctx F → ℤ → (List VolumeInfo × ℕ) × Rc
  unfolding storage_vol_fill
  storage_list_volumes ctx (pos (suc cap)) =
      if ctx.initialized
      then ((map (storage_vol_fill ctx.disk) (take (suc cap) ctx.volumes), length ctx.volumes), ok)
      else (([], 0), err enotready)
  storage_list_volumes ctx _ = (([], 0), err einval)

  unfoldable pub storage_get_volume : Ctx F → Option Bytes → Option VolumeInfo × Rc
  unfolding storage_vol_fill storage_find_volume
  storage_get_volume ctx none = (none, err einval)
  storage_get_volume ctx (some n) =
      guarded (is_empty n) ctx.initialized (λ e. (none, err e))
        (elim (storage_find_volume ctx.volumes n) [
          | none ↦ (none, err enoent)
          | some v ↦ (some (storage_vol_fill ctx.disk v), ok)
        ])
