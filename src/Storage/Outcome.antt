-- ===== src/Storage/Outcome.antt =====
-- What the calls on volumes of storage/src/storage_impl.c return, and what they leave.
use hwrun_os_linux.Prelude.{
  ℕ, ◌≡◌, refl, Bool, false, ◌∷◌, Option, none, some, Bytes, Bool-cases, Option-cases, Sum-cases,
  ◌⊎◌, inl, inr,
}
use hwrun_os_linux.Errno.{Errno, Rc, ok, err, einval, eexist, enomem, enotready, Rc-cases}
use hwrun_os_linux.Storage.{
  Volume, Ctx, Def, storage_valid_label, storage_valid_path, storage_find_volume,
}
use hwrun_os_linux.Storage.Fs.{Fs}
use hwrun_os_linux.Storage.State.{storage_persist}
use hwrun_os_linux.Storage.Volumes.{
  path_taken, new_volume, add_record, ensure_dir, create_locked, storage_vol_fill, VolumeInfo,
  storage_create_volume, create_named,
}

-- A call that fails leaves the lists.
abbrev pub Failed : {F A : Type 0} → Ctx F → Ctx F × Rc × Option A → Type 0
Failed ctx out =
    ((e : Errno) × (out.1 ≡ err e))
    × (out.0.volumes ≡ ctx.volumes)
    × (out.0.snapshots ≡ ctx.snapshots)
    × (out.2 ≡ none)

abbrev pub Registered :
    {F : Type 0} → Fs F → Ctx F → Bytes → Bytes → Volume → Ctx F × Rc × Option VolumeInfo → Type 0
Registered fs ctx name path v out =
    (out.1 ≡ ok)
    × (out.0.volumes ≡ v ∷ ctx.volumes)
    × (out.0.snapshots ≡ ctx.snapshots)
    × (out.2 ≡ some (storage_vol_fill fs out.0.disk v))
    × (storage_find_volume ctx.volumes name ≡ none)
    × (path_taken ctx.volumes path ≡ false)

module _ {F : Type 0} (fs : Fs F) where
  add_record_outcome :
      (ctx : Ctx F) (created : Bool) (v : Volume) (path : Bytes)
      → let out = add_record fs ctx created v path in
        Failed ctx out
        ⊎ ((out.1 ≡ ok)
            × (out.0.volumes ≡ v ∷ ctx.volumes)
            × (out.0.snapshots ≡ ctx.snapshots)
            × (out.2 ≡ some (storage_vol_fill fs out.0.disk v)))
  unfolding add_record
  add_record_outcome ctx created v path =
      elim (Rc-cases (storage_persist fs (record ctx { volumes = v ∷ ctx.volumes })).1) [
        | inl e ↦ inr (rw (e, add_record) (refl, refl, refl, refl))
        | inr (x, e) ↦ inl (rw (e, add_record) ((x, refl), refl, refl, refl))
      ]

  create_locked_outcome :
      (ctx : Ctx F) (alloc : Bool) (random : Bytes) (now : ℕ) (name path : Bytes) (def : Def)
      → let out = create_locked fs ctx alloc random now name path def in
        Failed ctx out ⊎ Registered fs ctx name path (new_volume random now name path def) out
  unfolding create_locked
  create_locked_outcome ctx alloc random now name path def =
      let v = new_volume random now name path def in
      elim (Option-cases (storage_find_volume ctx.volumes name)) [
        | inr (w, e) ↦ inl (rw (e, create_locked) ((eexist, refl), refl, refl, refl))
        | inl unnamed ↦ elim (Bool-cases (path_taken ctx.volumes path)) [
          | inl e ↦ inl (rw (unnamed, e, create_locked) ((eexist, refl), refl, refl, refl))
          | inr free ↦ elim (Sum-cases (ensure_dir fs ctx.disk path).1) [
            | inl (x, e) ↦ inl (rw (unnamed, free, e, create_locked) ((x, refl), refl, refl, refl))
            | inr (created, e) ↦ elim (Bool-cases alloc) [
              | inr dry ↦
                  inl (rw (unnamed, free, e, dry, create_locked) ((enomem, refl), refl, refl, refl))
              | inl given ↦
                  rw (unnamed, free, e, given, create_locked)
                    (elim (add_record_outcome
                      (record ctx { disk = (ensure_dir fs ctx.disk path).0 }) created v path) [
                        | inl failed ↦ inl failed
                        | inr good ↦ inr (good.0, good.1, good.2, good.3, refl, refl)
                      ])
            ]
          ]
        ]
      ]

  create_named_outcome :
      (ctx : Ctx F) (alloc : Bool) (random : Bytes) (now : ℕ) (name path : Option Bytes) (def : Def)
      → let out = create_named fs ctx alloc random now name path def in
        Failed ctx out
        ⊎ ((n : Bytes) × (p : Bytes) × (name ≡ some n)
            × (path ≡ some p)
            × (storage_valid_label n 128 ≡ ok)
            × (storage_valid_path p ≡ ok)
            × Registered fs ctx n p (new_volume random now n p def) out)
  unfolding create_named
  create_named_outcome ctx alloc random now none path def = inl ((einval, refl), refl, refl, refl)
  create_named_outcome ctx alloc random now (some name) none def =
      inl ((einval, refl), refl, refl, refl)
  create_named_outcome ctx alloc random now (some name) (some path) def =
      elim (Bool-cases ctx.initialized) [
        | inr down ↦ inl (rw (down, create_named) ((enotready, refl), refl, refl, refl))
        | inl up ↦ elim (Rc-cases (storage_valid_label name 128)) [
          | inr (x, e) ↦ inl (rw (up, e, create_named) ((x, refl), refl, refl, refl))
          | inl hn ↦ elim (Rc-cases (storage_valid_path path)) [
            | inr (x, e) ↦ inl (rw (up, hn, e, create_named) ((x, refl), refl, refl, refl))
            | inl hp ↦
                rw (up, hn, hp, create_named)
                  (elim (create_locked_outcome ctx alloc random now name path def) [
                    | inl failed ↦ inl failed
                    | inr good ↦ inr (name, path, refl, refl, hn, hp, good)
                  ])
          ]
        ]
      ]

  -- A call that creates a volume either fails with an error, leaves both lists as they are and writes
  -- nothing to the caller's structure; or it succeeds, with a name and a path that the checks accept
  -- and no volume had, the new volume is the first of the list, and the caller's structure shows it.
  pub create_outcome :
      (ctx : Ctx F) (alloc : Bool) (random : Bytes) (now : ℕ) (def : Def)
      → let out = storage_create_volume fs ctx alloc random now (some def) in
        Failed ctx out
        ⊎ ((n : Bytes) × (p : Bytes) × (def.name ≡ some n)
            × (def.path ≡ some p)
            × (storage_valid_label n 128 ≡ ok)
            × (storage_valid_path p ≡ ok)
            × Registered fs ctx n p (new_volume random now n p def) out)
  unfolding storage_create_volume
  create_outcome ctx alloc random now def =
      create_named_outcome ctx alloc random now def.name def.path def
