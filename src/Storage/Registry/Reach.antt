-- ===== src/Storage/Registry/Reach.antt =====
-- The calls of storage/src/storage_impl.c in any order, as the threads that make them take the lock.
use hwrun_os_linux.Prelude.{
  ℕ, ◌<◌, ◌≡◌, Bool, Option, Bytes, length, length-fit-lt, arith, inl, inr, Option-cases,
}
use hwrun_os_linux.Errno.{ok}
use hwrun_os_linux.Storage.{Ctx, Def, storage_valid_label, storage_find_volume}
use hwrun_os_linux.Storage.Fs.{Fs}
use hwrun_os_linux.Storage.Volumes.{
  storage_create_volume, storage_delete_volume, storage_unregister_volume,
}
use hwrun_os_linux.Storage.Snapshots.{
  Plan, new_snapshot, prepare, finish, drop_snapshot, storage_snapshot_delete,
}
use hwrun_os_linux.Storage.Labels.{label_short}
use hwrun_os_linux.Storage.Registry.{IsGood, create-IsGood, delete-IsGood, unregister-IsGood}
use hwrun_os_linux.Storage.Registry.Copies.{
  finish-IsGood, drop_snapshot-IsGood, snapshot_delete-IsGood,
}

module _ {F : Type 0} (fs : Fs F) where
  -- One locked section, or a change of the disk, such as a copy or the removal of a snapshot's directory
  -- makes it outside of the lock, or a call that deletes a snapshot as a whole. A
  -- snapshot is registered by a plan that was prepared in some earlier context.
  pub data Step : Ctx F → Ctx F → Type 0 where
    create :
        (ctx : Ctx F) (alloc : Bool) (random : Bytes) (now : ℕ) (def : Option Def)
        → Step ctx (storage_create_volume fs ctx alloc random now def).0
    delete : (ctx : Ctx F) (n : Option Bytes) → Step ctx (storage_delete_volume fs ctx n).0
    unregister : (ctx : Ctx F) (n : Option Bytes) → Step ctx (storage_unregister_volume fs ctx n).0
    register :
        (ctx earlier : Ctx F) (n name : Bytes) (plan : Plan) (random : Bytes) (now : ℕ)
        → storage_valid_label name 128 ≡ ok
        → prepare fs earlier n name ≡ inr plan
        → Step ctx (finish fs ctx name plan (new_snapshot random now name plan)).0
    unrecord : (ctx : Ctx F) (n : Bytes) → Step ctx (drop_snapshot fs ctx n).0
    drop : (ctx : Ctx F) (n : Option Bytes) → Step ctx (storage_snapshot_delete fs ctx n).0
    touch : (ctx : Ctx F) (disk : F) → Step ctx (record ctx { disk = disk })

  pub data Steps : Ctx F → Ctx F → Type 0 where
    stay : (ctx : Ctx F) → Steps ctx ctx
    then_step : (a b c : Ctx F) → Steps a b → Step b c → Steps a c

  pub prepare_short :
      (ctx : Ctx F) (n name : Bytes) (plan : Plan)
      → prepare fs ctx n name ≡ inr plan
      → length plan.vol_name < 128
  unfolding prepare
  prepare_short ctx n name plan e = elim (Option-cases (storage_find_volume ctx.volumes n)) [
    | inl lost ↦ ground (arith, lost)
    | inr (v, found) ↦ ground (arith, found, length-fit-lt 128 v.name (omega arith))
  ]

  Step-IsGood : (a b : Ctx F) → IsGood a → Step a b → IsGood b
  Step-IsGood a b good (create _ alloc random now def) =
      create-IsGood fs a alloc random now def good
  Step-IsGood a b good (delete _ n) = delete-IsGood fs a n good
  Step-IsGood a b good (unregister _ n) = unregister-IsGood fs a n good
  Step-IsGood a b good (register _ earlier n name plan random now label planned) =
      finish-IsGood fs a name plan random now (label_short name label)
        (prepare_short earlier n name plan planned) good
  Step-IsGood a b good (unrecord _ n) = drop_snapshot-IsGood fs a n good
  Step-IsGood a b good (drop _ n) = snapshot_delete-IsGood fs a n good
  Step-IsGood a b good (touch _ disk) = good

  -- Whatever the threads do in turn, from lists that are in order: no two volumes get the same name or
  -- the same directory, no two snapshots of a volume the same name, and each volume has a name and a
  -- path that the checks accept and a description of one line that fits its buffer.
  pub Steps-IsGood : (a b : Ctx F) → IsGood a → Steps a b → IsGood b
  Steps-IsGood a b good (stay _) = good
  Steps-IsGood a c good (then_step _ b _ before step) =
      Step-IsGood b c (Steps-IsGood a b good before) step
