-- ===== src/Storage/Registry/Copies.antt =====
-- The list of snapshots in storage/src/storage_impl.c, over the calls that change it.
use hwrun_os_linux.Prelude.{
  ℕ, ◌<◌, ◌∙◌, ap₂, ◌∷◌, Option, none, some, Bytes, length, is_empty, fit_all, Option-cases, inl,
  inr,
}
use hwrun_os_linux.Errno.{Rc, err, enoent, Rc-cases}
use hwrun_os_linux.Storage.{
  Snapshot, Ctx, storage_find_volume, storage_find_snapshot, storage_find_snapshot_in,
  snapshot_called,
}
use hwrun_os_linux.Storage.Fs.{Fs}
use hwrun_os_linux.Storage.State.{storage_persist}
use hwrun_os_linux.Storage.Volumes.{guarded_elim}
use hwrun_os_linux.Storage.Snapshots.{
  Plan, new_snapshot, finish, drop_snapshot, delete_snapshot, storage_snapshot_delete,
}
use hwrun_os_linux.Storage.Registry.{IsGood, AllDiffer-drop_first, differs_from}

module _ {F : Type 0} (fs : Fs F) where
  pub finish-IsGood :
      (ctx : Ctx F) (name : Bytes) (plan : Plan) (random : Bytes) (now : ℕ)
      → length name < 128
      → length plan.vol_name < 128
      → IsGood ctx
      → IsGood (finish fs ctx name plan (new_snapshot random now name plan)).0
  unfolding finish
  finish-IsGood ctx name plan random now hn hv good =
      let s = new_snapshot random now name plan in
      let same =
        ap₂ (storage_find_snapshot_in ctx.snapshots) (fit_all 128 plan.vol_name hv)
          (fit_all 128 name hn) in
      elim (Option-cases (storage_find_volume ctx.volumes plan.vol_name)) [
        | inl e ↦ rw (e, finish) good
        | inr (v, named) ↦
            elim (Option-cases (storage_find_snapshot_in ctx.snapshots plan.vol_name name)) [
              | inr (x, e) ↦ rw (named, e, finish) good
              | inl e ↦
                  elim (Rc-cases
                    (storage_persist fs (record ctx { snapshots = s ∷ ctx.snapshots })).1) [
                      | inr (x, failed) ↦ rw (named, e, failed, finish) good
                      | inl saved ↦
                          rw (named, e, saved, finish)
                            (good.0, good.1, (differs_from s ctx.snapshots (same ∙ e), good.2))
                    ]
            ]
      ]

  pub drop_snapshot-IsGood :
      (ctx : Ctx F) (n : Bytes) → IsGood ctx → IsGood (drop_snapshot fs ctx n).0
  unfolding drop_snapshot
  drop_snapshot-IsGood ctx n good =
      (good.0, good.1, AllDiffer-drop_first (snapshot_called n) ctx.snapshots good.2)

  delete_snapshot-IsGood :
      (ctx : Ctx F) (n : Bytes) (s : Snapshot) → IsGood ctx → IsGood (delete_snapshot fs ctx n s).0
  unfolding delete_snapshot
  delete_snapshot-IsGood ctx n s good =
      let rest = drop_snapshot-IsGood ctx n good in
      elim (Rc-cases (drop_snapshot fs ctx n).1) [
        | inr (x, e) ↦ rw (e, delete_snapshot) rest
        | inl e ↦ rw (e, delete_snapshot) rest
      ]

  snapshot_found-IsGood :
      (ctx : Ctx F) (n : Bytes) (found : Option Snapshot)
      → IsGood ctx
      → IsGood
          (elim found as (λ x. Ctx F × Rc) [
            | none ↦ (ctx, err enoent)
            | some s ↦ delete_snapshot fs ctx n s
          ]).0
  snapshot_found-IsGood ctx n none good = good
  snapshot_found-IsGood ctx n (some s) good = delete_snapshot-IsGood ctx n s good

  pub snapshot_delete-IsGood :
      (ctx : Ctx F) (n : Option Bytes) → IsGood ctx → IsGood (storage_snapshot_delete fs ctx n).0
  unfolding storage_snapshot_delete
  snapshot_delete-IsGood ctx none good = good
  snapshot_delete-IsGood ctx (some n) good =
      guarded_elim {A = Ctx F × Rc} (λ x. IsGood x.0) (is_empty n) ctx.initialized
        (λ e. (ctx, err e)) _ (λ e. good)
        (snapshot_found-IsGood ctx n (storage_find_snapshot ctx.snapshots n) good)
