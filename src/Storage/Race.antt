-- ===== src/Storage/Race.antt =====
-- Two calls of storage_snapshot_create in storage/src/storage_impl.c at the same time.
use hwrun_os_linux.Prelude.{
  ℕ, ◌<◌, ◌≡◌, refl, ◌∙◌, ap, List, ◌∷◌, ◌++◌, none, some, Bytes, codes, length, length-fit-lt,
  fit_all, find?, arith, Option-cases, inl, inr,
}
use hwrun_os_linux.Errno.{ok, err, eexist, Rc-cases}
use hwrun_os_linux.Storage.{
  Volume, Snapshot, Ctx, storage_valid_label, storage_find_volume, storage_find_snapshot_in,
}
use hwrun_os_linux.Storage.Fs.{Fs}
use hwrun_os_linux.Storage.Labels.{label_short}
use hwrun_os_linux.Storage.State.{storage_persist}
use hwrun_os_linux.Storage.Snapshots.{Plan, new_snapshot, prepare, finish}
use hwrun_os_linux.Storage.Labels.{label_short}
use hwrun_os_linux.Storage.Registry.Reach.{prepare_short}

found_first :
    (s : Snapshot) (ss : List Snapshot) (volume name : Bytes)
    → s.volume ≡ volume
    → s.name ≡ name
    → storage_find_snapshot_in (s ∷ ss) volume name ≡ some s
unfolding storage_find_snapshot_in find?
found_first s ss volume name hv hn = ground arith

module _ {F : Type 0} (fs : Fs F) where
  -- The first thread, when it succeeds.
  finish_ok :
      (ctx : Ctx F) (name : Bytes) (plan : Plan) (s : Snapshot)
      → (finish fs ctx name plan s).1 ≡ ok
      → ((v : Volume) × (storage_find_volume ctx.volumes plan.vol_name ≡ some v))
        × ((finish fs ctx name plan s).0.volumes ≡ ctx.volumes)
        × ((finish fs ctx name plan s).0.snapshots ≡ s ∷ ctx.snapshots)
  unfolding finish
  finish_ok ctx name plan s h =
      elim (Option-cases (storage_find_volume ctx.volumes plan.vol_name)) [
        | inl e ↦ absurd (ground (arith, rw (e, finish) at h))
        | inr (v, named) ↦
            elim (Option-cases (storage_find_snapshot_in ctx.snapshots plan.vol_name name)) [
              | inr (x, e) ↦ absurd (ground (arith, rw (named, e, finish) at h))
              | inl e ↦
                  elim (Rc-cases
                    (storage_persist fs (record ctx { snapshots = s ∷ ctx.snapshots })).1) [
                      | inr (x, failed) ↦
                          absurd (ground (arith, rw (named, e, failed, finish) at h))
                      | inl saved ↦ (
                        (v, named),
                        rw (named, e, saved, finish) refl,
                        rw (named, e, saved, finish) refl,
                      )
                    ]
            ]
      ]

  snap_path_short :
      (ctx : Ctx F) (n name : Bytes) (plan : Plan)
      → prepare fs ctx n name ≡ inr plan
      → length plan.snap_path < 512
  unfolding prepare
  snap_path_short ctx n name plan e = elim (Option-cases (storage_find_volume ctx.volumes n)) [
    | inl lost ↦ ground (arith, lost)
    | inr (v, found) ↦ ground (
      arith,
      found,
      length-fit-lt 512 (ctx.state_dir ++ codes "/snapshots/" ++ v.name ++ b'/' ∷ name)
          (omega arith),
    )
  ]

  finish_again :
      (ctx : Ctx F) (name : Bytes) (plan : Plan) (s t : Snapshot) (v : Volume)
      → storage_find_volume ctx.volumes plan.vol_name ≡ some v
      → storage_find_snapshot_in ctx.snapshots plan.vol_name name ≡ some s
      → finish fs ctx name plan t
        ≡ (record ctx { disk = (fs.rm_walk ctx.disk plan.snap_path).0 }, err eexist, none)
  unfolding finish
  finish_again ctx name plan s t v named found = rw (named, found, finish) refl

  -- Two threads that make a snapshot of one volume under one name, of which both have left the first
  -- section before one of them enters the second: when the first registers its snapshot with success,
  -- then the second fails with EEXIST, and removes the directory that the registered snapshot, which
  -- stays in the list, has its data in. The disk may change between the two sections.
  pub finish-finish :
      (earlier ctx : Ctx F) (n name : Bytes) (plan : Plan) (r1 r2 : Bytes) (t1 t2 : ℕ) (disk : F)
      → storage_valid_label name 128 ≡ ok
      → prepare fs earlier n name ≡ inr plan
      → (finish fs ctx name plan (new_snapshot r1 t1 name plan)).1 ≡ ok
      → let later = record (finish fs ctx name plan (new_snapshot r1 t1 name plan)).0 {
        disk = disk;
      } in
        let first = new_snapshot r1 t1 name plan in
        (finish fs later name plan (new_snapshot r2 t2 name plan)
          ≡ (record later { disk = (fs.rm_walk disk plan.snap_path).0 }, err eexist, none))
        × (later.snapshots ≡ first ∷ ctx.snapshots)
        × (first.path ≡ plan.snap_path)
  finish-finish earlier ctx n name plan r1 r2 t1 t2 disk label planned done =
      let first = new_snapshot r1 t1 name plan in
      let (named, volumes, snapshots) = finish_ok ctx name plan first done in
      let later = record (finish fs ctx name plan first).0 { disk = disk } in
      let same_volume = fit_all 128 plan.vol_name (prepare_short fs earlier n name plan planned) in
      let same_name = fit_all 128 name (label_short name label) in
      let same_path = fit_all 512 plan.snap_path (snap_path_short earlier n name plan planned) in
      let found : storage_find_snapshot_in (first ∷ ctx.snapshots) plan.vol_name name ≡ some first =
        found_first first ctx.snapshots plan.vol_name name same_volume same_name in
      (
        finish_again later name plan first (new_snapshot r2 t2 name plan) named.0
            (ap (λ vs. storage_find_volume vs plan.vol_name) volumes ∙ named.1)
            (ap (λ ss. storage_find_snapshot_in ss plan.vol_name name) snapshots ∙ found),
        snapshots,
        same_path,
      )
