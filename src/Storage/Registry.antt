-- ===== src/Storage/Registry.antt =====
-- The lists of volumes and of snapshots in storage/src/storage_impl.c, over the calls that change them.
pub mod Copies
pub mod Reach
use hwrun_os_linux.Prelude.{
  ℕ, zero, suc, ◌+◌, ◌≤◌, ◌<◌, ◌≡◌, ◌≢◌, refl, sym, ◌∙◌, ap, subst, Bool, true, false, not, ◌&&◌,
  ◌||◌, List, [], ◌∷◌, ◌++◌, Option, none, some, Bytes, codes, length, length-fit-lt, str_eq,
  is_empty, fit, fit_all, find?, drop_first, if◌then◌else◌, ltb, leb, ◌==◌, arith, All,
  All-drop_first, Bool-cases, Option-cases, Sum-cases, ◌⊎◌, inl, inr,
}
use hwrun_os_linux.Errno.{Errno, Rc, ok, err, einval, enoent, eexist, Rc-cases}
use hwrun_os_linux.Storage.{
  Volume, Snapshot, Ctx, Def, storage_valid_label, storage_valid_path, has_break, no_forbidden,
  sanitize, storage_sanitize_desc, storage_find_volume, storage_find_snapshot_in, volume_called,
  snapshot_called, snapshot_of,
}
use hwrun_os_linux.Storage.Fs.{Fs}
use hwrun_os_linux.Storage.Labels.{label_short, path_short, description_fine}
use hwrun_os_linux.Storage.State.{storage_persist}
use hwrun_os_linux.Storage.Volumes.{
  path_taken, new_volume, add_record, ensure_dir, create_locked, storage_create_volume,
  create_named, delete_found, remove_data, is_set, guarded_elim, drop_volume, storage_delete_volume,
  storage_unregister_volume,
}
use hwrun_os_linux.Storage.Snapshots.{Plan, new_snapshot, finish, storage_snapshot_delete}

-- Two volumes with names and directories of their own.
abbrev pub Apart : Volume → Volume → Type 0
Apart v w = (v.name ≢ w.name) × (v.path ≢ w.path)

abbrev pub AreApart : List Volume → Type 0
AreApart [] = Unit
AreApart (v ∷ vs) = All (Apart v) vs × AreApart vs

-- Two snapshots of different volumes, or with different names.
abbrev pub Differ : Snapshot → Snapshot → Type 0
Differ s t = ¬ ((s.volume ≡ t.volume) × (s.name ≡ t.name))

abbrev pub AllDiffer : List Snapshot → Type 0
AllDiffer [] = Unit
AllDiffer (s ∷ ss) = All (Differ s) ss × AllDiffer ss

-- A volume as the calls may register it.
abbrev pub IsSound : Volume → Type 0
IsSound v =
    (storage_valid_label v.name 128 ≡ ok)
    × (storage_valid_path v.path ≡ ok)
    × (length v.description < 256)
    × (has_break v.description ≡ false)

abbrev pub IsGood : {F : Type 0} → Ctx F → Type 0
IsGood ctx = AreApart ctx.volumes × All IsSound ctx.volumes × AllDiffer ctx.snapshots

AreApart-drop_first :
    (p : Volume → Bool) (vs : List Volume) → AreApart vs → AreApart (drop_first p vs)
unfolding drop_first
AreApart-drop_first p [] h = tt
AreApart-drop_first p (v ∷ vs) h =
    ground (arith, AreApart-drop_first p vs h.1, All-drop_first (Apart v) p vs h.0)

pub AllDiffer-drop_first :
    (p : Snapshot → Bool) (ss : List Snapshot) → AllDiffer ss → AllDiffer (drop_first p ss)
unfolding drop_first
AllDiffer-drop_first p [] h = tt
AllDiffer-drop_first p (s ∷ ss) h =
    ground (arith, AllDiffer-drop_first p ss h.1, All-drop_first (Differ s) p ss h.0)

-- A name and a directory that no volume has.
unnamed_elsewhere :
    (v : Volume) (vs : List Volume)
    → storage_find_volume vs v.name ≡ none
    → path_taken vs v.path ≡ false
    → All (Apart v) vs
unfolding storage_find_volume find? path_taken
unnamed_elsewhere v [] hn hp = tt
unnamed_elsewhere v (w ∷ vs) hn hp = ground (arith, unnamed_elsewhere v vs)

pub differs_from :
    (s : Snapshot) (ss : List Snapshot)
    → storage_find_snapshot_in ss s.volume s.name ≡ none
    → All (Differ s) ss
unfolding storage_find_snapshot_in find?
differs_from s [] h = tt
differs_from s (t ∷ ss) h = ground (arith, differs_from s ss)

new_volume-IsSound :
    (random : Bytes) (now : ℕ) (name path : Bytes) (def : Def)
    → storage_valid_label name 128 ≡ ok
    → storage_valid_path path ≡ ok
    → IsSound (new_volume random now name path def)
new_volume-IsSound random now name path def hn hp =
    let (short, clean) = description_fine def.description in
    rw (fit_all 128 name (label_short name hn), fit_all 512 path (path_short path hp))
      (hn, hp, short, clean)

module _ {F : Type 0} (fs : Fs F) where
  add_record-IsGood :
      (ctx : Ctx F) (created : Bool) (v : Volume) (path : Bytes)
      → IsGood ctx
      → IsSound v
      → storage_find_volume ctx.volumes v.name ≡ none
      → path_taken ctx.volumes v.path ≡ false
      → IsGood (add_record fs ctx created v path).0
  unfolding add_record
  add_record-IsGood ctx created v path good sound hn hp =
      elim (Rc-cases (storage_persist fs (record ctx { volumes = v ∷ ctx.volumes })).1) [
        | inl e ↦
            rw (e, add_record)
              ((unnamed_elsewhere v ctx.volumes hn hp, good.0), (sound, good.1), good.2)
        | inr (c, e) ↦ rw (e, add_record) good
      ]

  create_locked-IsGood :
      (ctx : Ctx F) (alloc : Bool) (random : Bytes) (now : ℕ) (name path : Bytes) (def : Def)
      → IsGood ctx
      → storage_valid_label name 128 ≡ ok
      → storage_valid_path path ≡ ok
      → IsGood (create_locked fs ctx alloc random now name path def).0
  unfolding create_locked
  create_locked-IsGood ctx alloc random now name path def good hn hp =
      let v = new_volume random now name path def in
      let same = fit_all 128 name (label_short name hn) in
      let there = fit_all 512 path (path_short path hp) in
      let sound = new_volume-IsSound random now name path def hn hp in
      elim (Option-cases (storage_find_volume ctx.volumes name)) [
        | inr (w, e) ↦ rw (e, create_locked) good
        | inl unnamed ↦ elim (Bool-cases (path_taken ctx.volumes path)) [
          | inl e ↦ rw (unnamed, e, create_locked) good
          | inr free ↦ elim (Sum-cases (ensure_dir fs ctx.disk path).1) [
            | inl (x, e) ↦ rw (unnamed, free, e, create_locked) good
            | inr (created, e) ↦ elim (Bool-cases alloc) [
              | inr dry ↦ rw (unnamed, free, e, dry, create_locked) good
              | inl given ↦
                  rw (unnamed, free, e, given, create_locked)
                    (add_record-IsGood (record ctx { disk = (ensure_dir fs ctx.disk path).0 })
                      created v path good sound
                      (ap (storage_find_volume ctx.volumes) same ∙ unnamed)
                      (ap (path_taken ctx.volumes) there ∙ free))
            ]
          ]
        ]
      ]

  create_named-IsGood :
      (ctx : Ctx F) (alloc : Bool) (random : Bytes) (now : ℕ) (name path : Option Bytes) (def : Def)
      → IsGood ctx
      → IsGood (create_named fs ctx alloc random now name path def).0
  unfolding create_named
  create_named-IsGood ctx alloc random now none path def good = good
  create_named-IsGood ctx alloc random now (some name) none def good = good
  create_named-IsGood ctx alloc random now (some name) (some path) def good =
      elim (Bool-cases ctx.initialized) [
        | inr down ↦ rw (down, create_named) good
        | inl up ↦ elim (Rc-cases (storage_valid_label name 128)) [
          | inr (x, e) ↦ rw (up, e, create_named) good
          | inl hn ↦ elim (Rc-cases (storage_valid_path path)) [
            | inr (x, e) ↦ rw (up, hn, e, create_named) good
            | inl hp ↦
                rw (up, hn, hp, create_named)
                  (create_locked-IsGood ctx alloc random now name path def good hn hp)
          ]
        ]
      ]

  pub create-IsGood :
      (ctx : Ctx F) (alloc : Bool) (random : Bytes) (now : ℕ) (def : Option Def)
      → IsGood ctx
      → IsGood (storage_create_volume fs ctx alloc random now def).0
  unfolding storage_create_volume
  create-IsGood ctx alloc random now none good = good
  create-IsGood ctx alloc random now (some def) good =
      create_named-IsGood ctx alloc random now def.name def.path def good

  drop_volume-IsGood :
      (ctx : Ctx F) (n : Bytes) (f : F) → IsGood ctx → IsGood (drop_volume fs ctx n f).0
  unfolding drop_volume
  drop_volume-IsGood ctx n f good = (
    AreApart-drop_first (volume_called n) ctx.volumes good.0,
    All-drop_first IsSound (volume_called n) ctx.volumes good.1,
    good.2,
  )

  pub unregister-IsGood :
      (ctx : Ctx F) (n : Option Bytes) → IsGood ctx → IsGood (storage_unregister_volume fs ctx n).0
  unfolding storage_unregister_volume
  unregister-IsGood ctx none good = good
  unregister-IsGood ctx (some n) good = ground (arith, drop_volume-IsGood ctx n ctx.disk good)

  delete_found-IsGood :
      (ctx : Ctx F) (n : Bytes) (found : Option Volume)
      → IsGood ctx
      → IsGood (delete_found fs ctx n found).0
  unfolding delete_found
  delete_found-IsGood ctx n none good = good
  delete_found-IsGood ctx n (some v) good = elim (Bool-cases (is_set v.readonly)) [
    | inl e ↦ rw (e, delete_found) good
    | inr e ↦ elim (Bool-cases (str_eq v.path (codes "/"))) [
      | inl root ↦ rw (e, root, delete_found) good
      | inr below ↦ elim (Rc-cases (remove_data fs ctx.disk v.path).1) [
        | inr (x, failed) ↦ rw (e, below, failed, delete_found) good
        | inl gone ↦
            rw (e, below, gone, delete_found)
              (drop_volume-IsGood ctx n (remove_data fs ctx.disk v.path).0 good)
      ]
    ]
  ]

  pub delete-IsGood :
      (ctx : Ctx F) (n : Option Bytes) → IsGood ctx → IsGood (storage_delete_volume fs ctx n).0
  unfolding storage_delete_volume
  delete-IsGood ctx none good = good
  delete-IsGood ctx (some n) good =
      guarded_elim (λ x. IsGood x.0) (is_empty n) ctx.initialized (λ e. (ctx, err e))
        (delete_found fs ctx n (storage_find_volume ctx.volumes n)) (λ e. good)
        (delete_found-IsGood ctx n (storage_find_volume ctx.volumes n) good)
