-- ===== src/Samples/Volumes.antt =====
-- Runs of storage/src/storage_impl.c on a small file system.
use hwrun_os_linux.Prelude.{
  ℕ, ◌+◌, ◌<◌, ltb, ◌&&◌, take, keep, ◌≡◌, ◌↔◌, ◌≢◌, refl, Bool, true, false, ◌||◌, List, [], ◌∷◌,
  Option, none, some, Bytes, Bytes-discrete, codes, length, str_eq, find?, fit, if◌then◌else◌,
  arith, pos, ◌⊎◌, inl, inr,
}
use hwrun_os_linux.Errno.{Rc, ok, err, enoent, einval, eexist}
use hwrun_os_linux.Prelude.Lines.{OneLine, ends_solid}
use hwrun_os_linux.Storage.{
  Volume, Snapshot, Ctx, Def, storage_valid_label, storage_valid_path, storage_sanitize_desc,
  has_break,
}
use hwrun_os_linux.Storage.Fs.{Fs, missing, directory, walked, written}
use hwrun_os_linux.Storage.State.{storage_persist, storage_impl_init, state_path}
use hwrun_os_linux.Storage.Volumes.{storage_create_volume, storage_delete_volume, new_volume}
use hwrun_os_linux.Storage.Restart.{Durable, restart, started}
use hwrun_os_linux.Storage.Text.Printed.{Tidy, IsStorable, IsKept}
use hwrun_os_linux.Storage.Text.Blocks.{reverse_onto}
use hwrun_os_linux.Storage.Registry.{IsGood}
use hwrun_os_linux.Storage.Registry.Reach.{Steps-IsGood, stay, then_step, create}
use hwrun_os_linux.Storage.Outcome.{Failed, Registered, create_outcome}
use hwrun_os_linux.Storage.Removal.{DeleteOutcome, delete_outcome}
use hwrun_os_linux.Storage.Snapshots.{Plan, new_snapshot, prepare, finish}
use hwrun_os_linux.Storage.Race.{finish-finish}
use hwrun_os_linux.Storage.Labels.{
  IsPlain, is_text, storage_valid_label_iff, storage_sanitize_desc-take,
}

-- The files under their names, the newest first.
abbrev Disk : Type 0
Disk = List (Bytes × Bytes)

lookup : Disk → Bytes → Option Bytes
lookup [] path = none
lookup ((name, text) ∷ disk) path = if str_eq name path then some text else lookup disk path

abbrev moved : Disk → Bytes → Option Bytes → Disk × Rc
moved disk to none = (disk, err enoent)
moved disk to (some text) = ((to, text) ∷ disk, ok)

-- Two directories are there.
abbrev small_fs : Fs Disk
unfolding lookup
small_fs = record {
  lstat = λ disk path.
      if str_eq path (codes "/data") || str_eq path (codes "/state") then directory else missing;
  mkdir = λ disk path. (disk, ok);
  rmdir = λ disk path. disk;
  remove = λ disk path. (disk, ok);
  rename = λ disk from to. moved disk to (lookup disk from);
  symlink = λ disk target path. (disk, ok);
  readlink = λ disk path. inl einval;
  entries = λ disk path. inr [];
  chmod_like = λ disk from to. disk;
  read = λ disk path. inr (lookup disk path);
  write = λ disk path text. ((path, text) ∷ disk, written);
  copy_file = λ disk from to. (disk, ok);
  rm_walk = λ disk path. (disk, walked);
}

small_fs-Durable : Durable small_fs
unfolding lookup
small_fs-Durable disk tmp file text h e =
    let first : str_eq tmp tmp ≡ true = ground arith in
    let second : str_eq file file ≡ true = ground arith in rw (first, second) refl

abbrev base : Volume
base = record {
  id = codes "0a";
  name = codes "data";
  path = codes "/data";
  description = codes "all of it";
  size_limit = 4096;
  created_at = 1700000000;
  readonly = pos 0;
}

abbrev monday : Snapshot
monday = record {
  id = codes "0b";
  name = codes "monday";
  volume = codes "data";
  path = codes "/state/snapshots/data/monday";
  created_at = 1700000001;
  active = pos 1;
}

abbrev ctx : Ctx Disk
ctx = record {
  volumes = base ∷ [];
  snapshots = monday ∷ [];
  state_dir = codes "/state";
  state_file = state_path (codes "/state");
  initialized = true;
  disk = [];
}

-- Texts of printable characters.
plain : Bytes → Bool
plain [] = true
plain (c ∷ s) = (ltb 10 c) && plain s

plain-OneLine : (s : Bytes) → plain s ≡ true → OneLine s
unfolding plain
plain-OneLine [] h = tt
plain-OneLine (c ∷ s) h = ground (arith, plain-OneLine s)

tidy :
    (cap : ℕ) (s : Bytes)
    → plain s ≡ true
    → ltb (length s) cap ≡ true
    → ends_solid s ≡ true
    → Tidy cap s
tidy cap s h short ends = (ground arith, plain-OneLine s h, inr ends)

base-IsStorable : IsStorable base
unfolding plain ends_solid
base-IsStorable = record {
  id = (tidy 40 base.id refl refl refl, λ e. cc);
  name = (tidy 128 base.name refl refl refl, λ e. cc);
  path = (tidy 512 base.path refl refl refl, λ e. cc);
  description = tidy 256 base.description refl refl refl;
  size_limit = omega arith;
  created_at = omega arith;
  readonly = inl refl;
}

monday-IsKept : IsKept monday
unfolding plain ends_solid
monday-IsKept = record {
  id = (tidy 40 monday.id refl refl refl, λ e. cc);
  name = (tidy 128 monday.name refl refl refl, λ e. cc);
  volume = (tidy 128 monday.volume refl refl refl, λ e. cc);
  path = (tidy 512 monday.path refl refl refl, λ e. cc);
  created_at = omega arith;
  active = inr refl;
}

ctx_persists : (storage_persist small_fs ctx).1 ≡ ok
unfolding storage_persist small_fs lookup Bytes-discrete fit
ctx_persists = refl

restart_example :
    storage_impl_init small_fs true
      (1 + (1 + 5))
      (storage_persist small_fs ctx).0
      (some (codes "/state"))
    ≡ (
      started
          (storage_persist small_fs ctx).0
          (codes "/state")
          (reverse_onto (base ∷ []) [])
          (reverse_onto (monday ∷ []) []),
      ok,
    )
restart_example =
    restart small_fs small_fs-Durable ctx 5 (base-IsStorable, tt) (monday-IsKept, tt) refl
      (omega arith) ctx_persists

abbrev new_def : Def
new_def = record {
  name = some (codes "more");
  path = some (codes "/state");
  description = none;
  size_limit = 0;
  readonly = false;
}

ctx-IsGood : IsGood ctx
unfolding storage_valid_label storage_valid_path has_break Bytes-discrete
ctx-IsGood = ((tt, tt), ((refl, refl, ground arith, refl), tt), (tt, tt))

Steps-IsGood_example :
    IsGood (storage_create_volume small_fs ctx true (1 ∷ 2 ∷ []) 9 (some new_def)).0
Steps-IsGood_example =
    Steps-IsGood small_fs ctx
      (storage_create_volume small_fs ctx true (1 ∷ 2 ∷ []) 9 (some new_def)).0 ctx-IsGood
      (then_step ctx ctx (storage_create_volume small_fs ctx true (1 ∷ 2 ∷ []) 9 (some new_def)).0
        (stay ctx) (create ctx true (1 ∷ 2 ∷ []) 9 (some new_def)))

create_outcome_example :
    let out = storage_create_volume small_fs ctx true (1 ∷ 2 ∷ []) 9 (some new_def) in
    Failed ctx out
    ⊎ ((n : Bytes) × (p : Bytes) × (new_def.name ≡ some n)
        × (new_def.path ≡ some p)
        × (storage_valid_label n 128 ≡ ok)
        × (storage_valid_path p ≡ ok)
        × Registered small_fs ctx n p (new_volume (1 ∷ 2 ∷ []) 9 n p new_def) out)
create_outcome_example = create_outcome small_fs ctx true (1 ∷ 2 ∷ []) 9 new_def

delete_outcome_example :
    DeleteOutcome small_fs ctx
      (codes "data")
      (storage_delete_volume small_fs ctx (some (codes "data")))
delete_outcome_example = delete_outcome small_fs ctx (codes "data")

-- A snapshot of the volume under a name that is free.
abbrev plan : Plan
plan = record {
  vol_name = codes "data";
  vol_path = codes "/data";
  snap_path = codes "/state/snapshots/data/today";
}

planned : prepare small_fs ctx (codes "data") (codes "today") ≡ inr plan
unfolding prepare small_fs find? fit Bytes-discrete
planned = refl

today_valid : storage_valid_label (codes "today") 128 ≡ ok
unfolding storage_valid_label Bytes-discrete
today_valid = refl

today_registered :
    (finish small_fs ctx (codes "today") plan (new_snapshot (1 ∷ []) 5 (codes "today") plan)).1 ≡ ok
unfolding finish small_fs lookup find? fit Bytes-discrete
today_registered = refl

finish-finish_example :
    let first = new_snapshot (1 ∷ []) 5 (codes "today") plan in
    let later = record (finish small_fs ctx (codes "today") plan first).0 { disk = [] } in
    (finish small_fs later (codes "today") plan (new_snapshot (2 ∷ []) 6 (codes "today") plan)
      ≡ (record later { disk = (small_fs.rm_walk [] plan.snap_path).0 }, err eexist, none))
    × (later.snapshots ≡ first ∷ ctx.snapshots)
    × (first.path ≡ plan.snap_path)
finish-finish_example =
    finish-finish small_fs ctx ctx (codes "data") (codes "today") plan (1 ∷ []) (2 ∷ []) 5 6 []
      today_valid planned today_registered

storage_valid_label_iff_example : (storage_valid_label (codes "data") 128 ≡ ok) ↔ (
    (codes "data" ≢ [])
    × (length (codes "data") < 128)
    × IsPlain (codes "data")
    × (codes "data" ≢ codes ".")
    × (codes "data" ≢ codes ".."))
storage_valid_label_iff_example = storage_valid_label_iff (codes "data") 128

storage_sanitize_desc-take_example :
    (storage_sanitize_desc 4 (some (97 ∷ 10 ∷ 98 ∷ 99 ∷ 100 ∷ []))
      ≡ take 3 (keep is_text (97 ∷ 10 ∷ 98 ∷ 99 ∷ 100 ∷ [])))
    × (has_break (storage_sanitize_desc 4 (some (97 ∷ 10 ∷ 98 ∷ 99 ∷ 100 ∷ []))) ≡ false)
storage_sanitize_desc-take_example =
    storage_sanitize_desc-take 4 (97 ∷ 10 ∷ 98 ∷ 99 ∷ 100 ∷ []) (omega arith)

abbrev seen : List (Bool × ℕ)
seen = (true, 7) ∷ (false, 4096) ∷ (true, 5) ∷ []
