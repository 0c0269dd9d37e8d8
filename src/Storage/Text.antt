-- ===== src/Storage/Text.antt =====
-- The state file of storage/src/storage_impl.c: its text, and the loop that reads it.
-- The lines of the file are those of fgets. `left` counts the calls of `calloc` that still succeed.
pub mod Printed
pub mod Blocks
pub mod RoundTrip
use hwrun_os_linux.Prelude.{
  ℕ, zero, suc, ◌+◌, ◌-◌, Bool, true, false, not, ◌&&◌, ◌||◌, List, [], ◌∷◌, ◌++◌, Option, none,
  some, Bytes, codes, length, str_eq, is_empty, fit, find?, if◌then◌else◌, ltb, leb, ◌==◌, ℤ, pos,
}
use hwrun_os_linux.Prelude.Lines.{fgets_lines, unlines, trim}
use hwrun_os_linux.Prelude.Decimal.{decimal, decimal_int, strtoull, atoi}
use hwrun_os_linux.Storage.{Volume, Snapshot}

-- The two comments at the top, in UTF-8.
abbrev first_comment : Bytes
first_comment =
    35 ∷ 32 ∷ 72 ∷ 87 ∷ 82 ∷ 117 ∷ 110 ∷ 32 ∷ 79 ∷ 83 ∷ 32 ∷ 83 ∷ 84 ∷ 79 ∷ 82 ∷ 65 ∷ 71 ∷ 69 ∷ 32
    ∷ 230 ∷ 179 ∷ 168 ∷ 229 ∷ 134 ∷ 140 ∷ 232 ∷ 161 ∷ 168 ∷ 231 ∷ 138 ∷ 182 ∷ 230 ∷ 128 ∷ 129 ∷ 230
    ∷ 150 ∷ 135 ∷ 228 ∷ 187 ∷ 182 ∷ 239 ∷ 188 ∷ 136 ∷ 229 ∷ 143 ∷ 175 ∷ 232 ∷ 175 ∷ 187 ∷ 230 ∷ 160
    ∷ 188 ∷ 229 ∷ 188 ∷ 143 ∷ 239 ∷ 188 ∷ 140 ∷ 118 ∷ 49 ∷ 239 ∷ 188 ∷ 137 ∷ []

abbrev second_comment : Bytes
second_comment =
    35 ∷ 32 ∷ 232 ∷ 135 ∷ 170 ∷ 229 ∷ 138 ∷ 168 ∷ 231 ∷ 148 ∷ 159 ∷ 230 ∷ 136 ∷ 144 ∷ 239 ∷ 188
    ∷ 140 ∷ 229 ∷ 139 ∷ 191 ∷ 230 ∷ 137 ∷ 139 ∷ 230 ∷ 148 ∷ 185 ∷ 239 ∷ 188 ∷ 155 ∷ 229 ∷ 157 ∷ 151
    ∷ 233 ∷ 151 ∷ 180 ∷ 228 ∷ 187 ∷ 165 ∷ 231 ∷ 169 ∷ 186 ∷ 232 ∷ 161 ∷ 140 ∷ 229 ∷ 136 ∷ 134 ∷ 233
    ∷ 154 ∷ 148 ∷ []

-- key=value
abbrev pub field : Bytes → Bytes → Bytes
field key value = key ++ (b'=' ∷ value)

unfoldable pub volume_lines : Volume → List Bytes
volume_lines v =
    codes "volume"
    ∷ field (codes "id") v.id
    ∷ field (codes "name") v.name
    ∷ field (codes "path") v.path
    ∷ field (codes "size_limit") (decimal v.size_limit)
    ∷ field (codes "readonly") (decimal_int v.readonly)
    ∷ field (codes "created_at") (decimal v.created_at)
    ∷ field (codes "description") v.description
    ∷ []
    ∷ []

unfoldable pub snapshot_lines : Snapshot → List Bytes
snapshot_lines s =
    codes "snapshot"
    ∷ field (codes "id") s.id
    ∷ field (codes "name") s.name
    ∷ field (codes "volume") s.volume
    ∷ field (codes "path") s.path
    ∷ field (codes "created_at") (decimal s.created_at)
    ∷ field (codes "active") (decimal_int s.active)
    ∷ []
    ∷ []

unfoldable pub all_volume_lines : List Volume → List Bytes
unfolding volume_lines
all_volume_lines [] = []
all_volume_lines (v ∷ vs) = volume_lines v ++ all_volume_lines vs

unfoldable pub all_snapshot_lines : List Snapshot → List Bytes
unfolding snapshot_lines
all_snapshot_lines [] = []
all_snapshot_lines (s ∷ ss) = snapshot_lines s ++ all_snapshot_lines ss

unfoldable pub state_lines : List Volume → List Snapshot → List Bytes
unfolding all_volume_lines all_snapshot_lines
state_lines vs ss =
    first_comment ∷ second_comment ∷ [] ∷ (all_volume_lines vs ++ all_snapshot_lines ss)

-- What storage_persist writes.
unfoldable pub state_text : List Volume → List Snapshot → Bytes
unfolding state_lines unlines
state_text vs ss = unlines (state_lines vs ss)

-- cur
pub data Cur : Type 0 where
  rec_none rec_vol rec_snap : Cur

-- The variables of the loop of storage_load, and the lists of the context.
pub record Parse : Type 0 where
  pub cur : Cur
  pub v : Volume
  pub s : Snapshot
  pub have : Bool
  pub volumes : List Volume
  pub snapshots : List Snapshot
  pub left : ℕ

abbrev pub no_volume : Volume
no_volume = record {
  id = [];
  name = [];
  path = [];
  description = [];
  size_limit = 0;
  created_at = 0;
  readonly = pos 0;
}

abbrev pub no_snapshot : Snapshot
no_snapshot = record { id = []; name = []; volume = []; path = []; created_at = 0; active = pos 0 }

-- The new record goes to the front; one without memory is dropped.
abbrev pub add_volume : ℕ → Parse → Parse
add_volume zero p = p
add_volume (suc left) p = record p { volumes = p.v ∷ p.volumes; left = left }

abbrev pub add_snapshot : ℕ → Parse → Parse
add_snapshot zero p = p
add_snapshot (suc left) p = record p { snapshots = p.s ∷ p.snapshots; left = left }

abbrev commit_as : Cur → Bool → Parse → Parse
commit_as rec_vol true p = add_volume p.left p
commit_as rec_snap true p = add_snapshot p.left p
commit_as _ _ p = p

unfoldable pub commit : Parse → Parse
commit p = commit_as p.cur p.have p

-- strchr (p, '='): the key in front of it, and the value behind.
unfoldable pub split_at : Bytes → Option (Bytes × Bytes)
split_at [] = none
split_at (c ∷ s) = elim (c == b'=') [
  | true ↦ some ([], s)
  | false ↦ elim (split_at s) [ none ↦ none | some (key, value) ↦ some (c ∷ key, value) ]
]

unfoldable pub set_volume : Bytes → Bytes → Volume → Volume
set_volume key value v =
    if str_eq key (codes "id")
    then record v { id = fit 40 value }
    else if str_eq key (codes "name")
    then record v { name = fit 128 value }
    else if str_eq key (codes "path")
    then record v { path = fit 512 value }
    else if str_eq key (codes "description")
    then record v { description = fit 256 value }
    else if str_eq key (codes "size_limit")
    then record v { size_limit = strtoull value }
    else if str_eq key (codes "readonly")
    then record v { readonly = atoi value }
    else if str_eq key (codes "created_at")
    then record v { created_at = strtoull value }
    else v

unfoldable pub set_snapshot : Bytes → Bytes → Snapshot → Snapshot
set_snapshot key value s =
    if str_eq key (codes "id")
    then record s { id = fit 40 value }
    else if str_eq key (codes "name")
    then record s { name = fit 128 value }
    else if str_eq key (codes "volume")
    then record s { volume = fit 128 value }
    else if str_eq key (codes "path")
    then record s { path = fit 512 value }
    else if str_eq key (codes "created_at")
    then record s { created_at = strtoull value }
    else if str_eq key (codes "active")
    then record s { active = atoi value }
    else s

abbrev pub has_volume : Volume → Bool
has_volume v = not (is_empty v.id) && (not (is_empty v.name) && not (is_empty v.path))

abbrev pub has_snapshot : Snapshot → Bool
has_snapshot s =
    not (is_empty s.id)
    && (not (is_empty s.name) && (not (is_empty s.volume) && not (is_empty s.path)))

abbrev pub with_volume : Volume → Parse → Parse
with_volume v p = record p { v = v; have = if has_volume v then true else p.have }

abbrev pub with_snapshot : Snapshot → Parse → Parse
with_snapshot s p = record p { s = s; have = if has_snapshot s then true else p.have }

unfoldable pub set_field : Cur → Bytes → Bytes → Parse → Parse
unfolding set_volume set_snapshot
set_field rec_none key value p = p
set_field rec_vol key value p = with_volume (set_volume key value p.v) p
set_field rec_snap key value p = with_snapshot (set_snapshot key value p.s) p

abbrev pub open_volume : Parse → Parse
open_volume p = record p { cur = rec_vol; v = no_volume; have = false }

abbrev pub open_snapshot : Parse → Parse
open_snapshot p = record p { cur = rec_snap; s = no_snapshot; have = false }

abbrev is_comment : Bytes → Bool
is_comment [] = true
is_comment (c ∷ s) = c == b'#'

-- One round of the loop, on the trimmed line.
unfoldable pub read_line : Parse → Bytes → Parse
unfolding commit split_at set_field
read_line p line =
    if is_comment line
    then p
    else if str_eq line (codes "volume")
    then open_volume (commit p)
    else if str_eq line (codes "snapshot")
    then open_snapshot (commit p)
    else elim (split_at line) [ none ↦ p | some (key, value) ↦ set_field p.cur key value p ]

unfoldable pub read_lines : Parse → List Bytes → Parse
unfolding read_line trim
read_lines p [] = p
read_lines p (l ∷ ls) = read_lines (read_line p (trim l)) ls

abbrev pub before : ℕ → Parse
before left = record {
  cur = rec_none;
  v = no_volume;
  s = no_snapshot;
  have = false;
  volumes = [];
  snapshots = [];
  left = left;
}

-- The lists that a file gives to a context without any.
unfoldable pub load_text : ℕ → Bytes → List Volume × List Snapshot
unfolding read_lines fgets_lines commit
load_text left text =
    let p = commit (read_lines (before left) (fgets_lines 2048 [] text)) in (p.volumes, p.snapshots)
