-- ===== src/Storage.antt =====
-- storage/src/storage_impl.c: directories as volumes, their registry and their snapshots.
-- The two linked lists are lists in the same order. The file system is a parameter, `Fs`: a state
-- with the calls that the source makes. Each section under the lock is one step. `alloc` says whether
-- `calloc` succeeds, `random` are the 16 bytes of storage_gen_id and `now` is the time.
pub mod Fs
pub mod Text
pub mod State
pub mod Volumes
pub mod Usage
pub mod Labels
pub mod Registry
pub mod Restart
pub mod Outcome
pub mod Total
pub mod Removal
pub mod Race
pub mod Snapshots
use hwrun_os_linux.Prelude.{
  ℕ, ◌+◌, ◌-◌, ◌/◌, ◌%◌, Bool, true, false, not, ◌&&◌, ◌||◌, List, [], ◌∷◌, ◌++◌, Option, none,
  some, Bytes, codes, length, str_eq, is_empty, fit, find?, if◌then◌else◌, ltb, leb, ◌==◌, ℤ, pos,
}
use hwrun_os_linux.Errno.{Rc, ok, err, einval, enametoolong}

-- storage_volume_rec_t
pub record Volume : Type 0 where
  pub id : Bytes
  pub name : Bytes
  pub path : Bytes
  pub description : Bytes
  pub size_limit : ℕ
  pub created_at : ℕ
  pub readonly : ℤ

-- storage_snapshot_rec_t
pub record Snapshot : Type 0 where
  pub id : Bytes
  pub name : Bytes
  pub volume : Bytes
  pub path : Bytes
  pub created_at : ℕ
  pub active : ℤ

-- storage_ctx_t, without the lock; `disk` is the state of the file system.
pub record Ctx (F : Type 0) : Type 0 where
  pub volumes : List Volume
  pub snapshots : List Snapshot
  pub state_dir : Bytes
  pub state_file : Bytes
  pub initialized : Bool
  pub disk : F

-- hw_storage_volume_def_t
pub record Def : Type 0 where
  pub name : Option Bytes
  pub path : Option Bytes
  pub description : Option Bytes
  pub size_limit : ℕ
  pub readonly : Bool

abbrev pub path_max : ℕ
path_max = 512

abbrev pub label_max : ℕ
label_max = 128

-- A slash or a control character; a newline is one.
abbrev is_forbidden : ℕ → Bool
is_forbidden c = c == b'/' || ltb c 32

unfoldable pub no_forbidden : Bytes → Bool
no_forbidden [] = true
no_forbidden (c ∷ s) = if is_forbidden c then false else no_forbidden s

unfoldable pub storage_valid_label : Bytes → ℕ → Rc
unfolding no_forbidden
storage_valid_label s max =
    if is_empty s
    then err einval
    else if leb max (length s)
    then err enametoolong
    else if not (no_forbidden s)
    then err einval
    else if str_eq s (codes ".") || str_eq s (codes "..")
    then err einval
    else ok

abbrev pub is_absolute : Bytes → Bool
is_absolute [] = false
is_absolute (c ∷ s) = c == b'/'

-- strchr (s, '\n') || strchr (s, '\r')
unfoldable pub has_break : Bytes → Bool
has_break [] = false
has_break (c ∷ s) = if c == 10 || c == 13 then true else has_break s

unfoldable pub storage_valid_path : Bytes → Rc
unfolding has_break
storage_valid_path s =
    if is_empty s
    then err einval
    else if leb path_max (length s)
    then err enametoolong
    else if not (is_absolute s)
    then err einval
    else if has_break s
    then err einval
    else ok

-- The loop of storage_sanitize_desc, with `i` bytes written.
unfoldable pub sanitize : ℕ → ℕ → Bytes → Bytes
sanitize cap i [] = []
sanitize cap i (c ∷ s) = elim (leb cap (i + 1)) [
  | true ↦ []
  | false ↦ elim (c == 10 || c == 13) [
    | true ↦ sanitize cap i s
    | false ↦ c ∷ sanitize cap (i + 1) s
  ]
]

unfoldable pub storage_sanitize_desc : ℕ → Option Bytes → Bytes
unfolding sanitize
storage_sanitize_desc cap none = []
storage_sanitize_desc cap (some s) = sanitize cap 0 s

abbrev hex_digit : ℕ → ℕ
hex_digit d = if ltb d 10 then b'0' + d else b'a' + (d - 10)

-- storage_gen_id, from the 16 random bytes on: two digits for each.
unfoldable pub storage_gen_id : Bytes → Bytes
storage_gen_id [] = []
storage_gen_id (b ∷ bs) = hex_digit (b / 16) ∷ hex_digit (b % 16) ∷ storage_gen_id bs

abbrev pub volume_called : Bytes → Volume → Bool
volume_called n v = str_eq v.id n || str_eq v.name n

abbrev pub snapshot_called : Bytes → Snapshot → Bool
snapshot_called n s = str_eq s.id n || str_eq s.name n

abbrev pub snapshot_of : Bytes → Bytes → Snapshot → Bool
snapshot_of volume name s = str_eq s.volume volume && str_eq s.name name

unfoldable pub storage_find_volume : List Volume → Bytes → Option Volume
storage_find_volume vs n = find? (volume_called n) vs

unfoldable pub storage_find_snapshot : List Snapshot → Bytes → Option Snapshot
storage_find_snapshot ss n = find? (snapshot_called n) ss

unfoldable pub storage_find_snapshot_in : List Snapshot → Bytes → Bytes → Option Snapshot
storage_find_snapshot_in ss volume name = find? (snapshot_of volume name) ss
