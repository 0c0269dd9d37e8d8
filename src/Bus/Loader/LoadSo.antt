-- ===== src/Bus/Loader/LoadSo.antt =====
-- hw_plugin_load_so of bus/src/loader.c. `dlopen` gives a handle for a path, and `entry` is the
-- lookup of hw_plugin_entry in a handle with its call: no symbol, a NULL descriptor, or one.
use hwrun_os_linux.Prelude.{
  ℕ, ◌≡◌, ◌≢◌, Bool, true, false, not, List, [], ◌∷◌, Option, none, some, Bytes, codes,
  if◌then◌else◌, ◌==◌, ◌⊎◌, All,
}
use hwrun_os_linux.Errno.{Rc, ok, err, enoent, eilseq}
use hwrun_os_linux.Bus.Plugin.{Plugin}

starts_with : Bytes → Bytes → Bool
starts_with [] s = true
starts_with (c ∷ pre) [] = false
starts_with (c ∷ pre) (d ∷ s) = if c == d then starts_with pre s else false

-- strstr (s, pre) != NULL
unfoldable pub contains : Bytes → Bytes → Bool
unfolding starts_with
contains pre [] = starts_with pre []
contains pre (c ∷ s) = if starts_with pre (c ∷ s) then true else contains pre s

-- The first file with ".so" in its path.
unfoldable pub load_path : List (Option Bytes) → Option Bytes
unfolding contains
load_path [] = none
load_path (none ∷ files) = load_path files
load_path (some f ∷ files) = if contains (codes ".so") f then some f else load_path files

module _ {W : Type 0} (dlopen : Bytes → Option ℕ) (entry : ℕ → Option (Option (Plugin W))) where
  -- What the library of a handle gives; on a failure it is closed again.
  unfoldable pub adopt : Plugin W → ℕ → Plugin W × Rc
  adopt p h = elim (entry h) [
    | none ↦ (p, err eilseq)
    | some self ↦ elim self [
      | none ↦ (p, err eilseq)
      | some q ↦ (record p { handle = h; ops = q.ops }, ok)
    ]
  ]

  unfoldable pub hw_plugin_load_so : Plugin W → Plugin W × Rc
  unfolding load_path adopt
  hw_plugin_load_so p = if not (p.handle == 0) then (p, ok) else elim (load_path p.files) [
    | none ↦ (p, err enoent)
    | some path ↦ elim (dlopen path) [ none ↦ (p, err enoent) | some h ↦ adopt p h ]
  ]

-- The path of a file with ".so" in it, behind files without.
abbrev NoLibrary : Option Bytes → Type 0
NoLibrary file = elim file [ none ↦ Unit | some f ↦ contains (codes ".so") f ≡ false ]

pub data IsFirst (path : Bytes) : List (Option Bytes) → Type 0 where
  found :
      {files : List (Option Bytes)}
      → contains (codes ".so") path ≡ true
      → IsFirst path (some path ∷ files)
  later :
      {f : Option Bytes} {files : List (Option Bytes)}
      → NoLibrary f
      → IsFirst path files
      → IsFirst path (f ∷ files)

-- What a load does to a node, and what it returns.
pub data Load {W : Type 0} (dlopen : Bytes → Option ℕ) (entry : ℕ → Option (Option (Plugin W)))
    (p : Plugin W) : Plugin W × Rc → Type 0 where
  already : p.handle ≢ 0 → Load dlopen entry p (p, ok)
  no_library : p.handle ≡ 0 → All NoLibrary p.files → Load dlopen entry p (p, err enoent)
  not_opened :
      (path : Bytes)
      → p.handle ≡ 0
      → IsFirst path p.files
      → dlopen path ≡ none
      → Load dlopen entry p (p, err enoent)
  no_entry :
      (path : Bytes) (h : ℕ)
      → p.handle ≡ 0
      → IsFirst path p.files
      → dlopen path ≡ some h
      → (entry h ≡ none) ⊎ (entry h ≡ some none)
      → Load dlopen entry p (p, err eilseq)
  entered :
      (path : Bytes) (h : ℕ) (self : Plugin W)
      → p.handle ≡ 0
      → IsFirst path p.files
      → dlopen path ≡ some h
      → entry h ≡ some (some self)
      → Load dlopen entry p (record p { handle = h; ops = self.ops }, ok)
