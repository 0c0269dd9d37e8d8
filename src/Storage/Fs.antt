-- ===== src/Storage/Fs.antt =====
-- The calls of the file system that storage/src/storage_impl.c makes, and its routines over trees.
use hwrun_os_linux.Prelude.{
  ℕ, zero, suc, Bool, true, false, ◌||◌, List, [], ◌∷◌, ◌++◌, Option, ◌⊎◌, inl, inr, Bytes, codes,
  length, str_eq, fit, if◌then◌else◌, leb, ◌==◌,
}
use hwrun_os_linux.Errno.{Errno, Rc, ok, err, eperm, enoent, other, eexist, enotdir, enametoolong}

-- What lstat tells of a path.
pub data Kind : Type 0 where
  missing directory regular symlink special : Kind
  -- an errno other than ENOENT
  unreadable : Errno → Kind

-- What nftw returns: 0, the negated errno of the callback, or -1 for an error of its own.
pub data Walk : Type 0 where
  walked broken : Walk
  stopped_by : Errno → Walk

-- How the write of a file ends: as intended, without an open file, or with an error of fclose.
pub data Written : Type 0 where
  written not_closed : Written
  not_opened : Errno → Written

pub record Fs (F : Type 0) : Type 0 where
  pub lstat : F → Bytes → Kind
  pub mkdir : F → Bytes → F × Rc
  pub rmdir : F → Bytes → F
  pub remove : F → Bytes → F × Rc
  pub rename : F → Bytes → Bytes → F × Rc
  pub symlink : F → Bytes → Bytes → F × Rc
  pub readlink : F → Bytes → Errno ⊎ Bytes
  -- opendir, and readdir to the end
  pub entries : F → Bytes → Errno ⊎ List Bytes
  pub chmod_like : F → Bytes → Bytes → F
  -- fopen for reading and fread to the end; none where the file is not there
  pub read : F → Bytes → Errno ⊎ Option Bytes
  -- fopen for writing, fwrite and fclose
  pub write : F → Bytes → Bytes → F × Written
  -- storage_copy_file: the bytes of one regular file, and its mode
  pub copy_file : F → Bytes → Bytes → F × Rc
  -- nftw with storage_rm_cb, which storage_rm_rf calls
  pub rm_walk : F → Bytes → F × Walk

abbrev pub is_dir : Kind → Bool
is_dir directory = true
is_dir _ = false

-- EEXIST counts as success.
abbrev tolerated : Rc → Bool
tolerated ok = true
tolerated (err eexist) = true
tolerated _ = false

module _ {F : Type 0} (fs : Fs F) where
  -- Every prefix that ends before a slash behind the first byte, and then the whole path; `done` has
  -- the bytes before the present one.
  unfoldable pub mkdir_each : F → Bytes → Bytes → F × Rc
  mkdir_each f done [] = fs.mkdir f done
  mkdir_each f done (c ∷ s) = elim (c == b'/') [
    | false ↦ mkdir_each f (done ++ c ∷ []) s
    | true ↦
        (let (f', rc) = fs.mkdir f done in
          if tolerated rc then mkdir_each f' (done ++ c ∷ []) s else (f', rc))
  ]

  check_dir : Kind → Rc
  check_dir directory = ok
  check_dir (unreadable e) = err e
  check_dir missing = err enoent
  check_dir _ = err enotdir

  -- The loop starts behind the first byte.
  mkdir_path : F → Bytes → F × Rc
  unfolding mkdir_each
  mkdir_path f [] = fs.mkdir f []
  mkdir_path f (c ∷ s) = mkdir_each f (c ∷ []) s

  unfoldable pub storage_mkdir_p : F → Bytes → F × Rc
  unfolding mkdir_path check_dir
  storage_mkdir_p f path =
      if leb 512 (length path)
      then (f, err enametoolong)
      else let (f', rc) = mkdir_path f path in
        if tolerated rc then (f', check_dir (fs.lstat f' path)) else (f', rc)

  -- The entries but "." and "..".
  abbrev is_dots : Bytes → Bool
  is_dots name = str_eq name (codes ".") || str_eq name (codes "..")

  abbrev below : Bytes → Bytes → Bytes
  below dir name = fit 1024 (dir ++ b'/' ∷ name)

  abbrev walk_rc : Walk → Rc
  walk_rc walked = ok
  walk_rc broken = err eperm
  walk_rc (stopped_by e) = err e

  clear_one : F → Bytes → Kind → F × Rc
  clear_one f child missing = (f, err enoent)
  clear_one f child (unreadable e) = (f, err e)
  clear_one f child directory = let (f', w) = fs.rm_walk f child in (f', walk_rc w)
  clear_one f child _ = fs.remove f child

  clear_each : F → Bytes → List Bytes → F × Rc
  unfolding clear_one
  clear_each f dir [] = (f, ok)
  clear_each f dir (name ∷ names) = elim (is_dots name) [
    | true ↦ clear_each f dir names
    | false ↦
        (let out = clear_one f (below dir name) (fs.lstat f (below dir name)) in
          elim out.1 [ err e ↦ (out.0, err e) | ok ↦ clear_each out.0 dir names ])
  ]

  -- storage_dir_clear
  unfoldable pub storage_dir_clear : F → Bytes → F × Rc
  unfolding clear_each
  storage_dir_clear f dir = elim (fs.entries f dir) [
    | inl e ↦ (f, err e)
    | inr names ↦ clear_each f dir names
  ]

  -- The loop over the entries of a directory, with the copy of one entry.
  copy_each : (F → Bytes → Bytes → F × Rc) → F → Bytes → Bytes → List Bytes → F × Rc
  copy_each copy f src dst [] = (f, ok)
  copy_each copy f src dst (name ∷ names) = elim (is_dots name) [
    | true ↦ copy_each copy f src dst names
    | false ↦
        (let out = copy f (below src name) (below dst name) in
          elim out.1 [ err e ↦ (out.0, err e) | ok ↦ copy_each copy out.0 src dst names ])
  ]

  -- storage_copy_tree, to a depth; one that is deeper ends in `other`.
  unfoldable pub storage_copy_tree : ℕ → F → Bytes → Bytes → F × Rc
  unfolding copy_each storage_mkdir_p
  storage_copy_tree zero f src dst = (f, err other)
  storage_copy_tree (suc depth) f src dst = elim (fs.lstat f src) [
    | missing ↦ (f, err enoent)
    | unreadable e ↦ (f, err e)
    | regular ↦ fs.copy_file f src dst
    | special ↦ (f, ok)
    | symlink ↦ elim (fs.readlink f src) [
      | inl e ↦ (f, err e)
      | inr target ↦ fs.symlink f (fit 1024 target) dst
    ]
    | directory ↦
        (let made = storage_mkdir_p f dst in
          elim made.1 [
            | err e ↦ (made.0, err e)
            | ok ↦ elim (fs.entries made.0 src) [
              | inl e ↦ (made.0, err e)
              | inr names ↦
                  (let out = copy_each (storage_copy_tree depth) made.0 src dst names in
                    elim out.1 [ err e ↦ (out.0, err e) | ok ↦ (fs.chmod_like out.0 src dst, ok) ])
            ]
          ])
  ]
