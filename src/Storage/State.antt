-- ===== src/Storage/State.antt =====
-- The state file of storage/src/storage_impl.c: its writing, and the start and the end of the component.
use hwrun_os_linux.Prelude.{
  ℕ, Bool, true, false, not, List, [], ◌++◌, Option, none, some, Bytes, codes, length, is_empty,
  fit, if◌then◌else◌, leb, ◌⊎◌, inl, inr,
}
use hwrun_os_linux.Errno.{Errno, Rc, ok, err, einval, eio, enametoolong}
use hwrun_os_linux.Storage.{Volume, Snapshot, Ctx}
use hwrun_os_linux.Storage.Fs.{Fs, written, not_closed, not_opened, storage_mkdir_p}
use hwrun_os_linux.Storage.Text.{state_text, load_text}

abbrev pub state_tmp : Bytes → Bytes
state_tmp dir = fit 512 (dir ++ codes "/storage.state.tmp")

abbrev pub state_path : Bytes → Bytes
state_path dir = fit 512 (dir ++ codes "/storage.state")

abbrev pub dir_max : ℕ
dir_max = 240

abbrev no_ctx : {F : Type 0} → F → Ctx F
no_ctx f = record {
  volumes = [];
  snapshots = [];
  state_dir = [];
  state_file = [];
  initialized = false;
  disk = f;
}

abbrev default_dir : Bytes
default_dir = codes "/var/lib/hwrun"

-- The state directory: HWRUN_STATE where it is set and not empty.
unfoldable pub state_dir_of : Option Bytes → Bytes
state_dir_of none = default_dir
state_dir_of (some s) = if is_empty s then default_dir else s

module _ {F : Type 0} (fs : Fs F) where
  -- From fopen on.
  unfoldable pub write_state : F → Bytes → Bytes → Bytes → F × Rc
  write_state f tmp file text =
      (let out = fs.write f tmp text in
        elim out.1 [
          | not_opened e ↦ (out.0, err e)
          | not_closed ↦ ((fs.remove out.0 tmp).0, err eio)
          | written ↦
              (let moved = fs.rename out.0 tmp file in
                elim moved.1 [ ok ↦ (moved.0, ok) | err e ↦ ((fs.remove moved.0 tmp).0, err e) ])
        ])

  -- The new state of the file system; the context is not changed otherwise.
  unfoldable pub storage_persist : Ctx F → F × Rc
  unfolding write_state storage_mkdir_p state_text
  storage_persist ctx =
      if is_empty ctx.state_dir
      then (ctx.disk, err einval)
      else (let made = storage_mkdir_p fs ctx.disk ctx.state_dir in
          elim made.1 [
            | err e ↦ made
            | ok ↦
                write_state made.0 (state_tmp ctx.state_dir) ctx.state_file
                  (state_text ctx.volumes ctx.snapshots)
          ])

  -- The lists that the file gives; one that is not there gives none.
  unfoldable pub storage_load : ℕ → F → Bytes → Errno ⊎ (List Volume × List Snapshot)
  unfolding load_text
  storage_load left f file = elim (fs.read f file) [
    | inl e ↦ inl e
    | inr none ↦ inr ([], [])
    | inr (some text) ↦ inr (load_text left text)
  ]

  abbrev with_dir : F → Bytes → Ctx F
  with_dir f dir = record (no_ctx f) { state_dir = dir; state_file = state_path dir }

  unfoldable pub start_in : ℕ → F → Bytes → Ctx F × Rc
  unfolding storage_load
  start_in left f dir = elim (storage_load left f (state_path dir)) [
    | inl e ↦ (with_dir f dir, err e)
    | inr (vs, ss) ↦
        (record (with_dir f dir) { volumes = vs; snapshots = ss; initialized = true }, ok)
  ]

  -- `env` is the value of HWRUN_STATE.
  unfoldable pub storage_impl_init : Bool → ℕ → F → Option Bytes → Ctx F × Rc
  unfolding start_in state_dir_of
  storage_impl_init lock_made left f env =
      if not lock_made
      then (no_ctx f, err eio)
      else if leb dir_max (length (state_dir_of env))
      then (no_ctx f, err enametoolong)
      else start_in left f (state_dir_of env)

  unfoldable pub storage_impl_shutdown : Ctx F → Ctx F
  storage_impl_shutdown ctx = record ctx { volumes = []; snapshots = []; initialized = false }
