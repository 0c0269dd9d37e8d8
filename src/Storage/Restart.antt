-- ===== src/Storage/Restart.antt =====
-- The end of storage/src/storage_impl.c and its next start, on the state file.
use hwrun_os_linux.Prelude.{
  ℕ, ◌+◌, ◌<◌, ◌≡◌, refl, sym, ◌∙◌, ap, true, false, List, [], some, Bytes, length, is_empty, leb,
  arith, All, inl, inr, Bool-cases,
}
use hwrun_os_linux.Errno.{ok, Rc-cases}
use hwrun_os_linux.Storage.{Volume, Snapshot, Ctx}
use hwrun_os_linux.Storage.Fs.{Fs, written, storage_mkdir_p}
use hwrun_os_linux.Storage.Text.{state_text}
use hwrun_os_linux.Storage.Text.Printed.{IsStorable, IsKept}
use hwrun_os_linux.Storage.Text.Blocks.{reverse_onto}
use hwrun_os_linux.Storage.Text.RoundTrip.{load_text-state_text}
use hwrun_os_linux.Storage.State.{
  write_state, storage_persist, storage_load, start_in, storage_impl_init, state_path, state_tmp,
  dir_max,
}

-- A file that was written to its end and closed, and then renamed, is there under its new name.
abbrev pub Durable : {F : Type 0} → Fs F → Type 0
Durable {F} fs =
    (f : F) (tmp file text : Bytes)
    → (fs.write f tmp text).1 ≡ written
    → (fs.rename (fs.write f tmp text).0 tmp file).1 ≡ ok
    → fs.read (fs.rename (fs.write f tmp text).0 tmp file).0 file ≡ inr (some text)

-- The context of a start in a state directory, with its lists.
abbrev pub started : {F : Type 0} → F → Bytes → List Volume → List Snapshot → Ctx F
started f dir vs ss = record {
  volumes = vs;
  snapshots = ss;
  state_dir = dir;
  state_file = state_path dir;
  initialized = true;
  disk = f;
}

module _ {F : Type 0} (fs : Fs F) (durable : Durable fs) where
  write_state-read :
      (f : F) (tmp file text : Bytes)
      → (write_state fs f tmp file text).1 ≡ ok
      → fs.read (write_state fs f tmp file text).0 file ≡ inr (some text)
  unfolding write_state
  write_state-read f tmp file text h = ground (arith, durable f tmp file text)

  -- The file after a write that succeeds.
  persist-read :
      (ctx : Ctx F)
      → (storage_persist fs ctx).1 ≡ ok
      → fs.read (storage_persist fs ctx).0 ctx.state_file
        ≡ inr (some (state_text ctx.volumes ctx.snapshots))
  unfolding storage_persist
  persist-read ctx h =
      let made = storage_mkdir_p fs ctx.disk ctx.state_dir in
      let text = state_text ctx.volumes ctx.snapshots in
      elim (Bool-cases (is_empty ctx.state_dir)) [
        | inl e ↦ absurd (ground (arith, rw (e, storage_persist) at h))
        | inr e ↦ elim (Rc-cases made.1) [
          | inr (x, failed) ↦ absurd (ground (arith, rw (e, failed, storage_persist) at h))
          | inl there ↦
              rw (e, there, storage_persist)
                (write_state-read made.0 (state_tmp ctx.state_dir) ctx.state_file text
                  (rw (e, there, storage_persist) at h))
        ]
      ]

  persist_named : (ctx : Ctx F) → (storage_persist fs ctx).1 ≡ ok → is_empty ctx.state_dir ≡ false
  unfolding storage_persist
  persist_named ctx h = elim (Bool-cases (is_empty ctx.state_dir)) [
    | inl e ↦ absurd (ground (arith, rw (e, storage_persist) at h))
    | inr e ↦ e
  ]

  start_in-started :
      (left : ℕ) (f : F) (dir : Bytes) (vs : List Volume) (ss : List Snapshot)
      → storage_load fs left f (state_path dir) ≡ inr (vs, ss)
      → start_in fs left f dir ≡ (started f dir vs ss, ok)
  unfolding start_in
  start_in-started left f dir vs ss e = rw (e, start_in) refl

  start_reads :
      (left : ℕ) (f : F) (dir : Bytes) (vs : List Volume) (ss : List Snapshot)
      → is_empty dir ≡ false
      → length dir < dir_max
      → storage_load fs left f (state_path dir) ≡ inr (vs, ss)
      → storage_impl_init fs true left f (some dir) ≡ (started f dir vs ss, ok)
  unfolding storage_impl_init
  start_reads left f dir vs ss named short e =
      let fits : leb dir_max (length dir) ≡ false = ground arith in
      rw (named, fits, storage_impl_init) (start_in-started left f dir vs ss e)

  -- On a file system where a file that is written, closed and renamed can be read under its new name:
  -- when the lists of a context have been persisted with success, the next start in the same state
  -- directory succeeds, and gets the same volumes and snapshots, each list in reverse order. The
  -- directory's name fits, there is memory for the records, and the fields are as the file keeps them.
  pub restart :
      (ctx : Ctx F) (left : ℕ)
      → All IsStorable ctx.volumes
      → All IsKept ctx.snapshots
      → ctx.state_file ≡ state_path ctx.state_dir
      → length ctx.state_dir < dir_max
      → (storage_persist fs ctx).1 ≡ ok
      → let f = (storage_persist fs ctx).0 in
        storage_impl_init fs true
          (length ctx.volumes + (length ctx.snapshots + left))
          f
          (some ctx.state_dir)
        ≡ (
          started f ctx.state_dir (reverse_onto ctx.volumes []) (reverse_onto ctx.snapshots []),
          ok,
        )
  unfolding storage_impl_init
  restart ctx left hv hs file short h =
      let f = (storage_persist fs ctx).0 in
      start_reads (length ctx.volumes + (length ctx.snapshots + left)) f ctx.state_dir
        (reverse_onto ctx.volumes []) (reverse_onto ctx.snapshots []) (persist_named ctx h) short
        (rw (ap (fs.read f) (sym file) ∙ persist-read ctx h, storage_load)
          (ap inr (load_text-state_text left ctx.volumes ctx.snapshots hv hs)))
