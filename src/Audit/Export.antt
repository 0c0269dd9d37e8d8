-- ===== src/Audit/Export.antt =====
-- audit/src/audit_impl.c, ops_export_events: the events of a query are written to a file.
-- The calls on that file are a parameter, `Sink`.
pub mod Written
use hwrun_os_linux.Prelude.{ℕ, ◌+◌, Bool, true, false, List, [], ◌∷◌, Option, none, some, Bytes}
use hwrun_os_linux.Errno.{Rc, ok, err, einval, eio, eilseq}
use hwrun_os_linux.Audit.Query.{Event, Query}
use hwrun_os_linux.Audit.Line.{fmt_line}
use hwrun_os_linux.Audit.Log.{Disk, Log, collect_locked, set_default_dir_locked}

pub record Sink (F : Type 0) : Type 0 where
  -- fopen for writing
  pub create : F → Bytes → F × Rc
  -- fwrite; whether all was written
  pub write : F → Bytes → Bytes → F × Bool
  -- fclose; whether it succeeded
  pub close : F → Bytes → F × Bool
  pub remove : F → Bytes → F

module _ {F : Type 0} (fs : Disk F) (sink : Sink F) where
  -- With the number of the events that are written.
  unfoldable pub write_events : F → Bytes → List Event → ℕ → F × Rc × ℕ
  unfolding fmt_line
  write_events f p [] n = (f, ok, n)
  write_events f p (ev ∷ evs) n = elim (fmt_line 4096 ev) [
    | none ↦ (f, err eilseq, n)
    | some line ↦
        (let out = sink.write f p line in
          elim out.1 [ true ↦ write_events out.0 p evs (n + 1) | false ↦ (out.0, err eio, n) ])
  ]

  -- A file that is not whole is removed.
  unfoldable pub close_file : F → Bytes → Rc → F × Rc
  close_file f p rc =
      (let shut = sink.close f p in
        elim rc [
          | err e ↦ (sink.remove shut.0 p, err e)
          | ok ↦ elim shut.1 [ true ↦ (shut.0, ok) | false ↦ (sink.remove shut.0 p, err eio) ]
        ])

  unfoldable pub export_file : F → Bytes → List Event → F × Rc × ℕ
  unfolding write_events close_file
  export_file f p evs =
      (let made = sink.create f p in
        elim made.1 [
          | err e ↦ (made.0, err e, 0)
          | ok ↦
              (let out = write_events made.0 p evs 0 in
                let shut = close_file out.0 p out.1 in (shut.0, shut.1, out.2))
        ])

  -- The last result is what is written to `*out_count`.
  unfoldable pub ops_export_events : ℕ → Option Query → Option Bytes → Log F → Log F × Rc × Option ℕ
  unfolding collect_locked set_default_dir_locked export_file
  ops_export_events room q none log = (log, err einval, none)
  ops_export_events room q (some p) log =
      (let ready = record log { store = set_default_dir_locked log.store } in
        let found = collect_locked fs room q ready in
        elim found.0 [
          | err e ↦ (ready, err e, some 0)
          | ok ↦
              (let out = export_file ready.disk p found.1 in
                (record ready { disk = out.0 }, out.1, some out.2))
        ])
