-- ===== src/Audit/Export/Written.antt =====
-- What a successful export of audit/src/audit_impl.c leaves in its file.
use hwrun_os_linux.Prelude.{
  ℕ, ◌+◌, ◌≡◌, refl, sym, ap, ◌∙◌, true, List, [], ◌∷◌, ◌++◌, append-nil, append_assoc, Option,
  some, Bytes, length, arith, Bool-cases, Option-cases, inl, inr,
}
use hwrun_os_linux.Errno.{Rc, ok, err, Rc-cases}
use hwrun_os_linux.Audit.Query.{Event, Query}
use hwrun_os_linux.Audit.Line.{fmt_line}
use hwrun_os_linux.Audit.Log.{Disk, Log, ops_query, collect_locked, set_default_dir_locked}
use hwrun_os_linux.Audit.Export.{Sink, write_events, close_file, export_file, ops_export_events}

-- A text that is the lines of events.
pub data IsListing : List Event → Bytes → Type 0 where
  empty : IsListing [] []
  line :
      {ev : Event} {evs : List Event} {l text : Bytes}
      → fmt_line 4096 ev ≡ some l
      → IsListing evs text
      → IsListing (ev ∷ evs) (l ++ text)

-- What fopen, fwrite and fclose promise where they succeed.
pub record Keeps {F : Type 0} (fs : Disk F) (sink : Sink F) : Type 0 where
  pub created :
      (f : F) (p : Bytes) → (sink.create f p).1 ≡ ok → fs.read (sink.create f p).0 p ≡ some []
  pub written :
      (f : F) (p old b : Bytes)
      → fs.read f p ≡ some old
      → (sink.write f p b).1 ≡ true
      → fs.read (sink.write f p b).0 p ≡ some (old ++ b)
  pub closed :
      (f : F) (p old : Bytes)
      → fs.read f p ≡ some old
      → (sink.close f p).1 ≡ true
      → fs.read (sink.close f p).0 p ≡ some old

-- The file behind `old` is the lines of the events, and `n` more are counted.
abbrev pub IsWritten : {F : Type 0} → Disk F → F → Bytes → Bytes → List Event → ℕ → ℕ → Type 0
IsWritten fs f p old evs n count =
    ((text : Bytes) × (IsListing evs text × (fs.read f p ≡ some (old ++ text))))
    × (count ≡ n + length evs)

zero_add : (evs : List Event) → 0 + length evs ≡ length evs
zero_add evs = omega arith

module _ {F : Type 0} (fs : Disk F) (sink : Sink F) (keeps : Keeps fs sink) where
  write_events-IsWritten :
      (f : F) (p old : Bytes) (evs : List Event) (n : ℕ)
      → fs.read f p ≡ some old
      → (write_events fs sink f p evs n).1 ≡ ok
      → let out = write_events fs sink f p evs n in IsWritten fs out.0 p old evs n out.2
  unfolding write_events
  write_events-IsWritten f p old [] n there h =
      (([], (empty, there ∙ ap some (sym (append-nil old)))), omega arith)
  write_events-IsWritten f p old (ev ∷ evs) n there h = elim (Option-cases (fmt_line 4096 ev)) [
    | inl e ↦ absurd (ground arith)
    | inr (l, e) ↦ elim (Bool-cases (sink.write f p l).1) [
      | inl w ↦
          let now = (sink.write f p l).0 in
          let rest =
            write_events-IsWritten now p (old ++ l) evs (n + 1) (keeps.written f p old l there w)
              (rw (e, w, write_events) at h) in
          rw (e, w, write_events)
            (
              (
                l ++ rest.0.0,
                (line e rest.0.1.0, rest.0.1.1 ∙ ap some (append_assoc old l rest.0.0)),
              ),
              omega (arith, rest.1),
            )
      | inr w ↦ absurd (ground arith)
    ]
  ]

  close_file-ok : (f : F) (p : Bytes) (rc : Rc) → (close_file fs sink f p rc).1 ≡ ok → rc ≡ ok
  unfolding close_file
  close_file-ok f p ok h = refl
  close_file-ok f p (err e) h = h

  close_file-keeps :
      (f : F) (p text : Bytes) (rc : Rc)
      → fs.read f p ≡ some text
      → (close_file fs sink f p rc).1 ≡ ok
      → fs.read (close_file fs sink f p rc).0 p ≡ some text
  unfolding close_file
  close_file-keeps f p text (err e) there h = absurd (ground arith)
  close_file-keeps f p text ok there h = elim (Bool-cases (sink.close f p).1) [
    | inl w ↦ rw (w, close_file) (keeps.closed f p text there w)
    | inr w ↦ absurd (ground arith)
  ]

  export_file-IsWritten :
      (f : F) (p : Bytes) (evs : List Event)
      → (export_file fs sink f p evs).1 ≡ ok
      → let out = export_file fs sink f p evs in IsWritten fs out.0 p [] evs 0 out.2
  unfolding export_file
  export_file-IsWritten f p evs h = elim (Rc-cases (sink.create f p).1) [
    | inl c ↦
        let made = (sink.create f p).0 in
        let rest = write_events-IsWritten made p [] evs 0 (keeps.created f p c) in
        let out = write_events fs sink made p evs 0 in
        let shut : (close_file fs sink out.0 p out.1).1 ≡ ok = rw (c, export_file) at h in
        let told = rest (close_file-ok out.0 p out.1 shut) in
        rw (c, export_file)
          (
            (told.0.0, (told.0.1.0, close_file-keeps out.0 p told.0.0 out.1 told.0.1.1 shut)),
            told.1,
          )
    | inr (e, c) ↦ absurd (ground arith)
  ]

  -- An export that succeeds follows a query that succeeds, and its file holds the lines of the
  -- events of that query, in their order, and nothing else; as many are counted. The calls on the file keep
  -- what fopen, fwrite and fclose promise where they succeed, and each of them may fail.
  pub ops_export_events-IsWritten :
      (room : ℕ) (q : Option Query) (p : Bytes) (log : Log F)
      → (ops_export_events fs sink room q (some p) log).1 ≡ ok
      → let out = ops_export_events fs sink room q (some p) log in
        let asked = ops_query fs room q log in
        (asked.1 ≡ ok)
        × (((text : Bytes) × (IsListing asked.2 text × (fs.read out.0.disk p ≡ some text)))
            × (out.2 ≡ some (length asked.2)))
  unfolding ops_export_events ops_query
  ops_export_events-IsWritten room q p log h =
      let ready = record log { store = set_default_dir_locked log.store } in
      elim (Rc-cases (collect_locked fs room q ready).0) [
        | inl c ↦
            let told =
              export_file-IsWritten log.disk p (collect_locked fs room q ready).1
                (rw (c, ops_export_events) at h) in
            rw (c, ops_export_events)
              (refl, (told.0, ap some (told.1 ∙ zero_add (collect_locked fs room q ready).1)))
        | inr (e, c) ↦ absurd (ground arith)
      ]
