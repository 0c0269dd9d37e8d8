-- ===== src/Audit/Log.antt =====
-- audit/src/audit_impl.c: the files of the log, their rotation, and the calls that append and query.
-- The calls of the system are a parameter, `Disk`. A query has memory for `room` events.
use hwrun_os_linux.Prelude.{
  ℕ, zero, suc, ◌+◌, ◌-◌, ◌%◌, ◌^◌, Bool, true, false, not, ◌&&◌, ◌||◌, List, [], ◌∷◌, ◌++◌, take,
  Option, none, some, Bytes, codes, length, is_empty, fit, if◌then◌else◌, ltb, leb, ◌==◌, ℤ, pos,
  ltb_ℤ, ◌⊎◌, inl, inr,
}
use hwrun_os_linux.Prelude.Lines.{fgets_lines}
use hwrun_os_linux.Prelude.Decimal.{decimal}
use hwrun_os_linux.Errno.{Errno, Rc, ok, err, einval, eio, enoent, eexist, eilseq, enomem}
use hwrun_os_linux.Audit.Query.{Event, Query, event_matches}
use hwrun_os_linux.Audit.Line.{fmt_line, parse_event}
use hwrun_os_linux.Audit.Config.{Store, dir_cap, seg_max}

pub record Disk (F : Type 0) : Type 0 where
  pub mkdir : F → Bytes → F × Rc
  -- fopen for appending, and fstat
  pub open_append : F → Bytes → F × Rc
  pub size : F → Bytes → Errno ⊎ ℕ
  -- fwrite and fclose; whether all was written
  pub append : F → Bytes → Bytes → F × Bool
  pub rename : F → Bytes → Bytes → F × Rc
  pub unlink : F → Bytes → F × Rc
  pub truncate : F → Bytes → F × Rc
  -- the text of a file that can be opened
  pub read : F → Bytes → Option Bytes

-- g_ctx, and the files
pub record Log (F : Type 0) : Type 0 where
  pub store : Store
  pub disk : F

unfoldable pub seg_path : Bytes → ℕ → Bytes
seg_path dir zero = fit 640 (dir ++ codes "/audit.log")
seg_path dir (suc n) = fit 640 (dir ++ codes "/audit.log." ++ decimal (suc n))

unfoldable pub set_default_dir_locked : Store → Store
set_default_dir_locked st =
    if is_empty st.dir then record st { dir = fit dir_cap (codes "/var/lib/hwrun/audit") } else st

-- EEXIST, or ENOENT, counts as success.
abbrev unless_there : Rc → Rc
unless_there (err eexist) = ok
unless_there rc = rc

abbrev unless_missing : Rc → Rc
unless_missing (err enoent) = ok
unless_missing rc = rc

-- The greatest number in the lines of a segment.
unfoldable pub last_seq : ℕ → List Bytes → ℕ
unfolding parse_event
last_seq last [] = last
last_seq last (l ∷ ls) = elim (parse_event l) [
  | none ↦ last_seq last ls
  | some ev ↦ last_seq (if ltb last ev.seq then ev.seq else last) ls
]

abbrev after : ℕ → ℕ
after last = if ltb 0 last then (last + 1) % 2 ^ 64 else 1

unfoldable pub matching : Option Query → List Bytes → List Event
unfolding parse_event event_matches
matching q [] = []
matching q (l ∷ ls) = elim (parse_event l) [
  | none ↦ matching q ls
  | some ev ↦ (let rest = matching q ls in if event_matches ev q then ev ∷ rest else rest)
]

unfoldable pub reverse_onto : List Event → List Event → List Event
reverse_onto [] out = out
reverse_onto (ev ∷ evs) out = reverse_onto evs (ev ∷ out)

-- The order and the limit of a query.
abbrev pub arranged : Option Query → List Event → List Event
arranged none evs = evs
arranged (some q) evs =
    let ordered = if q.order == 1 then reverse_onto evs [] else evs in
    if ltb 0 q.limit then take q.limit ordered else ordered

-- The copy that is written, without its number.
abbrev pub normalized : ℤ → Event → Event
normalized now ev = record {
  seq = 0;
  ts = if ltb_ℤ (pos 0) ev.ts then ev.ts else now;
  result = ev.result;
  subject = fit 64 ev.subject;
  action = fit 64 ev.action;
  target = fit 256 ev.target;
  detail = fit 512 ev.detail;
}

module _ {F : Type 0} (fs : Disk F) where
  unfoldable pub ensure_dir_locked : Log F → Log F × Rc
  unfolding set_default_dir_locked
  ensure_dir_locked log =
      (let st = set_default_dir_locked log.store in
        let made = fs.mkdir log.disk st.dir in
        (record { store = st; disk = made.0 }, unless_there made.1))

  -- The first segment with a text, from `idx` on.
  seed_from : F → Bytes → ℕ → ℕ → ℕ
  unfolding last_seq seg_path fgets_lines
  seed_from f dir idx zero = 1
  seed_from f dir idx (suc n) = elim (fs.read f (seg_path dir idx)) [
    | none ↦ seed_from f dir (idx + 1) n
    | some text ↦ elim (is_empty text) [
      | true ↦ seed_from f dir (idx + 1) n
      | false ↦ after (last_seq 0 (fgets_lines 4096 [] text))
    ]
  ]

  unfoldable pub seed_seq_locked : Log F → Log F
  unfolding seed_from
  seed_seq_locked log = if not (log.store.next_seq == 0) then log else record log {
    store = record log.store { next_seq = seed_from log.disk log.store.dir 0 log.store.max_files };
  }

  -- Segments `i - 1` to `i`, from the highest on.
  shift : F → Bytes → ℕ → F × Rc
  unfolding seg_path
  shift f dir zero = (f, ok)
  shift f dir (suc i) =
      (let moved = fs.rename f (seg_path dir i) (seg_path dir (suc i)) in
        elim (unless_missing moved.1) [ err e ↦ (moved.0, err e) | ok ↦ shift moved.0 dir i ])

  -- `n` segments from `i` on go.
  clean : F → Bytes → ℕ → ℕ → F × Rc
  unfolding seg_path
  clean f dir i zero = (f, ok)
  clean f dir i (suc n) =
      (let gone = fs.unlink f (seg_path dir i) in
        elim (unless_missing gone.1) [ err e ↦ (gone.0, err e) | ok ↦ clean gone.0 dir (i + 1) n ])

  unfoldable pub rotate_locked : F → Store → F × Rc
  unfolding shift clean
  rotate_locked f st =
      if leb st.max_files 1
      then (let cut = fs.truncate f (seg_path st.dir 0) in (cut.0, unless_missing cut.1))
      else (let moved = shift f st.dir (st.max_files - 1) in
          elim moved.1 [
            | err e ↦ moved
            | ok ↦ clean moved.0 st.dir st.max_files (seg_max - st.max_files)
          ])

  -- The line is written to the present main segment.
  unfoldable pub write_line : Log F → Bytes → Log F × Rc × Option ℕ
  write_line log line =
      (let out = fs.append log.disk (seg_path log.store.dir 0) line in
        if out.1
        then (
          record {
            store = record log.store { next_seq = (log.store.next_seq + 1) % 2 ^ 64 };
            disk = out.0;
          },
          ok,
          some log.store.next_seq,
        )
        else (record log { disk = out.0 }, err eio, none))

  -- After a rotation the main segment is opened anew.
  unfoldable pub rotate_and_write : Log F → Bytes → Log F × Rc × Option ℕ
  unfolding rotate_locked write_line
  rotate_and_write log line =
      (let turned = rotate_locked log.disk log.store in
        elim turned.1 [
          | err e ↦ (record log { disk = turned.0 }, err e, none)
          | ok ↦
              (let opened = fs.open_append turned.0 (seg_path log.store.dir 0) in
                elim opened.1 [
                  | err e ↦ (record log { disk = opened.0 }, err e, none)
                  | ok ↦ write_line (record log { disk = opened.0 }) line
                ])
        ])

  -- From the numbering on.
  unfoldable pub append_numbered : Log F → Event → Log F × Rc × Option ℕ
  unfolding rotate_and_write write_line fmt_line
  append_numbered log ev = elim (fmt_line 4096 (record ev { seq = log.store.next_seq })) [
    | none ↦ (log, err eilseq, none)
    | some line ↦
        (let opened = fs.open_append log.disk (seg_path log.store.dir 0) in
          let now = record log { disk = opened.0 } in
          elim opened.1 [
            | err e ↦ (now, err e, none)
            | ok ↦ elim (fs.size opened.0 (seg_path log.store.dir 0)) [
              | inl e ↦ (now, err e, none)
              | inr bytes ↦
                  if ltb 0 bytes && ltb log.store.max_bytes ((bytes + length line) % 2 ^ 64)
                  then rotate_and_write now line
                  else write_line now line
            ]
          ])
  ]

  -- The last result is what is written to `*out_seq`.
  unfoldable pub ops_append : ℤ → Log F → Option Event → Log F × Rc × Option ℕ
  unfolding ensure_dir_locked seed_seq_locked append_numbered
  ops_append now log none = (log, err einval, none)
  ops_append now log (some ev) =
      if is_empty ev.subject || is_empty ev.action
      then (log, err einval, none)
      else (let ready = ensure_dir_locked log in
          elim ready.1 [
            | err e ↦ (ready.0, err e, none)
            | ok ↦ append_numbered (seed_seq_locked ready.0) (normalized now ev)
          ])

  -- The lines of the segments from `n - 1` down to 0, the oldest first.
  unfoldable pub segment_events : Option Query → F → Bytes → ℕ → List Event
  unfolding matching seg_path fgets_lines
  segment_events q f dir zero = []
  segment_events q f dir (suc n) = elim (fs.read f (seg_path dir n)) [
    | none ↦ segment_events q f dir n
    | some text ↦ matching q (fgets_lines 4096 [] text) ++ segment_events q f dir n
  ]

  unfoldable pub collect_locked : ℕ → Option Query → Log F → Rc × List Event
  unfolding segment_events reverse_onto
  collect_locked room q log =
      (let found = segment_events q log.disk log.store.dir log.store.max_files in
        if ltb room (length found) then (err enomem, []) else (ok, arranged q found))

  -- The pointers are not NULL.
  unfoldable pub ops_query : ℕ → Option Query → Log F → Log F × Rc × List Event
  unfolding collect_locked set_default_dir_locked
  ops_query room q log =
      (let ready = record log { store = set_default_dir_locked log.store } in
        let out = collect_locked room q ready in (ready, out.0, out.1))
