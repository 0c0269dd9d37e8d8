-- ===== src/Audit/Numbers.antt =====
-- The numbers of the events that audit/src/audit_impl.c appends, and the events that a query returns.
use hwrun_os_linux.Prelude.{
  ℕ, zero, suc, ◌+◌, ◌%◌, ◌^◌, ◌<◌, ◌≡◌, ◌≢◌, refl, sym, ◌∙◌, ap, subst, false, ◌&&◌, ◌||◌, List,
  [], ◌∷◌, Option, none, some, Bytes, length, is_empty, ltb, ◌==◌, ℤ, arith, ◌⊎◌, inl, inr,
  Bool-cases, Option-cases, Sum-cases,
}
use hwrun_os_linux.Errno.{Rc, ok, Rc-cases}
use hwrun_os_linux.Audit.Query.{Event}
use hwrun_os_linux.Audit.Line.{fmt_line}
use hwrun_os_linux.Audit.Config.{Store}
use hwrun_os_linux.Audit.Log.{
  Disk, Log, ensure_dir_locked, seed_seq_locked, rotate_locked, write_line, rotate_and_write,
  append_numbered, normalized, ops_append, set_default_dir_locked, seg_path,
}

-- A number that is given is the present one, which is counted on; without one the count stays.
abbrev pub Counts : {F : Type 0} → ℕ → Log F × Rc × Option ℕ → Type 0
Counts n out =
    ((out.1 ≡ ok) × (out.2 ≡ some n) × (out.0.store.next_seq ≡ (n + 1) % 2 ^ 64))
    ⊎ ((out.1 ≢ ok) × (out.2 ≡ none) × (out.0.store.next_seq ≡ n))

module _ {F : Type 0} (fs : Disk F) where
  write_line-Counts :
      (log : Log F) (line : Bytes) → Counts log.store.next_seq (write_line fs log line)
  unfolding write_line
  write_line-Counts log line =
      elim (Bool-cases (fs.append log.disk (seg_path log.store.dir 0) line).1) [
        | inl e ↦ rw (e, write_line) (inl (refl, refl, refl))
        | inr e ↦ rw (e, write_line) (inr (λ x. cc, refl, refl))
      ]

  rotate_and_write-Counts :
      (log : Log F) (line : Bytes) → Counts log.store.next_seq (rotate_and_write fs log line)
  unfolding rotate_and_write
  rotate_and_write-Counts log line = elim (Rc-cases (rotate_locked fs log.disk log.store).1) [
    | inr (x, e) ↦ rw (e, rotate_and_write) (inr (λ y. cc, refl, refl))
    | inl e ↦
        let f = (rotate_locked fs log.disk log.store).0 in
        elim (Rc-cases (fs.open_append f (seg_path log.store.dir 0)).1) [
          | inr (x, d) ↦ rw (e, d, rotate_and_write) (inr (λ y. cc, refl, refl))
          | inl d ↦
              rw (e, d, rotate_and_write)
                (write_line-Counts
                  (record log { disk = (fs.open_append f (seg_path log.store.dir 0)).0 }) line)
        ]
  ]

  append_numbered-Counts :
      (log : Log F) (ev : Event) → Counts log.store.next_seq (append_numbered fs log ev)
  unfolding append_numbered
  append_numbered-Counts log ev =
      let place = seg_path log.store.dir 0 in
      let opened = fs.open_append log.disk place in
      elim (Option-cases (fmt_line 4096 (record ev { seq = log.store.next_seq }))) [
        | inl e ↦ rw (e, append_numbered) (inr (λ y. cc, refl, refl))
        | inr (line, e) ↦ elim (Rc-cases opened.1) [
          | inr (x, d) ↦ rw (e, d, append_numbered) (inr (λ y. cc, refl, refl))
          | inl d ↦ elim (Sum-cases (fs.size opened.0 place)) [
            | inl (x, s) ↦ rw (e, d, s, append_numbered) (inr (λ y. cc, refl, refl))
            | inr (bytes, s) ↦
                elim (Bool-cases
                  (ltb 0 bytes && ltb log.store.max_bytes ((bytes + length line) % 2 ^ 64))) [
                    | inl full ↦
                        rw (e, d, s, full, append_numbered)
                          (rotate_and_write-Counts (record log { disk = opened.0 }) line)
                    | inr room ↦
                        rw (e, d, s, room, append_numbered)
                          (write_line-Counts (record log { disk = opened.0 }) line)
                  ]
          ]
        ]
      ]

  default_keeps : (st : Store) → (set_default_dir_locked st).next_seq ≡ st.next_seq
  unfolding set_default_dir_locked
  default_keeps st = ground arith

  ensure_keeps : (log : Log F) → (ensure_dir_locked fs log).0.store.next_seq ≡ log.store.next_seq
  unfolding ensure_dir_locked
  ensure_keeps log = default_keeps log.store

  seed_keeps :
      (log : Log F)
      → log.store.next_seq ≢ 0
      → (seed_seq_locked fs log).store.next_seq ≡ log.store.next_seq
  unfolding seed_seq_locked
  seed_keeps log h =
      let e : (log.store.next_seq == 0) ≡ false = ground (arith, h) in rw (e, seed_seq_locked) refl

  -- One call, once the numbers have been set up.
  pub ops_append-Counts :
      (now : ℤ) (log : Log F) (ev : Option Event)
      → log.store.next_seq ≢ 0
      → Counts log.store.next_seq (ops_append fs now log ev)
  unfolding ops_append
  ops_append-Counts now log none h = inr (λ y. cc, refl, refl)
  ops_append-Counts now log (some ev) h =
      elim (Bool-cases (is_empty ev.subject || is_empty ev.action)) [
        | inl e ↦ rw (e, ops_append) (inr (λ y. cc, refl, refl))
        | inr e ↦
            let ready = (ensure_dir_locked fs log).0 in
            let kept = ensure_keeps log in
            elim (Rc-cases (ensure_dir_locked fs log).1) [
              | inr (x, d) ↦ rw (e, d, ops_append) (inr (λ y. cc, refl, kept))
              | inl d ↦
                  let same = seed_keeps ready (λ z. h (sym kept ∙ z)) ∙ kept in
                  rw (e, d, ops_append)
                    (subst
                      (λ n.
                        Counts n
                          (append_numbered fs (seed_seq_locked fs ready) (normalized now ev)))
                      same (append_numbered-Counts (seed_seq_locked fs ready) (normalized now ev)))
            ]
      ]

  -- Calls in turn, each at its time, and the numbers that they hand out.
  unfoldable pub append_all : Log F → List (ℤ × Option Event) → List ℕ
  append_all log [] = []
  append_all log ((now, ev) ∷ evs) =
      (let out = ops_append fs now log ev in
        let rest = append_all out.0 evs in elim out.2 [ none ↦ rest | some n ↦ n ∷ rest ])

-- `k` numbers from `n` on.
abbrev pub count_from : ℕ → ℕ → List ℕ
count_from n zero = []
count_from n (suc k) = n ∷ count_from (n + 1) k

module _ {F : Type 0} (fs : Disk F) where
  -- Once the numbers are set up, the calls that append events hand out consecutive numbers from the
  -- next one on, without a gap and without one twice, whichever of them fail and whatever becomes of the
  -- files. The numbers stay within 64 bits.
  pub append_all-count_from :
      (evs : List (ℤ × Option Event)) (log : Log F)
      → log.store.next_seq ≢ 0
      → log.store.next_seq + length evs < 2 ^ 64
      → append_all fs log evs ≡ count_from log.store.next_seq (length (append_all fs log evs))
  unfolding append_all
  append_all-count_from [] log h room = refl
  append_all-count_from ((now, ev) ∷ evs) log h room = elim (ops_append-Counts fs now log ev h) [
    | inl (done, given, next) ↦
        let out = ops_append fs now log ev in
        let follows : out.0.store.next_seq ≡ log.store.next_seq + 1 = omega (arith, next, room) in
        let rest =
          append_all-count_from evs out.0 (omega (arith, follows)) (omega (arith, follows, room)) in
        rw (given, append_all)
          (ap (λ xs. log.store.next_seq ∷ xs)
            (rest ∙ ap (λ n. count_from n (length (append_all fs out.0 evs))) follows))
    | inr (failed, given, next) ↦
        let out = ops_append fs now log ev in
        let rest =
          append_all-count_from evs out.0 (λ z. h (sym next ∙ z)) (omega (arith, next, room)) in
        rw (given, append_all)
          (rest ∙ ap (λ n. count_from n (length (append_all fs out.0 evs))) next)
  ]
