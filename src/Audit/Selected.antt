-- ===== src/Audit/Selected.antt =====
-- The events that a query of audit/src/audit_impl.c returns.
use hwrun_os_linux.Prelude.{
  ℕ, zero, suc, ◌≤◌, ◌<◌, ◌≡◌, ◌≢◌, refl, true, List, [], ◌∷◌, take, length-take-le, Option, some,
  Bytes, length, if◌then◌else◌, ltb, ◌==◌, arith, All, All-append, inl, inr, Bool-cases,
  Option-cases,
}
use hwrun_os_linux.Prelude.Lines.{fgets_lines}
use hwrun_os_linux.Errno.{ok}
use hwrun_os_linux.Audit.Query.{Event, Query, event_matches}
use hwrun_os_linux.Audit.Line.{parse_event}
use hwrun_os_linux.Audit.Log.{
  Disk, Log, matching, reverse_onto, arranged, segment_events, collect_locked, ops_query,
  set_default_dir_locked, seg_path,
}

abbrev Matches : Option Query → Event → Type 0
Matches q ev = event_matches ev q ≡ true

matching-Matches : (q : Option Query) (ls : List Bytes) → All (Matches q) (matching q ls)
unfolding matching
matching-Matches q [] = tt
matching-Matches q (l ∷ ls) = elim (Option-cases (parse_event l)) [
  | inl e ↦ rw (e, matching) (matching-Matches q ls)
  | inr (ev, e) ↦ elim (Bool-cases (event_matches ev q)) [
    | inl m ↦ rw (e, m, matching) (m, matching-Matches q ls)
    | inr m ↦ rw (e, m, matching) (matching-Matches q ls)
  ]
]

reverse_onto-All :
    (P : Event → Type 0) (xs out : List Event) → All P xs → All P out → All P (reverse_onto xs out)
unfolding reverse_onto
reverse_onto-All P [] out hx ho = ho
reverse_onto-All P (x ∷ xs) out hx ho = reverse_onto-All P xs (x ∷ out) hx.1 (hx.0, ho)

take-All : (P : Event → Type 0) (n : ℕ) (xs : List Event) → All P xs → All P (take n xs)
take-All P zero xs h = tt
take-All P (suc n) [] h = tt
take-All P (suc n) (x ∷ xs) h = (h.0, take-All P n xs h.1)

-- What a query asks for: events that match it, and no more than its limit, where it has one.
abbrev pub Answers : Query → List Event → Type 0
Answers q evs = All (Matches (some q)) evs × (0 < q.limit → length evs ≤ q.limit)

arranged-Answers :
    (q : Query) (evs : List Event) → All (Matches (some q)) evs → Answers q (arranged (some q) evs)
unfolding reverse_onto
arranged-Answers q evs h =
    let P = Matches (some q) in
    let ordered = if q.order == 1 then reverse_onto evs [] else evs in
    let all : All P ordered = elim (Bool-cases (q.order == 1)) [
      | inl e ↦ rw e (reverse_onto-All P evs [] h tt)
      | inr e ↦ rw e h
    ] in
    elim (Bool-cases (ltb 0 q.limit)) [
      | inl e ↦ rw e (take-All P q.limit ordered all, λ z. length-take-le q.limit ordered)
      | inr e ↦ rw e (all, λ z. absurd (ground (arith, z, e)))
    ]

module _ {F : Type 0} (fs : Disk F) where
  segment_events-Matches :
      (q : Option Query) (f : F) (dir : Bytes) (n : ℕ)
      → All (Matches q) (segment_events fs q f dir n)
  unfolding segment_events
  segment_events-Matches q f dir zero = tt
  segment_events-Matches q f dir (suc n) = elim (Option-cases (fs.read f (seg_path dir n))) [
    | inl e ↦ rw (e, segment_events) (segment_events-Matches q f dir n)
    | inr (text, e) ↦
        rw (e, segment_events)
          (All-append (Matches q) (matching q (fgets_lines 4096 [] text))
            (segment_events fs q f dir n) (matching-Matches q (fgets_lines 4096 [] text))
            (segment_events-Matches q f dir n))
  ]

  -- A query returns events that match it only, and no more of them than its limit, in any order that it
  -- asks for, and whatever the files hold; it returns none where it fails.
  pub ops_query-Answers :
      (room : ℕ) (q : Query) (log : Log F)
      → let out = ops_query fs room (some q) log in Answers q out.2 × ((out.1 ≢ ok) → out.2 ≡ [])
  unfolding ops_query collect_locked
  ops_query-Answers room q log =
      let st = set_default_dir_locked log.store in
      let found = segment_events fs (some q) log.disk st.dir st.max_files in
      elim (Bool-cases (ltb room (length found))) [
        | inl e ↦ rw (e, ops_query) ((tt, λ z. omega arith), λ z. refl)
        | inr e ↦
            rw (e, ops_query)
              (
                arranged-Answers q found
                    (segment_events-Matches (some q) log.disk st.dir st.max_files),
                λ z. absurd (z refl),
              )
      ]
