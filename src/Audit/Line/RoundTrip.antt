-- ===== src/Audit/Line/RoundTrip.antt =====
-- A line of the log of audit/src/audit_impl.c, written and read.
use hwrun_os_linux.Prelude.{
  ℕ, ◌+◌, ◌^◌, ◌<◌, ◌≡◌, refl, sym, ◌∙◌, ap, subst, true, false, ◌||◌, [], ◌∷◌, ◌++◌, some, Bytes,
  length, length-append, is_empty, leb, ◌==◌, ℤ, pos, arith, All-append,
}
use hwrun_os_linux.Prelude.Decimal.{decimal, decimal_int, decimal_nonempty, decimal_short}
use hwrun_os_linux.Audit.Field.{escaped, bar, fmt_esc-fits}
use hwrun_os_linux.Audit.Query.{Event}
use hwrun_os_linux.Audit.Line.{line_of, fmt_line, strip, in_int32, parse_seq, parse_event, no_event}
use hwrun_os_linux.Audit.Line.Fields.{
  IsQuiet, Small, digits-IsUnescaped, unescaped-IsQuiet, escaped-IsQuiet, length-escaped-le,
  int_text, strip_quiet, parse_detail-last, in_int32-Small, parse_result-number, parse_texts-fields,
  parse_ts-number, parse_seq-number,
}

-- An event as ops_append writes it.
pub record IsLogged (ev : Event) : Type 0 where
  pub seq : (0 < ev.seq) × (ev.seq < 2 ^ 64)
  pub ts : (t : ℕ) × (ev.ts ≡ pos t) × (t < 2 ^ 63)
  pub result : in_int32 ev.result ≡ true
  pub subject : length ev.subject < 64
  pub action : length ev.action < 64
  pub target : length ev.target < 256
  pub detail : length ev.detail < 512

-- The line with each text escaped.
abbrev texts : Event → Bytes
texts ev =
    escaped ev.subject
    ++ bar
      ∷ (escaped ev.action
          ++ bar ∷ (escaped ev.target ++ bar ∷ (decimal_int ev.result ++ bar ∷ escaped ev.detail)))

abbrev escaped_line : Event → Bytes
escaped_line ev = decimal ev.seq ++ bar ∷ (decimal_int ev.ts ++ bar ∷ texts ev)

line_of-escaped_line : (ev : Event) → IsLogged ev → line_of ev ≡ escaped_line ev
line_of-escaped_line ev h =
    rw
      (
        fmt_esc-fits 129 0 ev.subject (omega (arith, h.subject)),
        fmt_esc-fits 129 0 ev.action (omega (arith, h.action)),
        fmt_esc-fits 513 0 ev.target (omega (arith, h.target)),
        fmt_esc-fits 1025 0 ev.detail (omega (arith, h.detail)),
      )
      refl

parse_seq-escaped_line : (ev : Event) → IsLogged ev → parse_seq (escaped_line ev) ≡ some ev
parse_seq-escaped_line ev h =
    let (t, e, small) = h.ts in
    let small_ts : Small ev.ts = subst Small (sym e) small in
    let one = record no_event { seq = ev.seq; ts = ev.ts } in
    let two = record one { subject = ev.subject; action = ev.action; target = ev.target } in
    parse_seq-number ev.seq (decimal_int ev.ts ++ bar ∷ texts ev) h.seq.0 h.seq.1
    ∙ parse_ts-number (record no_event { seq = ev.seq }) ev.ts (texts ev) small_ts
    ∙ parse_texts-fields one ev.subject ev.action ev.target
        (decimal_int ev.result ++ bar ∷ escaped ev.detail) h.subject h.action h.target
    ∙ parse_result-number two ev.result (escaped ev.detail) h.result
    ∙ parse_detail-last (record two { result = ev.result }) ev.detail h.detail

IsQuiet-field : (a b : Bytes) → IsQuiet a → IsQuiet b → IsQuiet (a ++ bar ∷ b)
IsQuiet-field a b ha hb = All-append (λ c. (c == 10 || c == 13) ≡ false) a (bar ∷ b) ha (refl, hb)

IsQuiet-int : (z : ℤ) → Small z → IsQuiet (decimal_int z)
IsQuiet-int z h = let (plain, _, _, _) = int_text z h in unescaped-IsQuiet (decimal_int z) plain

IsQuiet-line : (ev : Event) → IsLogged ev → IsQuiet (escaped_line ev)
IsQuiet-line ev h =
    let (t, e, small) = h.ts in
    let (digits, _) = decimal_short ev.seq h.seq.1 in
    IsQuiet-field (decimal ev.seq) (decimal_int ev.ts ++ bar ∷ texts ev)
      (unescaped-IsQuiet (decimal ev.seq) (digits-IsUnescaped (decimal ev.seq) digits))
      (IsQuiet-field (decimal_int ev.ts) (texts ev) (IsQuiet-int ev.ts (subst Small (sym e) small))
        (IsQuiet-field (escaped ev.subject) _ (escaped-IsQuiet ev.subject) (
          IsQuiet-field (escaped ev.action) _ (escaped-IsQuiet ev.action) (
            IsQuiet-field (escaped ev.target) _ (escaped-IsQuiet ev.target) (
              IsQuiet-field (decimal_int ev.result) (escaped ev.detail)
                (IsQuiet-int ev.result (in_int32-Small ev.result h.result))
                (escaped-IsQuiet ev.detail))))))

texts_short : (ev : Event) → IsLogged ev → length (texts ev) < 1830
texts_short ev h =
    let (_, short, _, _) = int_text ev.result (in_int32-Small ev.result h.result) in
    let d = escaped ev.detail in
    let r = decimal_int ev.result ++ bar ∷ d in
    let t = escaped ev.target ++ bar ∷ r in
    omega (
      arith,
      h.subject,
      h.action,
      h.target,
      h.detail,
      short,
      length-escaped-le ev.subject,
      length-escaped-le ev.action,
      length-escaped-le ev.target,
      length-escaped-le ev.detail,
      length-append (decimal_int ev.result) (bar ∷ d),
      length-append (escaped ev.target) (bar ∷ r),
      length-append (escaped ev.action) (bar ∷ t),
      length-append (escaped ev.subject) (bar ∷ (escaped ev.action ++ bar ∷ t)),
    )

short_line : (ev : Event) → IsLogged ev → length (escaped_line ev) + 1 < 1950
short_line ev h =
    let (t, e, small) = h.ts in
    let (_, short, _, _) = int_text ev.ts (subst Small (sym e) small) in
    let (_, seq_short) = decimal_short ev.seq h.seq.1 in
    omega (
      arith,
      short,
      seq_short,
      texts_short ev h,
      length-append (decimal_int ev.ts) (bar ∷ texts ev),
      length-append (decimal ev.seq) (bar ∷ (decimal_int ev.ts ++ bar ∷ texts ev)),
    )

line_there : (ev : Event) → is_empty (escaped_line ev) ≡ false
line_there ev =
    there (decimal ev.seq) (decimal_int ev.ts ++ bar ∷ texts ev) (decimal_nonempty ev.seq)
  where
    there : (a b : Bytes) → 0 < length a → is_empty (a ++ bar ∷ b) ≡ false
    there [] b h = refl
    there (c ∷ a) b h = refl

-- An event with a number, a time that is not negative, a result of 32 bits and texts within their
-- fields fits the buffer of a line, and its line, with the line feed, is read back as that event.
pub parse_event-fmt_line :
    (ev : Event)
    → IsLogged ev
    → (line : Bytes) × (fmt_line 4096 ev ≡ some line) × (parse_event line ≡ some ev)
unfolding fmt_line parse_event
parse_event-fmt_line ev h =
    let same = line_of-escaped_line ev h in
    let room : leb 4096 (length (line_of ev ++ 10 ∷ [])) ≡ false =
      ground (arith, ap length same, short_line ev h, length-append (line_of ev) (10 ∷ [])) in
    let stripped : strip (line_of ev ++ 10 ∷ []) ≡ escaped_line ev =
      ap (λ x. strip (x ++ 10 ∷ [])) same ∙ strip_quiet (escaped_line ev) (IsQuiet-line ev h) in
    (
      line_of ev ++ 10 ∷ [],
      rw room refl,
      rw (stripped, line_there ev) (parse_seq-escaped_line ev h),
    )
