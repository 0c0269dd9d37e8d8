-- ===== src/Audit/Line.antt =====
-- audit/src/audit_impl.c: a whole line of the log, written by fmt_line and read by parse_event.
pub mod Fields
pub mod RoundTrip
use hwrun_os_linux.Prelude.{
  ℕ, zero, suc, ◌+◌, ◌-◌, ◌*◌, ◌^◌, ◌≤◌, ◌<◌, ◌≡◌, ◌≢◌, refl, sym, ◌∙◌, ap, subst, Bool, true,
  false, not, ◌&&◌, ◌||◌, List, [], ◌∷◌, ◌++◌, append-nil, append_assoc, Option, none, some, Bytes,
  length, length-append, is_empty, strtol, if◌then◌else◌, ltb, leb, ◌==◌, ℤ, pos, negsuc, arith,
  All, All-append, ◌⊎◌, inl, inr, Option-cases,
}
use hwrun_os_linux.Prelude.Decimal.{decimal, decimal_int, strtoull, IsDigit, decimal_short}
use hwrun_os_linux.Audit.Field.{fmt_esc, esc_field, escape_of, escaped, bar, backslash}
use hwrun_os_linux.Audit.Query.{Event}

-- A field of `max` bytes with its NUL, escaped into twice the room.
abbrev pub esc : ℕ → Bytes → Bytes
esc max s = fmt_esc (max * 2 + 1) 0 s

abbrev pub line_of : Event → Bytes
line_of ev =
    decimal ev.seq
    ++ bar
      ∷ (decimal_int ev.ts
          ++ bar
            ∷ (esc 64 ev.subject
                ++ bar
                  ∷ (esc 64 ev.action
                      ++ bar
                        ∷ (esc 256 ev.target
                            ++ bar ∷ (decimal_int ev.result ++ bar ∷ esc 512 ev.detail)))))

-- The line, or none where the buffer is too small for it.
unfoldable pub fmt_line : ℕ → Event → Option Bytes
unfolding fmt_esc decimal
fmt_line cap ev =
    if leb cap (length (line_of ev ++ 10 ∷ [])) then none else some (line_of ev ++ 10 ∷ [])

-- The line without the line feeds and carriage returns at its end.
unfoldable pub strip : Bytes → Bytes
strip [] = []
strip (c ∷ s) = let rest = strip s in if is_empty rest && (c == 10 || c == 13) then [] else c ∷ rest

abbrev pub take_field : {A : Type 0} → ℕ → Bytes → (Bytes → Bytes → Option A) → Option A
take_field cap line go = elim (esc_field cap 0 line) [
  | none ↦ none
  | some (text, rest) ↦ go text rest
]

-- end == num
abbrev pub unread : Bytes → Bool
unread num = leb (length num) (length (strtol num).1)

abbrev pub in_int32 : ℤ → Bool
in_int32 (pos n) = ltb n (2 ^ 31)
in_int32 (negsuc n) = ltb n (2 ^ 31)

unfoldable pub parse_detail : Event → Bytes → Option Event
unfolding esc_field
parse_detail ev line =
    take_field 512 line
      (λ text rest. if is_empty rest then some (record ev { detail = text }) else none)

unfoldable pub parse_result : Event → Bytes → Option Event
unfolding parse_detail strtol
parse_result ev line = take_field 32 line (λ num rest.
    if unread num || (not (is_empty (strtol num).1) || not (in_int32 (strtol num).0))
    then none
    else parse_detail (record ev { result = (strtol num).0 }) rest)

unfoldable pub parse_texts : Event → Bytes → Option Event
unfolding parse_result
parse_texts ev line = take_field 64 line (λ subject after_subject.
    take_field 64 after_subject (λ action after_action. take_field 256 after_action (λ target rest.
      parse_result (record ev { subject = subject; action = action; target = target }) rest)))

unfoldable pub parse_ts : Event → Bytes → Option Event
unfolding parse_texts
parse_ts ev line = take_field 32 line (λ num rest.
    if unread num || not (is_empty (strtol num).1)
    then none
    else parse_texts (record ev { ts = (strtol num).0 }) rest)

abbrev pub no_event : Event
no_event = record {
  seq = 0;
  ts = pos 0;
  result = pos 0;
  subject = [];
  action = [];
  target = [];
  detail = [];
}

unfoldable pub parse_seq : Bytes → Option Event
unfolding parse_ts strtoull
parse_seq line = take_field 32 line (λ num rest.
    if not (is_empty (strtol num).1) || strtoull num == 0
    then none
    else parse_ts (record no_event { seq = strtoull num }) rest)

-- The event of a line; none is -EILSEQ.
unfoldable pub parse_event : Bytes → Option Event
unfolding strip parse_seq
parse_event line = if is_empty (strip line) then none else parse_seq (strip line)
