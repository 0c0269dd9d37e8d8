-- ===== src/Audit/Line/Fields.antt =====
-- The fields of a line of the log of audit/src/audit_impl.c, one by one.
use hwrun_os_linux.Prelude.{
  ℕ, suc, ◌*◌, ◌^◌, ◌≤◌, ◌<◌, ◌≡◌, refl, sym, ◌∙◌, ap, true, false, ◌||◌, [], ◌∷◌, ◌++◌, Option,
  none, some, Bytes, length, strtol, ◌==◌, ℤ, pos, negsuc, arith, All,
}
use hwrun_os_linux.Prelude.Decimal.{
  decimal, decimal_int, strtoull-decimal, strtol-decimal, strtol_minus, strtol_rest,
  decimal_nonempty, IsDigit, decimal_short,
}
use hwrun_os_linux.Audit.Field.{escape_of, escaped, bar, esc_field-escaped, esc_field-last}
use hwrun_os_linux.Audit.Query.{Event}
use hwrun_os_linux.Audit.Line.{
  strip, take_field, unread, in_int32, parse_detail, parse_result, parse_texts, parse_ts, parse_seq,
  no_event,
}

abbrev pub IsQuiet : Bytes → Type 0
IsQuiet s = All (λ c. (c == 10 || c == 13) ≡ false) s

abbrev pub IsUnescaped : Bytes → Type 0
IsUnescaped s = All (λ c. escape_of c ≡ none) s

pub digits-IsUnescaped : (s : Bytes) → All IsDigit s → IsUnescaped s
digits-IsUnescaped [] h = tt
digits-IsUnescaped (c ∷ s) h = (ground (arith, h.0), digits-IsUnescaped s h.1)

escaped_unescaped : (s : Bytes) → IsUnescaped s → escaped s ≡ s
unfolding escaped
escaped_unescaped [] h = refl
escaped_unescaped (c ∷ s) h = ground (arith, escaped_unescaped s h.1)

pub unescaped-IsQuiet : (s : Bytes) → IsUnescaped s → IsQuiet s
unescaped-IsQuiet [] h = tt
unescaped-IsQuiet (c ∷ s) h = (ground (arith, h.0), unescaped-IsQuiet s h.1)

pub escaped-IsQuiet : (s : Bytes) → IsQuiet (escaped s)
unfolding escaped
escaped-IsQuiet [] = tt
escaped-IsQuiet (c ∷ s) = ground (arith, escaped-IsQuiet s)

pub length-escaped-le : (s : Bytes) → length (escaped s) ≤ 2 * length s
unfolding escaped
length-escaped-le [] = omega arith
length-escaped-le (c ∷ s) = ground (arith, length-escaped-le s)

-- What is written for an integer of 63 bits.
abbrev pub Small : ℤ → Type 0
Small (pos n) = n < 2 ^ 63
Small (negsuc n) = n < 2 ^ 63

pub int_text :
    (z : ℤ)
    → Small z
    → IsUnescaped (decimal_int z)
      × (length (decimal_int z) < 32)
      × (0 < length (decimal_int z))
      × (strtol (decimal_int z) ≡ (z, []))
int_text (pos n) h =
    let (digits, short) = decimal_short n (omega arith) in
    (
      digits-IsUnescaped (decimal n) digits,
      omega (arith, short),
      decimal_nonempty n,
      strtol-decimal n h,
    )
int_text (negsuc n) h =
    let (digits, short) = decimal_short (suc n) (omega arith) in
    (
      (refl, digits-IsUnescaped (decimal (suc n)) digits),
      omega (arith, short),
      omega arith,
      strtol_minus n h,
    )

pub strip_quiet : (s : Bytes) → IsQuiet s → strip (s ++ 10 ∷ []) ≡ s
unfolding strip
strip_quiet [] h = refl
strip_quiet (c ∷ s) h = rw (strip_quiet s h.1, h.0) (ground arith)

-- One field.
take_field-bar :
    {A : Type 0} (cap : ℕ) (s rest : Bytes) (go : Bytes → Bytes → Option A)
    → length s < cap
    → take_field cap (escaped s ++ bar ∷ rest) go ≡ go s rest
take_field-bar cap s rest go h =
    rw (esc_field-escaped cap 0 s rest (omega (arith, h)), take_field) refl

take_field-number :
    {A : Type 0} (z : ℤ) (rest : Bytes) (go : Bytes → Bytes → Option A)
    → Small z
    → take_field 32 (decimal_int z ++ bar ∷ rest) go ≡ go (decimal_int z) rest
take_field-number z rest go h =
    let (plain, short, _, _) = int_text z h in
    ap (λ x. take_field 32 (x ++ bar ∷ rest) go) (sym (escaped_unescaped (decimal_int z) plain))
    ∙ take_field-bar 32 (decimal_int z) rest go short

take_field-end :
    {A : Type 0} (cap : ℕ) (s : Bytes) (go : Bytes → Bytes → Option A)
    → length s < cap
    → take_field cap (escaped s) go ≡ go s []
take_field-end cap s go h = rw (esc_field-last cap 0 s (omega (arith, h)), take_field) refl

pub parse_detail-last :
    (ev : Event) (s : Bytes)
    → length s < 512
    → parse_detail ev (escaped s) ≡ some (record ev { detail = s })
unfolding parse_detail
parse_detail-last ev s h = take_field-end 512 s _ h

pub in_int32-Small : (z : ℤ) → in_int32 z ≡ true → Small z
in_int32-Small (pos n) h = ground arith
in_int32-Small (negsuc n) h = ground arith

pub parse_result-number :
    (ev : Event) (z : ℤ) (rest : Bytes)
    → in_int32 z ≡ true
    → parse_result ev (decimal_int z ++ bar ∷ rest) ≡ parse_detail (record ev { result = z }) rest
unfolding parse_result
parse_result-number ev z rest h =
    let (_, _, some_text, read) = int_text z (in_int32-Small z h) in
    let done : unread (decimal_int z) ≡ false =
      ground (arith, some_text, ap (λ x. length x.1) read) in
    take_field-number z rest _ (in_int32-Small z h) ∙ rw (done, read, h) refl

pub parse_texts-fields :
    (ev : Event) (subject action target rest : Bytes)
    → length subject < 64
    → length action < 64
    → length target < 256
    → parse_texts ev
        (escaped subject ++ bar ∷ (escaped action ++ bar ∷ (escaped target ++ bar ∷ rest)))
      ≡ parse_result (record ev { subject = subject; action = action; target = target }) rest
unfolding parse_texts
parse_texts-fields ev subject action target rest hs ha ht =
    take_field-bar 64 subject (escaped action ++ bar ∷ (escaped target ++ bar ∷ rest)) _ hs
    ∙ take_field-bar 64 action (escaped target ++ bar ∷ rest) _ ha
    ∙ take_field-bar 256 target rest _ ht

pub parse_ts-number :
    (ev : Event) (z : ℤ) (rest : Bytes)
    → Small z
    → parse_ts ev (decimal_int z ++ bar ∷ rest) ≡ parse_texts (record ev { ts = z }) rest
unfolding parse_ts
parse_ts-number ev z rest h =
    let (_, _, some_text, read) = int_text z h in
    let done : unread (decimal_int z) ≡ false =
      ground (arith, some_text, ap (λ x. length x.1) read) in
    take_field-number z rest _ h ∙ rw (done, read) refl

pub parse_seq-number :
    (n : ℕ) (rest : Bytes)
    → 0 < n
    → n < 2 ^ 64
    → parse_seq (decimal n ++ bar ∷ rest) ≡ parse_ts (record no_event { seq = n }) rest
unfolding parse_seq
parse_seq-number n rest some_seq h =
    let (digits, short) = decimal_short n h in
    let plain = escaped_unescaped (decimal n) (digits-IsUnescaped (decimal n) digits) in
    let nonzero : (n == 0) ≡ false = ground arith in
    ap (λ x. parse_seq (x ++ bar ∷ rest)) (sym plain)
    ∙ take_field-bar 32 (decimal n) rest _ (omega (arith, short))
    ∙ rw (strtol_rest n, strtoull-decimal n h, nonzero) refl
