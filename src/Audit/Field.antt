-- ===== src/Audit/Field.antt =====
-- audit/src/audit_impl.c: the text fields of a line, written by fmt_esc and read by esc_field.
-- The output positions `o` of both loops are arguments; what is returned is what is written from
-- there on. `esc_field` gets the rest of the line, without its line break, and returns the rest
-- after the separator.
use hwrun_os_linux.Prelude.{
  ℕ, ◌+◌, ◌*◌, ◌<◌, ◌≡◌, refl, ap, ◌∙◌, [], ◌∷◌, ◌++◌, Option, none, some, Bytes, length,
  if◌then◌else◌, leb, ◌==◌, Option-cases, inl, inr, arith,
}

abbrev pub backslash : ℕ
backslash = 92

abbrev pub bar : ℕ
bar = 124

-- The byte behind the backslash, for a byte that is escaped.
abbrev pub escape_of : ℕ → Option ℕ
escape_of c =
    if c == backslash
    then some backslash
    else if c == bar
    then some bar
    else if c == 10
    then some b'n'
    else if c == 13
    then some b'r'
    else none

unfoldable pub fmt_esc : ℕ → ℕ → Bytes → Bytes
fmt_esc cap o [] = []
fmt_esc cap o (c ∷ s) =
    let two = fmt_esc cap (o + 2) s in
    let one = fmt_esc cap (o + 1) s in
    elim (escape_of c) [
      | some e ↦ if leb cap (o + 2) then [] else backslash ∷ e ∷ two
      | none ↦ if leb cap (o + 1) then [] else c ∷ one
    ]

-- The byte that an escape stands for.
abbrev pub unescape : ℕ → Option ℕ
unescape e =
    if e == backslash
    then some backslash
    else if e == bar
    then some bar
    else if e == b'n'
    then some 10
    else if e == b'r'
    then some 13
    else none

abbrev put : ℕ → ℕ → ℕ → Option (Bytes × Bytes) → Option (Bytes × Bytes)
put cap o c none = none
put cap o c (some (out, rest)) = if leb cap (o + 1) then none else some (c ∷ out, rest)

unfoldable pub esc_field : ℕ → ℕ → Bytes → Option (Bytes × Bytes)
esc_field cap o [] = some ([], [])
esc_field cap o (c ∷ []) =
    if c == bar then some ([], []) else if c == backslash then none else put cap o c (some ([], []))
esc_field cap o (c ∷ e ∷ s) =
    let after = esc_field cap (o + 1) s in
    let next = esc_field cap (o + 1) (e ∷ s) in
    if c == bar
    then some ([], e ∷ s)
    else if c == backslash
    then elim (unescape e) [ none ↦ none | some d ↦ put cap o d after ]
    else put cap o c next

-- The text with each escaped byte as two.
unfoldable pub escaped : Bytes → Bytes
escaped [] = []
escaped (c ∷ s) =
    let rest = escaped s in elim (escape_of c) [ some e ↦ backslash ∷ e ∷ rest | none ↦ c ∷ rest ]

pub fmt_esc-fits : (cap o : ℕ) (s : Bytes) → o + 2 * length s < cap → fmt_esc cap o s ≡ escaped s
unfolding fmt_esc escaped
fmt_esc-fits cap o [] h = refl
fmt_esc-fits cap o (c ∷ s) h =
    ground (arith, fmt_esc-fits cap (o + 2) s, fmt_esc-fits cap (o + 1) s)

esc_field-plain :
    (cap o c : ℕ) (s : Bytes)
    → escape_of c ≡ none
    → esc_field cap o (c ∷ s) ≡ put cap o c (esc_field cap (o + 1) s)
unfolding esc_field
esc_field-plain cap o c [] h = ground arith
esc_field-plain cap o c (e ∷ s) h = ground arith

esc_field-pair :
    (cap o c e : ℕ) (s : Bytes)
    → escape_of c ≡ some e
    → esc_field cap o (backslash ∷ e ∷ s) ≡ put cap o c (esc_field cap (o + 1) s)
unfolding esc_field
esc_field-pair cap o c e s h = ground arith

esc_field-bar : (cap o : ℕ) (rest : Bytes) → esc_field cap o (bar ∷ rest) ≡ some ([], rest)
unfolding esc_field
esc_field-bar cap o [] = refl
esc_field-bar cap o (d ∷ rest) = refl

escaped_plain : (c : ℕ) (s : Bytes) → escape_of c ≡ none → escaped (c ∷ s) ≡ c ∷ escaped s
unfolding escaped
escaped_plain c s h = ground arith

escaped_pair :
    (c e : ℕ) (s : Bytes) → escape_of c ≡ some e → escaped (c ∷ s) ≡ backslash ∷ e ∷ escaped s
unfolding escaped
escaped_pair c e s h = ground arith

escaped_nil : escaped [] ≡ []
unfolding escaped
escaped_nil = refl

put_room :
    (cap o c : ℕ) (s rest : Bytes) → o + 1 < cap → put cap o c (some (s, rest)) ≡ some (c ∷ s, rest)
put_room cap o c s rest h = ground arith

pub esc_field-escaped :
    (cap o : ℕ) (s rest : Bytes)
    → o + length s < cap
    → esc_field cap o (escaped s ++ bar ∷ rest) ≡ some (s, rest)
esc_field-escaped cap o [] rest h =
    ap (λ x. esc_field cap o (x ++ bar ∷ rest)) escaped_nil ∙ esc_field-bar cap o rest
esc_field-escaped cap o (c ∷ s) rest h = elim (Option-cases (escape_of c)) [
  | inl e ↦
      ap (λ x. esc_field cap o (x ++ bar ∷ rest)) (escaped_plain c s e)
      ∙ esc_field-plain cap o c (escaped s ++ bar ∷ rest) e
      ∙ ap (put cap o c) (esc_field-escaped cap (o + 1) s rest (omega arith))
      ∙ put_room cap o c s rest (omega arith)
  | inr (d, e) ↦
      ap (λ x. esc_field cap o (x ++ bar ∷ rest)) (escaped_pair c d s e)
      ∙ esc_field-pair cap o c d (escaped s ++ bar ∷ rest) e
      ∙ ap (put cap o c) (esc_field-escaped cap (o + 1) s rest (omega arith))
      ∙ put_room cap o c s rest (omega arith)
]

-- The last field of a line.
pub esc_field-last :
    (cap o : ℕ) (s : Bytes) → o + length s < cap → esc_field cap o (escaped s) ≡ some (s, [])
unfolding esc_field
esc_field-last cap o [] h = ap (esc_field cap o) escaped_nil
esc_field-last cap o (c ∷ s) h = elim (Option-cases (escape_of c)) [
  | inl e ↦
      ap (esc_field cap o) (escaped_plain c s e)
      ∙ esc_field-plain cap o c (escaped s) e
      ∙ ap (put cap o c) (esc_field-last cap (o + 1) s (omega arith))
      ∙ put_room cap o c s [] (omega arith)
  | inr (d, e) ↦
      ap (esc_field cap o) (escaped_pair c d s e)
      ∙ esc_field-pair cap o c d (escaped s) e
      ∙ ap (put cap o c) (esc_field-last cap (o + 1) s (omega arith))
      ∙ put_room cap o c s [] (omega arith)
]

-- A text under the limit of its field, written into the buffer of twice the limit and one byte,
-- is not truncated, and is read back as it was up to the separator, with the rest of the line left.
pub esc_field-fmt_esc :
    (max : ℕ) (s rest : Bytes)
    → length s < max
    → esc_field max 0 (fmt_esc (max * 2 + 1) 0 s ++ bar ∷ rest) ≡ some (s, rest)
esc_field-fmt_esc max s rest h =
    rw (fmt_esc-fits (max * 2 + 1) 0 s (omega arith)) (esc_field-escaped max 0 s rest (omega arith))
