-- ===== src/Fsp/Path/Canonical.antt =====
-- Canonical paths, and the passes of fsp/src/fsp_path.c over segments and names.
use hwrun_os_linux.Prelude.{
  ℕ, ◌+◌, ◌<◌, ◌≤◌, ◌≡◌, ◌≢◌, refl, sym, ap, ◌∙◌, subst, false, List, [], ◌∷◌, ◌++◌, append-nil,
  append_assoc, Option, none, some, Bytes, codes, str_eq, length, length-append, ltb, ◌==◌, All,
  All-append, arith, Bool-cases, Option-cases, inl, inr, ◌⊎◌,
}
use hwrun_os_linux.Errno.{Errno}
use hwrun_os_linux.Fsp.Path.{
  path, slash, emit, add_byte, segments, pop, walk, assemble, resolved, fsp_path_normalize,
}
use hwrun_os_linux.Fsp.Path.Render.{tail, render, cut, assemble_lem}

-- Bytes between two slashes, at most 255 of them.
abbrev pub IsSegment : Bytes → Type 0
IsSegment s = (s ≢ []) × (All (λ c. c ≢ slash) s × (length s < 256))

-- A segment that names an entry of a directory.
abbrev pub IsName : Bytes → Type 0
IsName s = IsSegment s × ((s ≢ codes ".") × (s ≢ codes ".."))

-- The path of at most 64 names.
pub record IsCanonical (p : Bytes) : Type 0 where
  pub stack : List Bytes
  pub names : All IsName stack
  pub depth : length stack ≤ 64
  pub text : p ≡ render stack

add_byte-Fits :
    (cur : Bytes) (c : ℕ)
    → c ≢ slash
    → All (λ d. d ≢ slash) cur × (length cur < 256)
    → All (λ d. d ≢ slash) (add_byte cur c) × (length (add_byte cur c) < 256)
unfolding add_byte
add_byte-Fits cur c ne h = elim (Bool-cases (ltb (length cur + 1) 256)) [
  | inl e ↦ rw e (
    All-append (λ d. d ≢ slash) cur (c ∷ []) h.0 (ne, tt),
    ground (arith, length-append cur (c ∷ [])),
  )
  | inr e ↦ rw e h
]

emit-IsSegment :
    (cur : Bytes) (segs : List Bytes)
    → All (λ d. d ≢ slash) cur × (length cur < 256)
    → All IsSegment segs
    → All IsSegment (emit cur segs)
emit-IsSegment [] segs h g = g
emit-IsSegment (c ∷ cur) segs h g = ((λ e. cc, h), g)

segments-IsSegment :
    (cur s : Bytes) → All (λ d. d ≢ slash) cur × (length cur < 256) → All IsSegment (segments cur s)
unfolding segments
segments-IsSegment cur [] h = emit-IsSegment cur [] h tt
segments-IsSegment cur (c ∷ s) h = elim (Bool-cases (c == slash)) [
  | inl e ↦ rw e (emit-IsSegment cur (segments [] s) h (segments-IsSegment [] s (tt, omega arith)))
  | inr e ↦ rw e (segments-IsSegment (add_byte cur c) s (add_byte-Fits cur c (ground arith) h))
]

All-pop : (st : List Bytes) → All IsName st → All IsName (pop st)
unfolding pop
All-pop [] h = tt
All-pop (x ∷ []) h = tt
All-pop (x ∷ y ∷ r) h = (h.0, All-pop (y ∷ r) h.1)

length-pop-le : (st : List Bytes) → length (pop st) ≤ length st
unfolding pop
length-pop-le [] = omega arith
length-pop-le (x ∷ []) = omega arith
length-pop-le (x ∷ y ∷ r) = omega (arith, length-pop-le (y ∷ r))

-- The stack holds names only, and at most 64 of them.
walk-IsName :
    (segs st out : List Bytes)
    → All IsSegment segs
    → All IsName st × (length st ≤ 64)
    → walk segs st ≡ some out
    → All IsName out × (length out ≤ 64)
unfolding walk
walk-IsName [] st out g h w =
    let e : st ≡ out = cc in subst (λ x. All IsName x × (length x ≤ 64)) e h
walk-IsName (s ∷ segs) st out g h w = elim (Bool-cases (str_eq s (codes "."))) [
  | inl dot ↦ walk-IsName segs st out g.1 h (rw dot at w)
  | inr no_dot ↦ elim (Bool-cases (str_eq s (codes ".."))) [
    | inl up ↦
        walk-IsName segs (pop st) out g.1 (All-pop st h.0, omega (arith, length-pop-le st))
          (ground arith)
    | inr no_up ↦ elim (Bool-cases (ltb (length st) 64)) [
      | inl room ↦
          walk-IsName segs (st ++ s ∷ []) out g.1
            (
              All-append IsName st (s ∷ []) h.0 ((g.0, (ground arith, ground arith)), tt),
              ground (arith, length-append st (s ∷ [])),
            )
            (ground arith)
      | inr full ↦ absurd (ground arith)
    ]
  ]
]

pub nonempty : (st : List Bytes) → All IsName st → All (λ s. s ≢ []) st
nonempty [] h = tt
nonempty (s ∷ st) h = (h.0.0.0, nonempty st h.1)

resolved-IsCanonical :
    (cap : ℕ) (src p : Bytes) → resolved cap src ≡ path p → IsCanonical p × (length p < cap)
unfolding resolved
resolved-IsCanonical cap src p h = elim (Option-cases (walk (segments [] src) [])) [
  | inl e ↦ absurd (ground arith)
  | inr (st, e) ↦
      let names =
        walk-IsName (segments [] src) [] st (segments-IsSegment [] src (tt, omega arith))
          (tt, omega arith) e in
      let shown : assemble cap st ≡ cut cap (render st) =
        assemble_lem cap st (nonempty st names.0) in
      let good : (p ≡ render st) × (length p < cap) = ground arith in
      (record { stack = st; names = names.0; depth = names.1; text = good.0 }, good.1)
]

-- Where normalization gives a path, for any working directory, it is the absolute path of at most
-- 64 names, each nonempty, under 256 bytes, without a slash, and neither "." nor "..", and the path
-- with its NUL fits the capacity.
pub normalize-IsCanonical :
    (cwd : Errno ⊎ Bytes) (src : Option Bytes) (cap : ℕ) (p : Bytes)
    → fsp_path_normalize cwd src cap ≡ path p
    → IsCanonical p × (length p < cap)
unfolding fsp_path_normalize
normalize-IsCanonical cwd none cap p h = absurd (ground arith)
normalize-IsCanonical (inl e) (some src) cap p h = ground (arith, resolved-IsCanonical cap src p)
normalize-IsCanonical (inr dir) (some src) cap p h =
    ground (arith, resolved-IsCanonical cap src p, resolved-IsCanonical cap (dir ++ slash ∷ src) p)

-- A segment that is read up to its slash.
segments-append :
    (cur s t : Bytes)
    → All (λ c. c ≢ slash) s
    → length cur + length s < 256
    → segments cur (s ++ t) ≡ segments (cur ++ s) t
unfolding segments add_byte
segments-append cur [] t ne h = ap (λ x. segments x t) (sym (append-nil cur))
segments-append cur (c ∷ s) t ne h =
    let slot : add_byte cur c ≡ cur ++ c ∷ [] = ground arith in
    rw (decided c ne.0, slot)
      (segments-append (cur ++ c ∷ []) s t ne.1 (ground (arith, length-append cur (c ∷ [])))
        ∙ ap (λ x. segments x t) (append_assoc cur (c ∷ []) s))
  where
    decided : (c : ℕ) → c ≢ slash → (c == slash) ≡ false
    decided c ne = ground arith

emit_some : (s : Bytes) (segs : List Bytes) → s ≢ [] → emit s segs ≡ s ∷ segs
emit_some [] segs ne = absurd (ne refl)
emit_some (c ∷ s) segs ne = refl

pub segments-tail :
    (cur : Bytes) (st : List Bytes) → All IsName st → segments cur (tail st) ≡ emit cur st
unfolding segments
segments-tail cur [] h = refl
segments-tail cur (s ∷ st) h = ap (emit cur) (
    segments-append [] s (tail st) h.0.0.1.0 (ground arith)
    ∙ segments-tail s st h.1
    ∙ emit_some s st h.0.0.0)

pub walk-names :
    (segs st : List Bytes)
    → All IsName segs
    → length st + length segs ≤ 64
    → walk segs st ≡ some (st ++ segs)
unfolding walk
walk-names [] st h few = ap some (sym (append-nil st))
walk-names (s ∷ segs) st h few = ground (
  arith,
  walk-names segs (st ++ s ∷ []),
  length-append st (s ∷ []),
  append_assoc st (s ∷ []) segs,
)
