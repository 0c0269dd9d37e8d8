-- ===== src/Fsp/Path/Parent.antt =====
-- The parent of a canonical path under fsp/src/fsp_path.c.
use hwrun_os_linux.Prelude.{
  ℕ, ◌<◌, ◌≤◌, ◌≡◌, ◌≢◌, refl, ap, ◌∙◌, List, [], ◌∷◌, ◌++◌, none, some, Bytes, length,
  length-append, All, All-append, arith, ◌⊎◌, fit, if◌then◌else◌, ◌==◌,
}
use hwrun_os_linux.Errno.{Errno}
use hwrun_os_linux.Fsp.Path.{
  path, slash, fsp_path_parent, stripped, strip_slashes, before_slash, parent_of,
}
use hwrun_os_linux.Fsp.Path.Render.{tail, render}
use hwrun_os_linux.Fsp.Path.Canonical.{IsName}
use hwrun_os_linux.Fsp.Path.Join.{normalize-render, tail-append}

-- Bytes that end in a name keep it.
strip_slashes-append :
    (a n : Bytes) → n ≢ [] → strip_slashes n ≡ n → strip_slashes (a ++ n) ≡ a ++ n
unfolding strip_slashes
strip_slashes-append [] n ne h = h
strip_slashes-append (c ∷ a) n ne h =
    rw (strip_slashes-append a n ne h, strip_slashes) (kept c a n ne)
  where
    kept :
        (c : ℕ) (a n : Bytes)
        → n ≢ []
        → (elim (a ++ n) [ [] ↦ if c == slash then [] else c ∷ [] | d ∷ r ↦ c ∷ d ∷ r ])
          ≡ c ∷ (a ++ n)
    kept c [] [] ne = absurd (ne refl)
    kept c [] (d ∷ n) ne = refl
    kept c (d ∷ a) n ne = refl

strip_slashes-segment : (n : Bytes) → All (λ c. c ≢ slash) n → strip_slashes n ≡ n
unfolding strip_slashes
strip_slashes-segment [] h = refl
strip_slashes-segment (c ∷ []) h = ground arith
strip_slashes-segment (c ∷ d ∷ n) h = rw (strip_slashes-segment (d ∷ n) h.1, strip_slashes) refl

before_slash-segment : (n : Bytes) → All (λ c. c ≢ slash) n → before_slash n ≡ none
unfolding before_slash
before_slash-segment [] h = refl
before_slash-segment (c ∷ n) h = rw (before_slash-segment n h.1, before_slash) (ground arith)

before_slash-append :
    (a n : Bytes) → All (λ c. c ≢ slash) n → before_slash (a ++ slash ∷ n) ≡ some a
unfolding before_slash
before_slash-append [] n h = rw (before_slash-segment n h, before_slash) refl
before_slash-append (c ∷ a) n h = rw (before_slash-append a n h, before_slash) refl

stripped-name :
    (st : List Bytes) (n : Bytes)
    → IsName n
    → stripped (tail st ++ slash ∷ n) ≡ tail st ++ slash ∷ n
unfolding stripped
stripped-name [] n h = ap (λ x. slash ∷ x) (strip_slashes-segment n h.0.1.0)
stripped-name (s ∷ st) n h =
    let whole : strip_slashes (slash ∷ n) ≡ slash ∷ n =
      strip_slashes-append (slash ∷ []) n h.0.0 (strip_slashes-segment n h.0.1.0) in
    ap (λ x. slash ∷ x) (strip_slashes-append (s ++ tail st) (slash ∷ n) (λ e. cc) whole)

parent_of-tail :
    (cap : ℕ) (st : List Bytes)
    → All IsName st
    → 2 ≤ cap
    → parent_of cap (some (tail st)) ≡ path (fit cap (render st))
unfolding parent_of
parent_of-tail cap [] h two = ground arith
parent_of-tail cap ([] ∷ st) h two = absurd (h.0.0.0 refl)
parent_of-tail cap ((c ∷ s) ∷ st) h two = refl

render-append : (st : List Bytes) (n : Bytes) → render (st ++ n ∷ []) ≡ tail st ++ slash ∷ n
render-append [] n = tail-append [] n
render-append (s ∷ st) n = tail-append (s ∷ st) n

-- The parent of the canonical path of some names and one more, where the path fits the 4096 bytes
-- of the buffer with its NUL, is the canonical path of these names, the root where there are none, cut to
-- a capacity of at least two bytes.
pub parent-join :
    (cwd : Errno ⊎ Bytes) (cap : ℕ) (st : List Bytes) (n : Bytes)
    → All IsName st
    → IsName n
    → length st < 64
    → length (render (st ++ n ∷ [])) < 4096
    → 2 ≤ cap
    → fsp_path_parent cwd (some (render (st ++ n ∷ []))) cap ≡ path (fit cap (render st))
unfolding fsp_path_parent
parent-join cwd cap st n names name few fits two =
    let all : All IsName (st ++ n ∷ []) = All-append IsName st (n ∷ []) names (name, tt) in
    let whole =
      normalize-render cwd (st ++ n ∷ []) 4096 all (ground (arith, length-append st (n ∷ [])))
        fits in
    let before : before_slash (stripped (render (st ++ n ∷ []))) ≡ some (tail st) =
      ap (λ x. before_slash (stripped x)) (render-append st n)
      ∙ ap before_slash (stripped-name st n name)
      ∙ before_slash-append (tail st) n name.0.1.0 in
    let last = ap (parent_of cap) before ∙ parent_of-tail cap st names two in
    ground (arith, whole, last)
