-- ===== src/Fsp/Path/Join.antt =====
-- Canonical paths under the normalization and the join of fsp/src/fsp_path.c.
use hwrun_os_linux.Prelude.{
  ℕ, ◌<◌, ◌≤◌, ◌≡◌, ◌≢◌, refl, sym, ap, ◌∙◌, subst, true, List, [], ◌∷◌, ◌++◌, append-nil,
  append_assoc, some, Bytes, length, length-append, All, All-append, arith, ◌⊎◌,
}
use hwrun_os_linux.Errno.{Errno}
use hwrun_os_linux.Fsp.Path.{
  path, slash, segments, walk, assemble, resolved, fsp_path_normalize, fsp_path_join, joined,
  needs_slash, is_absolute,
}
use hwrun_os_linux.Fsp.Path.Render.{tail, render, assemble_lem}
use hwrun_os_linux.Fsp.Path.Canonical.{IsName, IsCanonical, segments-tail, walk-names, nonempty}

segments-render : (st : List Bytes) → All IsName st → segments [] (render st) ≡ st
unfolding segments
segments-render [] h = refl
segments-render (s ∷ st) h = segments-tail [] (s ∷ st) h

render_absolute : (st : List Bytes) → is_absolute (render st) ≡ true
render_absolute [] = refl
render_absolute (s ∷ st) = refl

pub normalize-render :
    (cwd : Errno ⊎ Bytes) (st : List Bytes) (cap : ℕ)
    → All IsName st
    → length st ≤ 64
    → length (render st) < cap
    → fsp_path_normalize cwd (some (render st)) cap ≡ path (render st)
unfolding fsp_path_normalize resolved
normalize-render cwd st cap names few room =
    let found : walk (segments [] (render st)) [] ≡ some st =
      ap (λ x. walk x []) (segments-render st names) ∙ walk-names st [] names (omega arith) in
    let shown : assemble cap st ≡ some (render st) =
      assemble_lem cap st (nonempty st names) ∙ ground arith in
    let straight : resolved cap (render st) ≡ path (render st) =
      rw (found, resolved) (rw shown refl) in
    ground (arith, render_absolute st, straight)

-- A canonical path that fits the capacity with its NUL is its own normalization, for any working
-- directory.
pub normalize-canonical :
    (cwd : Errno ⊎ Bytes) (cap : ℕ) (p : Bytes)
    → IsCanonical p
    → length p < cap
    → fsp_path_normalize cwd (some p) cap ≡ path p
normalize-canonical cwd cap p c room =
    subst (λ x. fsp_path_normalize cwd (some x) cap ≡ path x) (sym c.text)
      (normalize-render cwd c.stack cap c.names c.depth (subst (λ x. length x < cap) c.text room))

-- The last byte of a text is that of its end.
needs_slash-append : (a b : Bytes) → b ≢ [] → needs_slash (a ++ b) ≡ needs_slash b
unfolding needs_slash
needs_slash-append [] b ne = refl
needs_slash-append (c ∷ []) [] ne = absurd (ne refl)
needs_slash-append (c ∷ []) (d ∷ b) ne = refl
needs_slash-append (c ∷ d ∷ a) b ne = needs_slash-append (d ∷ a) b ne

needs_slash-segment : (s : Bytes) → s ≢ [] → All (λ c. c ≢ slash) s → needs_slash s ≡ true
unfolding needs_slash
needs_slash-segment [] ne h = absurd (ne refl)
needs_slash-segment (c ∷ []) ne h = ground arith
needs_slash-segment (c ∷ d ∷ s) ne h = needs_slash-segment (d ∷ s) (λ e. cc) h.1

needs_slash-tail :
    (s : Bytes) (st : List Bytes) → All IsName (s ∷ st) → needs_slash (tail (s ∷ st)) ≡ true
needs_slash-tail s [] h =
    ap (λ x. needs_slash (slash ∷ x)) (append-nil s)
    ∙ needs_slash-append (slash ∷ []) s h.0.0.0
    ∙ needs_slash-segment s h.0.0.0 h.0.0.1.0
needs_slash-tail s (t ∷ st) h =
    needs_slash-append (slash ∷ s) (tail (t ∷ st)) (λ e. cc) ∙ needs_slash-tail t st h.1

pub tail-append : (st : List Bytes) (n : Bytes) → tail (st ++ n ∷ []) ≡ tail st ++ slash ∷ n
tail-append [] n = ap (λ x. slash ∷ x) (append-nil n)
tail-append (s ∷ st) n =
    ap (λ x. slash ∷ (s ++ x)) (tail-append st n)
    ∙ ap (λ x. slash ∷ x) (sym (append_assoc s (tail st) (slash ∷ n)))

joined-render :
    (st : List Bytes) (n : Bytes) → All IsName st → joined (render st) n ≡ render (st ++ n ∷ [])
unfolding joined needs_slash
joined-render [] n h = ap (λ x. slash ∷ x) (sym (append-nil n))
joined-render (s ∷ st) n h = rw (needs_slash-tail s st h, joined) (sym (tail-append (s ∷ st) n))

-- Joining a name to the canonical path of fewer than 64 names gives the canonical path of these
-- names and the name, where that path fits the capacity and the 4096 bytes of the buffer with its
-- NUL.
pub join-render :
    (cwd : Errno ⊎ Bytes) (cap : ℕ) (st : List Bytes) (n : Bytes)
    → All IsName st
    → IsName n
    → length st < 64
    → length (render (st ++ n ∷ [])) < cap
    → length (render (st ++ n ∷ [])) < 4096
    → fsp_path_join cwd cap (some (render st)) (some n) ≡ path (render (st ++ n ∷ []))
unfolding fsp_path_join
join-render cwd cap st n names name few room fits =
    let all : All IsName (st ++ n ∷ []) = All-append IsName st (n ∷ []) names (name, tt) in
    let whole =
      normalize-render cwd (st ++ n ∷ []) cap all (ground (arith, length-append st (n ∷ [])))
        room in
    rw (joined-render st n names, fsp_path_join) (ground (arith, whole))
