-- ===== src/Fsp/Path/Render.antt =====
-- How the output loop of fsp/src/fsp_path.c writes a stack of components.
use hwrun_os_linux.Prelude.{
  ℕ, ◌+◌, ◌<◌, ◌≤◌, ◌≡◌, ◌≢◌, refl, sym, ap, ◌∙◌, false, List, [], ◌∷◌, ◌++◌, append-nil,
  append_assoc, Option, none, some, Bytes, length, length-append, if◌then◌else◌, ltb, leb, All,
  arith, Bool-cases, inl, inr,
}
use hwrun_os_linux.Fsp.Path.{slash, push, separate, append_all, assemble, only_slash}

-- Each component behind a slash.
abbrev pub tail : List Bytes → Bytes
tail [] = []
tail (s ∷ st) = slash ∷ (s ++ tail st)

-- The path of a list of components.
abbrev pub render : List Bytes → Bytes
render [] = slash ∷ []
render (s ∷ st) = tail (s ∷ st)

abbrev pub cut : ℕ → Bytes → Option Bytes
cut cap s = if ltb (length s) cap then some s else none

push_lem : (cap : ℕ) (out q : Bytes) → length out < cap → push cap out q ≡ cut cap (out ++ q)
unfolding push
push_lem cap out [] h = ground (arith, append-nil out)
push_lem cap out (c ∷ q) h = ground (
  arith,
  push_lem cap (out ++ c ∷ []) q,
  append_assoc out (c ∷ []) q,
  length-append out (c ∷ []),
  length-append out (c ∷ q),
)

only_slash_long : (out : Bytes) → 2 ≤ length out → only_slash out ≡ false
only_slash_long [] h = absurd (omega arith)
only_slash_long (c ∷ []) h = absurd (omega arith)
only_slash_long (c ∷ d ∷ s) h = refl

separate_lem :
    (cap : ℕ) (out : Bytes) → 2 ≤ length out → separate cap out ≡ push cap out (slash ∷ [])
unfolding separate
separate_lem cap [] two = absurd (omega arith)
separate_lem cap (c ∷ []) two = absurd (omega arith)
separate_lem cap (c ∷ d ∷ s) two = refl

cut-none : (cap : ℕ) (a : Bytes) → cap ≤ length a → cut cap a ≡ none
cut-none cap a h = ground arith

cut-some : (cap : ℕ) (a : Bytes) → length a < cap → cut cap a ≡ some a
cut-some cap a h = ground arith

push_fits :
    (cap : ℕ) (out q : Bytes) → length out + length q < cap → push cap out q ≡ some (out ++ q)
push_fits cap out q h =
    push_lem cap out q (omega arith) ∙ cut-some cap (out ++ q) (omega (arith, length-append out q))

push_full :
    (cap : ℕ) (out q : Bytes)
    → length out < cap
    → cap ≤ length out + length q
    → push cap out q ≡ none
push_full cap out q less h =
    push_lem cap out q less ∙ cut-none cap (out ++ q) (omega (arith, length-append out q))

-- One separator and one component, where they fit.
step_fits :
    (cap : ℕ) (s : Bytes) (st : List Bytes) (out : Bytes)
    → 2 ≤ length out
    → length out + 1 + length s < cap
    → append_all cap (s ∷ st) out ≡ append_all cap st (out ++ slash ∷ s)
unfolding append_all
step_fits cap s st out two h =
    let sep : separate cap out ≡ some (out ++ slash ∷ []) =
      separate_lem cap out two ∙ push_fits cap out (slash ∷ []) (omega arith) in
    let seg : push cap (out ++ slash ∷ []) s ≡ some (out ++ slash ∷ [] ++ s) =
      push_fits cap (out ++ slash ∷ []) s (omega (arith, length-append out (slash ∷ []))) in
    rw (sep, append_all)
      (rw (seg, append_all) (ap (append_all cap st) (append_assoc out (slash ∷ []) s)))

step_full :
    (cap : ℕ) (s : Bytes) (st : List Bytes) (out : Bytes)
    → 2 ≤ length out
    → length out < cap
    → cap ≤ length out + 1 + length s
    → append_all cap (s ∷ st) out ≡ none
unfolding append_all
step_full cap s st out two less h = elim (Bool-cases (ltb (length out + 1) cap)) [
  | inl e ↦
      let sep : separate cap out ≡ some (out ++ slash ∷ []) =
        separate_lem cap out two ∙ push_fits cap out (slash ∷ []) (ground arith) in
      let seg : push cap (out ++ slash ∷ []) s ≡ none =
        push_full cap (out ++ slash ∷ []) s (ground (arith, length-append out (slash ∷ [])))
          (omega (arith, length-append out (slash ∷ []))) in
      rw (sep, append_all) (rw (seg, append_all) refl)
  | inr e ↦
      let sep : separate cap out ≡ none =
        separate_lem cap out two ∙ push_full cap out (slash ∷ []) less (ground arith) in
      rw (sep, append_all) refl
]

append_all_lem :
    (cap : ℕ) (st : List Bytes) (out : Bytes)
    → 2 ≤ length out
    → length out < cap
    → append_all cap st out ≡ cut cap (out ++ tail st)
unfolding append_all
append_all_lem cap [] out two h = ground (arith, append-nil out)
append_all_lem cap (s ∷ st) out two h = elim (Bool-cases (ltb (length out + 1 + length s) cap)) [
  | inl e ↦
      step_fits cap s st out two (ground arith)
      ∙ append_all_lem cap st (out ++ slash ∷ s) (omega (arith, length-append out (slash ∷ s)))
          (ground (arith, length-append out (slash ∷ s)))
      ∙ ap (cut cap) (append_assoc out (slash ∷ s) (tail st))
  | inr e ↦
      step_full cap s st out two h (ground arith)
      ∙ sym (
          cut-none cap (out ++ slash ∷ (s ++ tail st))
            (ground (arith, length-append out (slash ∷ (s ++ tail st)), length-append s (tail st))))
]

-- The first component stands directly behind the leading slash.
first_lem :
    (cap : ℕ) (s : Bytes) (st : List Bytes)
    → s ≢ []
    → 1 < cap
    → append_all cap (s ∷ st) (slash ∷ []) ≡ cut cap (slash ∷ (s ++ tail st))
unfolding append_all separate
first_lem cap s st ne h = elim (Bool-cases (ltb (1 + length s) cap)) [
  | inl e ↦
      rw (push_fits cap (slash ∷ []) s (ground arith), append_all)
        (append_all_lem cap st (slash ∷ s) (ground arith) (ground arith))
  | inr e ↦
      rw (push_full cap (slash ∷ []) s h (ground arith), append_all)
        (sym (cut-none cap (slash ∷ (s ++ tail st)) (ground (arith, length-append s (tail st)))))
]

no_room : (cap : ℕ) → cap ≤ 1 → push cap [] (slash ∷ []) ≡ none
unfolding push
no_room cap h = ground arith

-- The output is the path of the components, where it fits with its terminating NUL.
pub assemble_lem :
    (cap : ℕ) (st : List Bytes) → All (λ s. s ≢ []) st → assemble cap st ≡ cut cap (render st)
unfolding assemble
assemble_lem cap st ne = elim (Bool-cases (leb cap 1)) [
  | inl e ↦
      rw (no_room cap (ground arith), assemble)
        (sym (cut-none cap (render st) (all_long cap st (ground arith))))
  | inr e ↦
      rw (push_fits cap [] (slash ∷ []) (ground arith), assemble) (by_stack (ground arith) st ne)
]
  where
    all_long : (cap : ℕ) (st : List Bytes) → cap ≤ 1 → cap ≤ length (render st)
    all_long cap [] h = omega arith
    all_long cap (s ∷ st) h = omega arith

    by_stack :
        1 < cap
        → (st : List Bytes) → All (λ s. s ≢ []) st
        → append_all cap st (slash ∷ []) ≡ cut cap (render st)
    by_stack h [] ne = ground arith
    by_stack h (s ∷ st) ne = first_lem cap s st ne.0 h
