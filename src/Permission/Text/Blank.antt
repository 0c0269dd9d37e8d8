-- ===== src/Permission/Text/Blank.antt =====
-- Entries whose resource is made of blanks, in the state file of permission/src/permission_impl.c.
use hwrun_os_linux.Prelude.{
  ◌+◌, ◌<◌, ◌≡◌, ◌≢◌, refl, sym, ◌∙◌, ap, Bool, true, ◌&&◌, List, [], ◌∷◌, ◌++◌, map, keep, length,
  length-append, if◌then◌else◌, Bool-cases, inl, inr, append-nil, append_assoc, Bytes, codes, some,
  arith, All, All-append,
}
use hwrun_os_linux.Prelude.Lines.{
  newline, is_blank, trim_back, trim_back_solid, ends_solid, OneLine,
}
use hwrun_os_linux.Permission.{Perm, Role, Policy, token_ok, free_text_ok}
use hwrun_os_linux.Permission.Words.{tail, trim_ws, tail-solid, is_gap, token_OneLine, text_OneLine}
use hwrun_os_linux.Permission.Text.{perm_line, is_directive}
use hwrun_os_linux.Permission.Text.Lines.{PrintsPerm}
use hwrun_os_linux.Permission.Text.RoundTrip.{Line, perm_line-Line}

abbrev pub IsGaps : Bytes → Type 0
IsGaps s = All (λ c. is_gap c ≡ true) s

gaps_blank : (s : Bytes) → IsGaps s → All (λ c. is_blank c ≡ true) s
gaps_blank [] h = tt
gaps_blank (c ∷ s) h = (ground (arith, h.0), gaps_blank s h.1)

trim_back-blanks : (b : Bytes) → All (λ c. is_blank c ≡ true) b → trim_back b ≡ []
unfolding trim_back
trim_back-blanks [] h = refl
trim_back-blanks (c ∷ b) h = rw (trim_back-blanks b h.1, h.0) refl

trim_back-append_blanks :
    (a b : Bytes) → All (λ c. is_blank c ≡ true) b → trim_back (a ++ b) ≡ trim_back a
unfolding trim_back
trim_back-append_blanks [] b h = trim_back-blanks b h
trim_back-append_blanks (c ∷ a) b h = rw (trim_back-append_blanks a b h) refl

tail_gaps : (s : Bytes) → IsGaps s → All (λ c. is_blank c ≡ true) (tail s ++ newline ∷ [])
tail_gaps [] h = (refl, tt)
tail_gaps (c ∷ s) h = (
  refl,
  All-append (λ x. is_blank x ≡ true) (c ∷ s) (newline ∷ []) (gaps_blank (c ∷ s) h) (refl, tt),
)

trim_ws-gaps :
    (name : Bytes) (p : Perm)
    → token_ok (some p.action) 64 ≡ true
    → IsGaps p.resource
    → trim_ws (perm_line name p ++ newline ∷ []) ≡ perm_line name (record p { resource = [] })
unfolding trim_ws
trim_ws-gaps name p h g =
    let short = perm_line name (record p { resource = [] }) in
    let front = codes "perm " ++ name ++ 32 ∷ p.action in
    let blanks = tail p.resource ++ newline ∷ [] in
    let parts : perm_line name p ++ newline ∷ [] ≡ front ++ blanks =
      ap (λ x. codes "perm " ++ x)
        (append_assoc name (32 ∷ (p.action ++ tail p.resource)) (newline ∷ [])
          ∙ ap (λ x. name ++ 32 ∷ x) (append_assoc p.action (tail p.resource) (newline ∷ []))
          ∙ sym (append_assoc name (32 ∷ p.action) blanks)) in
    let ends : ends_solid short ≡ true =
      ap ends_solid
        (sym (ap (λ x. codes "perm " ++ x) (append_assoc name (32 ∷ []) (p.action ++ []))))
      ∙ tail-solid 64 (codes "perm " ++ name ++ 32 ∷ []) p.action [] h tt in
    let same : front ≡ short =
      ap (λ x. codes "perm " ++ name ++ 32 ∷ x) (sym (append-nil p.action)) in
    ap trim_ws parts
    ∙ trim_back-append_blanks front blanks (tail_gaps p.resource g)
    ∙ ap trim_back same
    ∙ trim_back_solid short ends

unfoldable pub all_gaps : Bytes → Bool
all_gaps [] = true
all_gaps (c ∷ s) = is_gap c && all_gaps s

all_gaps-IsGaps : (s : Bytes) → all_gaps s ≡ true → IsGaps s
unfolding all_gaps
all_gaps-IsGaps [] h = tt
all_gaps-IsGaps (c ∷ s) h = (ground arith, all_gaps-IsGaps s (ground arith))

pub IsGaps-all : (s : Bytes) → IsGaps s → all_gaps s ≡ true
unfolding all_gaps
IsGaps-all [] g = refl
IsGaps-all (c ∷ s) g = rw (g.0, all_gaps) (IsGaps-all s g.1)

-- A policy whose entries for a resource of blanks, and no others, are for every resource.
unfoldable pub widened : Perm → Perm
unfolding all_gaps
widened p = if all_gaps p.resource then record p { resource = [] } else p

unfoldable pub widened_role : Role → Role
unfolding widened
widened_role r = record r { perms = map widened r.perms }

unfoldable pub widened_policy : Policy → Policy
unfolding widened_role
widened_policy pol = record pol { roles = map widened_role pol.roles }

-- A line of the file, and what is kept of it.
abbrev pub Gives : Bytes → Bytes → Type 0
Gives l l' =
    (OneLine l × (length l + 1 < 4096))
    × (trim_ws (l ++ newline ∷ []) ≡ l')
    × (is_directive l' ≡ true)

pub data AllGive : List Bytes → List Bytes → Type 0 where
  no_line : AllGive [] []
  more :
      {l l' : Bytes} {ls ls' : List Bytes}
      → Gives l l'
      → AllGive ls ls'
      → AllGive (l ∷ ls) (l' ∷ ls')

pub AllGive-append :
    {xs xs' ys ys' : List Bytes} → AllGive xs xs' → AllGive ys ys' → AllGive (xs ++ ys) (xs' ++ ys')
AllGive-append no_line k = k
AllGive-append (more g h) k = more g (AllGive-append h k)

pub same_lines : (ls : List Bytes) → All Line ls → AllGive ls ls
same_lines [] h = no_line
same_lines (l ∷ ls) h = more h.0 (same_lines ls h.1)

pub lines_fit :
    {ls ls' : List Bytes} → AllGive ls ls' → All (λ l. OneLine l × (length l + 1 < 4096)) ls
lines_fit no_line = tt
lines_fit (more g h) = (g.0, lines_fit h)

pub lines_kept :
    {ls ls' : List Bytes}
    → AllGive ls ls'
    → keep is_directive (map trim_ws (map (λ l. l ++ newline ∷ []) ls)) ≡ ls'
unfolding keep
lines_kept no_line = refl
lines_kept (more {l} {l'} {ls} {ls'} g h) =
    ap (λ x. keep is_directive (x ∷ map trim_ws (map (λ y. y ++ newline ∷ []) ls))) g.1
    ∙ rw (g.2, keep) (ap (λ x. l' ∷ x) (lines_kept h))

perm_line_fits :
    (name : Bytes) (p : Perm)
    → token_ok (some name) 64 ≡ true
    → token_ok (some p.action) 64 ≡ true
    → free_text_ok p.resource 256 ≡ true
    → OneLine (perm_line name p) × (length (perm_line name p) + 1 < 4096)
perm_line_fits name p h k t =
    let (name_one, name_short) = token_OneLine 64 name h in
    let (action_one, action_short) = token_OneLine 64 p.action k in
    let (rest_one, rest_short) = text_OneLine 256 p.resource t in
    let end = p.action ++ tail p.resource in
    (
      All-append (λ x. x ≢ newline) (codes "perm ") (name ++ 32 ∷ end) (ground arith)
          (All-append (λ x. x ≢ newline) name (32 ∷ end) name_one
            (
              ground arith,
              All-append (λ x. x ≢ newline) p.action (tail p.resource) action_one rest_one,
            )),
      omega (
        arith,
        name_short,
        action_short,
        rest_short,
        length-append name (32 ∷ end),
        length-append p.action (tail p.resource),
      ),
    )

pub perm_line-Gives :
    (name : Bytes) (p : Perm)
    → token_ok (some name) 64 ≡ true
    → PrintsPerm (widened p)
    → free_text_ok p.resource 256 ≡ true
    → Gives (perm_line name p) (perm_line name (widened p))
unfolding widened
perm_line-Gives name p h k t = elim (Bool-cases (all_gaps p.resource)) [
  | inr e ↦ rw e (perm_line-Line name p h (rw e at k))
  | inl e ↦
      let k' : PrintsPerm (record p { resource = [] }) = rw e at k in
      rw e (
        perm_line_fits name p h k'.0 t,
        trim_ws-gaps name p k'.0 (all_gaps-IsGaps p.resource e),
        (perm_line-Line name (record p { resource = [] }) h k').2,
      )
]
