-- ===== src/Permission/Text/Others.antt =====
-- The second loop over the lines of a state file, in permission/src/permission_impl.c.
use hwrun_os_linux.Prelude.{
  ℕ, ◌+◌, ◌≤◌, ◌≡◌, refl, sym, ◌∙◌, ap, true, ◌||◌, List, [], ◌∷◌, ◌++◌, append-nil, append_assoc,
  map, none, some, Bytes, codes, length, length-append, find?, find?-append, update_first, arith,
  All, Bool-cases, Option-cases, inl, inr,
}
use hwrun_os_linux.Errno.{Rc, ok}
use hwrun_os_linux.Permission.{
  Perm, Role, Binding, Policy, named, binds, grants, token_ok, add_perm,
}
use hwrun_os_linux.Permission.Check.{DistinctNames}
use hwrun_os_linux.Permission.Valid.{DistinctBindings, DistinctPerms, IsRole, Defined}
use hwrun_os_linux.Permission.Text.{
  perm_line, perm_lines, role_lines, grant_lines, state_apply_line, begins, apply_others,
}
use hwrun_os_linux.Permission.Text.Lines.{
  PrintsPerm, PrintsRole, PrintsBinding, bare, perm_line-apply, grant_line-apply, add_perm-exact,
}
use hwrun_os_linux.Permission.Text.Passes.{always, FreshIn, FreshIn-append, with_roles}

others_from :
    (i : ℕ) (pol : Policy) (ls : List Bytes)
    → apply_others always i pol ls ≡ apply_others always 0 pol ls
unfolding apply_others
others_from i pol [] = refl
others_from i pol (l ∷ ls) =
    elim (Bool-cases (begins (codes "perm") l || begins (codes "grant") l)) [
      | inl e ↦
          let out = state_apply_line true pol l in
          rw e (others_from (i + 1) out.0 ls ∙ sym (others_from 1 out.0 ls))
      | inr e ↦ rw e (others_from (i + 1) pol ls ∙ sym (others_from 1 pol ls))
    ]

find?-middle :
    (n : Bytes) (before after : List Role) (r : Role)
    → find? (named n) before ≡ none
    → r.name ≡ n
    → find? (named n) (before ++ r ∷ after) ≡ some r
unfolding find?
find?-middle n before after r h e = find?-append (named n) before (r ∷ after) h ∙ ground arith

update_first-middle :
    (n : Bytes) (f : Role → Role) (before after : List Role) (r : Role)
    → find? (named n) before ≡ none
    → r.name ≡ n
    → update_first (named n) f (before ++ r ∷ after) ≡ before ++ f r ∷ after
unfolding update_first find?
update_first-middle n f [] after r h e = ground arith
update_first-middle n f (x ∷ before) after r h e =
    ground (arith, update_first-middle n f before after r)

abbrev FreshPerms : List Perm → List Perm → Type 0
FreshPerms sofar ps = All (λ q. find? (grants q.action q.resource) sofar ≡ none) ps

FreshPerms-append :
    (p : Perm) (sofar ps : List Perm)
    → find? (grants p.action p.resource) ps ≡ none
    → FreshPerms sofar ps
    → FreshPerms (sofar ++ p ∷ []) ps
unfolding find?
FreshPerms-append p sofar [] d f = tt
FreshPerms-append p sofar (q ∷ ps) d f = (
  find?-append (grants q.action q.resource) sofar (p ∷ []) f.0 ∙ ground arith,
  FreshPerms-append p sofar ps (ground arith) f.1,
)

others_step :
    (pol next : Policy) (rc : Rc) (name : Bytes) (p : Perm) (ls : List Bytes)
    → state_apply_line true pol (perm_line name p) ≡ (next, rc)
    → apply_others always 0 pol (perm_line name p ∷ ls) ≡ apply_others always 0 next ls
unfolding apply_others begins
others_step pol next rc name p ls e =
    ap (λ out. apply_others always 1 out.0 ls) e ∙ others_from 1 next ls

perms_pass :
    (ps sofar : List Perm) (before after : List Role) (bs : List Binding) (r : Role)
    (ls : List Bytes)
    → token_ok (some r.name) 64 ≡ true
    → All PrintsPerm ps
    → DistinctPerms ps
    → FreshPerms sofar ps
    → length sofar + length ps ≤ 64
    → find? (named r.name) before ≡ none
    → apply_others always 0
        (with_roles bs (before ++ record r { perms = sofar } ∷ after))
        (perm_lines r.name ps ++ ls)
      ≡ apply_others always 0
          (with_roles bs (before ++ record r { perms = sofar ++ ps } ∷ after))
          ls
unfolding perm_lines with_roles
perms_pass [] sofar before after bs r ls name h d f room new =
    ap (λ x. apply_others always 0 (with_roles bs (before ++ record r { perms = x } ∷ after)) ls)
      (sym (append-nil sofar))
perms_pass (p ∷ ps) sofar before after bs r ls name h d f room new =
    let now : Role = record r { perms = sofar } in
    let grown : Role = record r { perms = sofar ++ p ∷ [] } in
    let changed =
      update_first-middle r.name (add_perm p.action p.resource) before after now new refl in
    let exact = add_perm-exact p now h.0 in
    let applied =
      perm_line-apply (with_roles bs (before ++ now ∷ after)) now p name h.0
        (find?-middle r.name before after now new refl) f.0 (omega (arith, room)) in
    others_step (with_roles bs (before ++ now ∷ after)) (with_roles bs (before ++ grown ∷ after)) ok
      r.name p (perm_lines r.name ps ++ ls)
      (applied ∙ ap (λ x. (with_roles bs x, ok)) (changed ∙ ap (λ x. before ++ x ∷ after) exact))
    ∙ perms_pass ps (sofar ++ p ∷ []) before after bs r ls name h.1 d.1
        (FreshPerms-append p sofar ps d.0 f.1) (omega (arith, room, length-append sofar (p ∷ [])))
        new
    ∙ ap (λ x. apply_others always 0 (with_roles bs (before ++ record r { perms = x } ∷ after)) ls)
        (append_assoc sofar (p ∷ []) ps)

all_fresh : (ps : List Perm) → FreshPerms [] ps
unfolding find?
all_fresh [] = tt
all_fresh (p ∷ ps) = (refl, all_fresh ps)

pub others_roles :
    (rs before : List Role) (bs : List Binding) (ls : List Bytes)
    → All PrintsRole rs
    → All IsRole rs
    → DistinctNames rs
    → FreshIn before rs
    → apply_others always 0 (with_roles bs (before ++ map bare rs)) (role_lines rs ++ ls)
      ≡ apply_others always 0 (with_roles bs (before ++ rs)) ls
unfolding role_lines apply_others begins
others_roles [] before bs ls h v d f = refl
others_roles (r ∷ rs) before bs ls h v d f =
    let pol : List Role = before ++ bare r ∷ map bare rs in
    others_from 1 (with_roles bs pol) ((perm_lines r.name r.perms ++ role_lines rs) ++ ls)
    ∙ ap (apply_others always 0 (with_roles bs pol))
        (append_assoc (perm_lines r.name r.perms) (role_lines rs) ls)
    ∙ perms_pass r.perms [] before (map bare rs) bs r (role_lines rs ++ ls) h.0.0 h.0.3 v.0.1
        (all_fresh r.perms) (omega (arith, v.0.0)) f.0
    ∙ ap (λ x. apply_others always 0 (with_roles bs x) (role_lines rs ++ ls))
        (sym (append_assoc before (r ∷ []) (map bare rs)))
    ∙ others_roles rs (before ++ r ∷ []) bs ls h.1 v.1 d.1 (FreshIn-append r before rs d.0 f.1)
    ∙ ap (λ x. apply_others always 0 (with_roles bs x) ls) (append_assoc before (r ∷ []) rs)

abbrev FreshBindings : List Binding → List Binding → Type 0
FreshBindings sofar bs = All (λ b. find? (binds b.subject b.role) sofar ≡ none) bs

FreshBindings-append :
    (b : Binding) (sofar bs : List Binding)
    → find? (binds b.subject b.role) bs ≡ none
    → FreshBindings sofar bs
    → FreshBindings (sofar ++ b ∷ []) bs
unfolding find?
FreshBindings-append b sofar [] d f = tt
FreshBindings-append b sofar (c ∷ bs) d f = (
  find?-append (binds c.subject c.role) sofar (b ∷ []) f.0 ∙ ground arith,
  FreshBindings-append b sofar bs (ground arith) f.1,
)

pub others_grants :
    (bs sofar : List Binding) (rs : List Role)
    → All PrintsBinding bs
    → All (λ b. Defined rs b.role) bs
    → DistinctBindings bs
    → FreshBindings sofar bs
    → apply_others always 0 (with_roles sofar rs) (grant_lines bs) ≡ with_roles (sofar ++ bs) rs
unfolding grant_lines apply_others begins
others_grants [] sofar rs h v d f = ap (λ x. with_roles x rs) (sym (append-nil sofar))
others_grants (b ∷ bs) sofar rs h v d f = elim (Option-cases (find? (named b.role) rs)) [
  | inl e ↦ absurd (v.0 e)
  | inr (r, e) ↦
      ap (λ out. apply_others always 1 out.0 (grant_lines bs))
        (grant_line-apply (with_roles sofar rs) b r h.0 e f.0)
      ∙ others_from 1 (with_roles (sofar ++ b ∷ []) rs) (grant_lines bs)
      ∙ others_grants bs (sofar ++ b ∷ []) rs h.1 v.1 d.1 (FreshBindings-append b sofar bs d.0 f.1)
      ∙ ap (λ x. with_roles x rs) (append_assoc sofar (b ∷ []) bs)
]
