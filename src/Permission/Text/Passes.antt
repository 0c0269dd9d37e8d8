-- ===== src/Permission/Text/Passes.antt =====
-- The first loop over the lines of a state file, in permission/src/permission_impl.c.
use hwrun_os_linux.Prelude.{
  ℕ, ◌+◌, ◌≡◌, ◌≢◌, refl, sym, ◌∙◌, ap, Bool, true, List, [], ◌∷◌, ◌++◌, append-nil, append_assoc,
  map, none, Bytes, codes, find?, find?-append, arith, All, Bool-cases, inl, inr,
}
use hwrun_os_linux.Errno.{Rc, ok}
use hwrun_os_linux.Permission.{Perm, Role, Binding, Policy, named}
use hwrun_os_linux.Permission.Check.{DistinctNames}
use hwrun_os_linux.Permission.Text.{
  role_line, perm_lines, role_lines, grant_lines, state_apply_line, begins, worse, apply_roles,
}
use hwrun_os_linux.Permission.Text.Lines.{PrintsRole, bare, role_line-apply}

-- Every `calloc` succeeds.
abbrev pub always : ℕ → Bool
always i = true

-- The numbers of the lines do not matter then.
roles_from :
    (i : ℕ) (pol : Policy) (rc : Rc) (ls : List Bytes)
    → apply_roles always i pol rc ls ≡ apply_roles always 0 pol rc ls
unfolding apply_roles
roles_from i pol rc [] = refl
roles_from i pol rc (l ∷ ls) = elim (Bool-cases (begins (codes "role") l)) [
  | inl e ↦
      let out = state_apply_line true pol l in
      rw e (
        roles_from (i + 1) out.0 (worse rc out.1) ls ∙ sym (roles_from 1 out.0 (worse rc out.1) ls))
  | inr e ↦ rw e (roles_from (i + 1) pol rc ls ∙ sym (roles_from 1 pol rc ls))
]

roles_skip_perms :
    (pol : Policy) (rc : Rc) (name : Bytes) (ps : List Perm) (ls : List Bytes)
    → apply_roles always 0 pol rc (perm_lines name ps ++ ls) ≡ apply_roles always 0 pol rc ls
unfolding apply_roles perm_lines begins
roles_skip_perms pol rc name [] ls = refl
roles_skip_perms pol rc name (p ∷ ps) ls =
    roles_from 1 pol rc (perm_lines name ps ++ ls) ∙ roles_skip_perms pol rc name ps ls

pub roles_skip_grants :
    (pol : Policy) (rc : Rc) (bs : List Binding)
    → apply_roles always 0 pol rc (grant_lines bs) ≡ (pol, rc)
unfolding apply_roles grant_lines begins
roles_skip_grants pol rc [] = refl
roles_skip_grants pol rc (b ∷ bs) =
    roles_from 1 pol rc (grant_lines bs) ∙ roles_skip_grants pol rc bs

-- No role of a list has the name of one of the others.
abbrev pub FreshIn : List Role → List Role → Type 0
FreshIn done rs = All (λ y. find? (named y.name) done ≡ none) rs

pub FreshIn-append :
    (r : Role) (done rs : List Role)
    → All (λ y. y.name ≢ r.name) rs
    → FreshIn done rs
    → FreshIn (done ++ r ∷ []) rs
unfolding find?
FreshIn-append r done [] d f = tt
FreshIn-append r done (y ∷ rs) d f =
    (find?-append (named y.name) done (r ∷ []) f.0 ∙ ground arith, FreshIn-append r done rs d.1 f.1)

roles_step :
    (pol : Policy) (r : Role) (ls : List Bytes)
    → PrintsRole r
    → find? (named r.name) pol.roles ≡ none
    → apply_roles always 0 pol ok (role_line r ∷ ls)
      ≡ apply_roles always 0 (record pol { roles = pol.roles ++ bare r ∷ [] }) ok ls
unfolding apply_roles begins
roles_step pol r ls h new =
    ap (λ out. apply_roles always 1 out.0 (worse ok out.1) ls) (role_line-apply pol r h new)
    ∙ roles_from 1 (record pol { roles = pol.roles ++ bare r ∷ [] }) ok ls

abbrev pub with_roles : List Binding → List Role → Policy
with_roles bs rs = record { roles = rs; bindings = bs }

pub roles_pass :
    (rs done : List Role) (bs : List Binding) (ls : List Bytes)
    → All PrintsRole rs
    → DistinctNames rs
    → FreshIn done rs
    → apply_roles always 0 (with_roles bs done) ok (role_lines rs ++ ls)
      ≡ apply_roles always 0 (with_roles bs (done ++ map bare rs)) ok ls
unfolding role_lines with_roles
roles_pass [] done bs ls h d f =
    ap (λ x. apply_roles always 0 (with_roles bs x) ok ls) (sym (append-nil done))
roles_pass (r ∷ rs) done bs ls h d f =
    let next : List Role = done ++ bare r ∷ [] in
    roles_step (with_roles bs done) r ((perm_lines r.name r.perms ++ role_lines rs) ++ ls) h.0 f.0
    ∙ ap (apply_roles always 0 (with_roles bs next) ok)
        (append_assoc (perm_lines r.name r.perms) (role_lines rs) ls)
    ∙ roles_skip_perms (with_roles bs next) ok r.name r.perms (role_lines rs ++ ls)
    ∙ roles_pass rs next bs ls h.1 d.1 (FreshIn-append (bare r) done rs d.0 f.1)
    ∙ ap (λ x. apply_roles always 0 (with_roles bs x) ok ls)
        (append_assoc done (bare r ∷ []) (map bare rs))
