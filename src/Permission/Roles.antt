-- ===== src/Permission/Roles.antt =====
-- Proofs about changes of one role of permission/src/permission_impl.c.
use hwrun_os_linux.Prelude.{
  ◌<◌, ◌≡◌, refl, sym, subst, true, List, [], ◌∷◌, Option, none, some, Bytes, fit, fit_all, length,
  length-append, find?, update_first, Bool-cases, Option-cases, inl, inr, ◌⊎◌, arith, All,
  All-find?,
}
use hwrun_os_linux.Permission.{
  Role, Binding, Policy, named, grants, token_ok, free_text_ok, role_add_perm_locked,
  role_remove_perm_locked, or_empty, add_perm, remove_perm, change_role, action_max, resource_max,
}
use hwrun_os_linux.Permission.Valid.{
  IsValid, IsRole, Defined, token_fits, text_fits, DistinctPerms-append, DistinctPerms-drop_first,
  length-drop_first-le, DistinctNames-update_first, Defined-update_first,
}

roles-update_first :
    (f : Role → Role) (name : Bytes) (rs : List Role)
    → All IsRole rs
    → ((r : Role) → find? (named name) rs ≡ some r → IsRole (f r))
    → All IsRole (update_first (named name) f rs)
unfolding find? update_first
roles-update_first f name [] h g = tt
roles-update_first f name (x ∷ rs) h g = elim (Bool-cases (named name x)) [
  | inl e ↦ rw e (g x (rw e refl), h.1)
  | inr e ↦ rw e (h.0, roles-update_first f name rs h.1 (λ r w. g r (rw e w)))
]

Defined-change :
    (f : Role → Role) (keeps : (r : Role) → (f r).name ≡ r.name) (name : Bytes) (rs : List Role)
    (bs : List Binding)
    → All (λ b. Defined rs b.role) bs
    → All (λ b. Defined (update_first (named name) f rs) b.role) bs
Defined-change f keeps name rs [] h = tt
Defined-change f keeps name rs (b ∷ bs) h =
    (Defined-update_first f keeps name rs b.role h.0, Defined-change f keeps name rs bs h.1)

-- The change of one role, on the first role with the name.
change-IsValid :
    (f : Role → Role) (keeps : (r : Role) → (f r).name ≡ r.name) (pol : Policy) (name : Bytes)
    → ((r : Role) → find? (named name) pol.roles ≡ some r → IsRole (f r))
    → IsValid pol
    → IsValid (change_role f name pol)
change-IsValid f keeps pol name fine v = record {
  names = DistinctNames-update_first f keeps name pol.roles v.names;
  roles = roles-update_first f name pol.roles v.roles fine;
  bindings = v.bindings;
  defined = Defined-change f keeps name pol.roles pol.bindings v.defined;
}

add_perm-IsRole :
    (action res : Bytes) (r : Role)
    → length action < 64
    → length res < 256
    → find? (grants action res) r.perms ≡ none
    → length r.perms < 64
    → IsRole r
    → IsRole (add_perm action res r)
add_perm-IsRole action res r a s absent few v = (
  ground (
    arith,
    length-append r.perms
        (record { action = fit action_max action; resource = fit resource_max res } ∷ []),
  ),
  DistinctPerms-append r.perms
      (record { action = fit action_max action; resource = fit resource_max res }) v.1
      (subst (λ x. find? (grants x (fit resource_max res)) r.perms ≡ none)
        (sym (fit_all 64 action a))
        (subst (λ y. find? (grants action y) r.perms ≡ none) (sym (fit_all 256 res s)) absent)),
)

remove_perm-IsRole : (action res : Bytes) (r : Role) → IsRole r → IsRole (remove_perm action res r)
remove_perm-IsRole action res r v = (
  ground (arith, length-drop_first-le (grants action res) r.perms),
  DistinctPerms-drop_first (grants action res) r.perms v.1,
)

add_perm_cases :
    (pol : Policy) (role : Bytes) (action resource : Option Bytes) (r : Role)
    → find? (named role) pol.roles ≡ some r
    → let out = (role_add_perm_locked pol role action resource).0 in
      (out ≡ pol)
      ⊎ ((token_ok action 64 ≡ true)
          × (free_text_ok (or_empty resource) 256 ≡ true)
          × (find? (grants (or_empty action) (or_empty resource)) r.perms ≡ none)
          × (length r.perms < 64)
          × (out ≡ change_role (add_perm (or_empty action) (or_empty resource)) role pol))
unfolding role_add_perm_locked
add_perm_cases pol role action resource r found = ground arith

remove_perm_cases :
    (pol : Policy) (role : Bytes) (action resource : Option Bytes)
    → let out = (role_remove_perm_locked pol role action resource).0 in
      (out ≡ pol) ⊎ (out ≡ change_role (remove_perm (or_empty action) (or_empty resource)) role pol)
unfolding role_remove_perm_locked
remove_perm_cases pol role action resource = ground arith

add_perm_absent :
    (pol : Policy) (role : Bytes) (action resource : Option Bytes)
    → find? (named role) pol.roles ≡ none
    → (role_add_perm_locked pol role action resource).0 ≡ pol
unfolding role_add_perm_locked
add_perm_absent pol role action resource absent = ground arith

pub role_add_perm-IsValid :
    (pol : Policy) (role : Bytes) (action resource : Option Bytes)
    → IsValid pol
    → IsValid (role_add_perm_locked pol role action resource).0
role_add_perm-IsValid pol role action resource v =
    elim (Option-cases (find? (named role) pol.roles)) [
      | inl e ↦ subst IsValid (sym (add_perm_absent pol role action resource e)) v
      | inr (r, e) ↦ elim (add_perm_cases pol role action resource r e) [
        | inl same ↦ subst IsValid (sym same) v
        | inr (token, text, absent, few, changed) ↦ subst IsValid (sym changed) (
            change-IsValid (add_perm (or_empty action) (or_empty resource)) (λ q. refl) pol role
              (λ q w.
                let same : r ≡ q = cc in
                subst (λ x. IsRole (add_perm (or_empty action) (or_empty resource) x)) same
                  (add_perm-IsRole (or_empty action) (or_empty resource) r
                    (token_fits action 64 token) (text_fits (or_empty resource) 256 text) absent few
                    (All-find? IsRole (named role) pol.roles r v.roles e)))
              v)
      ]
    ]

pub role_remove_perm-IsValid :
    (pol : Policy) (role : Bytes) (action resource : Option Bytes)
    → IsValid pol
    → IsValid (role_remove_perm_locked pol role action resource).0
role_remove_perm-IsValid pol role action resource v =
    elim (remove_perm_cases pol role action resource) [
      | inl same ↦ subst IsValid (sym same) v
      | inr changed ↦ subst IsValid (sym changed) (
          change-IsValid (remove_perm (or_empty action) (or_empty resource)) (λ q. refl) pol role
            (λ q w.
              remove_perm-IsRole (or_empty action) (or_empty resource) q
                (All-find? IsRole (named role) pol.roles q v.roles w))
            v)
    ]
