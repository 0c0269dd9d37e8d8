-- ===== src/Permission/Keeps.antt =====
-- Proofs about sequences of operations of permission/src/permission_impl.c.
use hwrun_os_linux.Prelude.{
  ◌≡◌, sym, subst, Bool, true, not, List, [], ◌∷◌, ◌++◌, Option, none, Bytes, str_eq, fit, fit_all,
  find?, keep, drop_first, Bool-cases, inl, inr, ◌⊎◌, arith, All, All-append, All-drop_first,
}
use hwrun_os_linux.Permission.{
  Role, Binding, Policy, named, binds, token_ok, role_add_locked, role_remove_locked,
  role_add_perm_locked, role_remove_perm_locked, grant_locked, revoke_locked, or_empty, name_max,
  desc_max, subject_max,
}
use hwrun_os_linux.Permission.Roles.{role_add_perm-IsValid, role_remove_perm-IsValid}
use hwrun_os_linux.Permission.Valid.{
  IsValid, IsRole, Defined, token_fits, find?-append_some, DistinctNames-append,
  DistinctBindings-append, DistinctBindings-drop_first, DistinctBindings-keep,
  DistinctNames-drop_first, Defined-drop_first,
}

-- What adding a role does: nothing, or one more role under a new name that fits.
role_add_cases :
    (alloc : Bool) (pol : Policy) (name description : Option Bytes)
    → let out = (role_add_locked alloc pol name description).0 in
      (out ≡ pol)
      ⊎ ((find? (named (or_empty name)) pol.roles ≡ none)
          × (token_ok name 64 ≡ true)
          × (out ≡ record pol {
            roles =
                pol.roles
                ++ record {
                  name = fit name_max (or_empty name);
                  description = fit desc_max (or_empty description);
                  perms = [];
                }
                  ∷ [];
          }))
unfolding role_add_locked
role_add_cases alloc pol name description = ground arith

Defined-append :
    (rs : List Role) (r : Role) (bs : List Binding)
    → All (λ b. Defined rs b.role) bs
    → All (λ b. Defined (rs ++ r ∷ []) b.role) bs
Defined-append rs r [] h = tt
Defined-append rs r (b ∷ bs) h =
    (find?-append_some (named b.role) rs (r ∷ []) h.0, Defined-append rs r bs h.1)

role_add-IsValid :
    (alloc : Bool) (pol : Policy) (name description : Option Bytes)
    → IsValid pol
    → IsValid (role_add_locked alloc pol name description).0
role_add-IsValid alloc pol name description v = elim (role_add_cases alloc pol name description) [
  | inl e ↦ rw e v
  | inr (absent, token, e) ↦
      let r : Role = record {
        name = fit name_max (or_empty name);
        description = fit desc_max (or_empty description);
        perms = [];
      } in
      let same : or_empty name ≡ r.name =
        sym (fit_all 64 (or_empty name) (token_fits name 64 token)) in
      subst IsValid (sym e) (record {
        names =
            DistinctNames-append pol.roles r v.names
              (subst (λ n. find? (named n) pol.roles ≡ none) same absent);
        roles = All-append IsRole pol.roles (r ∷ []) v.roles ((omega arith, tt), tt);
        bindings = v.bindings;
        defined = Defined-append pol.roles r pol.bindings v.defined;
      })
]

role_remove_cases :
    (pol : Policy) (name : Bytes)
    → let out = (role_remove_locked pol name).0 in
      (out ≡ pol)
      ⊎ (out ≡ record {
        roles = drop_first (named name) pol.roles;
        bindings = keep (λ b. not (str_eq b.role name)) pol.bindings;
      })
unfolding role_remove_locked
role_remove_cases pol name = ground arith

Defined-remove :
    (name : Bytes) (rs : List Role) (bs : List Binding)
    → All (λ b. Defined rs b.role) bs
    → All
        (λ b. Defined (drop_first (named name) rs) b.role)
        (keep (λ b. not (str_eq b.role name)) bs)
unfolding keep
Defined-remove name rs [] h = tt
Defined-remove name rs (b ∷ bs) h = elim (Bool-cases (str_eq b.role name)) [
  | inl e ↦ rw e (Defined-remove name rs bs h.1)
  | inr e ↦
      rw e (Defined-drop_first name b.role rs (ground arith) h.0, Defined-remove name rs bs h.1)
]

role_remove-IsValid :
    (pol : Policy) (name : Bytes) → IsValid pol → IsValid (role_remove_locked pol name).0
role_remove-IsValid pol name v = elim (role_remove_cases pol name) [
  | inl e ↦ rw e v
  | inr e ↦ subst IsValid (sym e) (record {
    names = DistinctNames-drop_first (named name) pol.roles v.names;
    roles = All-drop_first IsRole (named name) pol.roles v.roles;
    bindings = DistinctBindings-keep (λ b. not (str_eq b.role name)) pol.bindings v.bindings;
    defined = Defined-remove name pol.roles pol.bindings v.defined;
  })
]

grant_cases :
    (alloc : Bool) (pol : Policy) (subject role : Option Bytes)
    → let out = (grant_locked alloc pol subject role).0 in
      (out ≡ pol)
      ⊎ ((token_ok subject 128 ≡ true)
          × (token_ok role 64 ≡ true)
          × Defined pol.roles (or_empty role)
          × (find? (binds (or_empty subject) (or_empty role)) pol.bindings ≡ none)
          × (out ≡ record pol {
            bindings =
                pol.bindings
                ++ record {
                  subject = fit subject_max (or_empty subject);
                  role = fit name_max (or_empty role);
                }
                  ∷ [];
          }))
unfolding grant_locked
grant_cases alloc pol subject role = ground arith

grant-IsValid :
    (alloc : Bool) (pol : Policy) (subject role : Option Bytes)
    → IsValid pol
    → IsValid (grant_locked alloc pol subject role).0
grant-IsValid alloc pol subject role v = elim (grant_cases alloc pol subject role) [
  | inl same ↦ subst IsValid (sym same) v
  | inr (subject_token, role_token, known, absent, changed) ↦
      let b : Binding = record {
        subject = fit subject_max (or_empty subject);
        role = fit name_max (or_empty role);
      } in
      let s : or_empty subject ≡ b.subject =
        sym (fit_all 128 (or_empty subject) (token_fits subject 128 subject_token)) in
      let r : or_empty role ≡ b.role =
        sym (fit_all 64 (or_empty role) (token_fits role 64 role_token)) in
      subst IsValid (sym changed) (record {
        names = v.names;
        roles = v.roles;
        bindings = DistinctBindings-append pol.bindings b v.bindings (
            subst (λ x. find? (binds x b.role) pol.bindings ≡ none) s
              (subst (λ y. find? (binds (or_empty subject) y) pol.bindings ≡ none) r absent));
        defined =
            All-append (λ x. Defined pol.roles x.role) pol.bindings (b ∷ []) v.defined
              (subst (Defined pol.roles) r known, tt);
      })
]

revoke_cases :
    (pol : Policy) (subject role : Option Bytes)
    → let out = (revoke_locked pol subject role).0 in
      (out ≡ pol)
      ⊎ (out ≡ record pol {
        bindings = drop_first (binds (or_empty subject) (or_empty role)) pol.bindings;
      })
unfolding revoke_locked
revoke_cases pol subject role = ground arith

revoke-IsValid :
    (pol : Policy) (subject role : Option Bytes)
    → IsValid pol
    → IsValid (revoke_locked pol subject role).0
revoke-IsValid pol subject role v = elim (revoke_cases pol subject role) [
  | inl same ↦ subst IsValid (sym same) v
  | inr changed ↦ subst IsValid (sym changed) (record {
    names = v.names;
    roles = v.roles;
    bindings =
        DistinctBindings-drop_first (binds (or_empty subject) (or_empty role)) pol.bindings
          v.bindings;
    defined =
        All-drop_first (λ x. Defined pol.roles x.role) (binds (or_empty subject) (or_empty role))
          pol.bindings v.defined;
  })
]

-- A request of a client; `alloc` is whether its `calloc` succeeds.
pub data Request : Type 0 where
  role_add : Bool → Option Bytes → Option Bytes → Request
  role_remove : Bytes → Request
  role_add_perm : Bytes → Option Bytes → Option Bytes → Request
  role_remove_perm : Bytes → Option Bytes → Option Bytes → Request
  grant : Bool → Option Bytes → Option Bytes → Request
  revoke : Option Bytes → Option Bytes → Request

unfoldable pub serve : Policy → Request → Policy
serve pol (role_add alloc name description) = (role_add_locked alloc pol name description).0
serve pol (role_remove name) = (role_remove_locked pol name).0
serve pol (role_add_perm role action resource) = (role_add_perm_locked pol role action resource).0
serve pol (role_remove_perm role action resource) =
    (role_remove_perm_locked pol role action resource).0
serve pol (grant alloc subject role) = (grant_locked alloc pol subject role).0
serve pol (revoke subject role) = (revoke_locked pol subject role).0

unfoldable pub serve_all : Policy → List Request → Policy
serve_all pol [] = pol
serve_all pol (q ∷ qs) = serve_all (serve pol q) qs

serve-IsValid : (pol : Policy) (q : Request) → IsValid pol → IsValid (serve pol q)
unfolding serve
serve-IsValid pol (role_add alloc name description) v =
    role_add-IsValid alloc pol name description v
serve-IsValid pol (role_remove name) v = role_remove-IsValid pol name v
serve-IsValid pol (role_add_perm role action resource) v =
    role_add_perm-IsValid pol role action resource v
serve-IsValid pol (role_remove_perm role action resource) v =
    role_remove_perm-IsValid pol role action resource v
serve-IsValid pol (grant alloc subject role) v = grant-IsValid alloc pol subject role v
serve-IsValid pol (revoke subject role) v = revoke-IsValid pol subject role v

-- Any sequence of requests keeps a valid policy valid: no two roles have one name, no binding and
-- no entry of a role stands twice, a role has at most 64 entries and every binding names a role.
pub serve_all-IsValid :
    (qs : List Request) (pol : Policy) → IsValid pol → IsValid (serve_all pol qs)
unfolding serve_all
serve_all-IsValid [] pol v = v
serve_all-IsValid (q ∷ qs) pol v = serve_all-IsValid qs (serve pol q) (serve-IsValid pol q v)
