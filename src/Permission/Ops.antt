-- ===== src/Permission/Ops.antt =====
-- The interface of permission/src/permission_impl.c: an operation under the lock, and the write of the
-- state file after it. The last part of a result says whether that write is made; writing the file
-- is not part of the model.
use hwrun_os_linux.Prelude.{
  ℕ, ◌≡◌, ◌≢◌, refl, Bool, true, false, List, [], Option, none, some, Bytes, length, take, ltb, ap,
  if◌then◌else◌, arith,
}
use hwrun_os_linux.Errno.{Rc, ok, err, enoent, einval}
use hwrun_os_linux.Permission.{
  Role, Binding, Policy, find_role_locked, role_add_locked, role_remove_locked,
  role_add_perm_locked, role_remove_perm_locked, grant_locked, revoke_locked,
}
use hwrun_os_linux.Permission.Keeps.{
  Request, role_add, role_remove, role_add_perm, role_remove_perm, grant, revoke, serve,
}

-- The state is written exactly after a success.
abbrev autosave_state : Policy × Rc → (Policy × Rc) × Bool
autosave_state (pol, ok) = ((pol, ok), true)
autosave_state (pol, err e) = ((pol, err e), false)

unfoldable pub ops_role_add : Bool → Policy → Option Bytes → Option Bytes → (Policy × Rc) × Bool
ops_role_add alloc pol name description =
    autosave_state (role_add_locked alloc pol name description)

unfoldable pub ops_role_remove : Policy → Bytes → (Policy × Rc) × Bool
ops_role_remove pol name = autosave_state (role_remove_locked pol name)

unfoldable pub ops_role_add_perm :
    Policy → Bytes → Option Bytes → Option Bytes → (Policy × Rc) × Bool
ops_role_add_perm pol role action resource =
    autosave_state (role_add_perm_locked pol role action resource)

unfoldable pub ops_role_remove_perm :
    Policy → Bytes → Option Bytes → Option Bytes → (Policy × Rc) × Bool
ops_role_remove_perm pol role action resource =
    autosave_state (role_remove_perm_locked pol role action resource)

unfoldable pub ops_grant : Bool → Policy → Option Bytes → Option Bytes → (Policy × Rc) × Bool
ops_grant alloc pol subject role = autosave_state (grant_locked alloc pol subject role)

unfoldable pub ops_revoke : Policy → Option Bytes → Option Bytes → (Policy × Rc) × Bool
ops_revoke pol subject role = autosave_state (revoke_locked pol subject role)

-- The role that is copied out.
unfoldable pub ops_role_get : Policy → Option Bytes → Rc × Option Role
unfolding find_role_locked
ops_role_get pol none = (err einval, none)
ops_role_get pol (some name) = elim (find_role_locked pol name) [
  | none ↦ (err enoent, none)
  | some r ↦ (ok, some r)
]

-- What is written to the array of `cap` elements, and the count of all.
unfoldable pub ops_role_list : Policy → ℕ → Rc × List Role × ℕ
ops_role_list pol cap =
    if ltb 0 cap then (ok, take cap pol.roles, length pol.roles) else (err einval, [], 0)

unfoldable pub ops_binding_list : Policy → ℕ → Rc × List Binding × ℕ
ops_binding_list pol cap =
    if ltb 0 cap then (ok, take cap pol.bindings, length pol.bindings) else (err einval, [], 0)

-- The operation that answers a request.
unfoldable pub perform : Policy → Request → (Policy × Rc) × Bool
unfolding ops_role_add ops_role_remove ops_role_add_perm ops_role_remove_perm ops_grant ops_revoke
perform pol (role_add alloc name description) = ops_role_add alloc pol name description
perform pol (role_remove name) = ops_role_remove pol name
perform pol (role_add_perm role action resource) = ops_role_add_perm pol role action resource
perform pol (role_remove_perm role action resource) = ops_role_remove_perm pol role action resource
perform pol (grant alloc subject role) = ops_grant alloc pol subject role
perform pol (revoke subject role) = ops_revoke pol subject role

saved : (out : Policy × Rc) → (autosave_state out).0 ≡ out
saved (pol, ok) = refl
saved (pol, err e) = refl

-- The interface changes the policy as the operation under the lock does.
perform-serve : (pol : Policy) (q : Request) → (perform pol q).0.0 ≡ serve pol q
unfolding perform serve
perform-serve pol (role_add alloc name description) =
    ap (λ x. x.0) (saved (role_add_locked alloc pol name description))
perform-serve pol (role_remove name) = ap (λ x. x.0) (saved (role_remove_locked pol name))
perform-serve pol (role_add_perm role action resource) =
    ap (λ x. x.0) (saved (role_add_perm_locked pol role action resource))
perform-serve pol (role_remove_perm role action resource) =
    ap (λ x. x.0) (saved (role_remove_perm_locked pol role action resource))
perform-serve pol (grant alloc subject role) =
    ap (λ x. x.0) (saved (grant_locked alloc pol subject role))
perform-serve pol (revoke subject role) = ap (λ x. x.0) (saved (revoke_locked pol subject role))

-- A request that fails, for whatever reason, leaves the policy as it was and the state file unwritten.
pub perform_failed :
    (pol : Policy) (q : Request)
    → (perform pol q).0.1 ≢ ok
    → ((perform pol q).0.0 ≡ pol) × ((perform pol q).1 ≡ false)
unfolding perform role_add_locked role_remove_locked role_add_perm_locked role_remove_perm_locked
    grant_locked revoke_locked
perform_failed pol (role_add alloc name description) h = ground arith
perform_failed pol (role_remove name) h = ground arith
perform_failed pol (role_add_perm role action resource) h = ground arith
perform_failed pol (role_remove_perm role action resource) h = ground arith
perform_failed pol (grant alloc subject role) h = ground arith
perform_failed pol (revoke subject role) h = ground arith
