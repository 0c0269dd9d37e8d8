-- ===== src/Permission.antt =====
-- permission/src/permission_impl.c: role-based access control in memory.
-- The two linked lists are lists in the same order. A text that may be NULL is an `Option`, and
-- `alloc` says whether `calloc` succeeds. The mutex makes each operation atomic.
pub mod Glob
pub mod Check
pub mod Valid
pub mod Keeps
pub mod Ops
pub mod Roles
pub mod Words
pub mod Text
pub mod State
use hwrun_os_linux.Prelude.{
  ℕ, ◌<◌, Bool, true, false, not, ◌&&◌, ◌||◌, List, [], ◌∷◌, ◌++◌, Option, none, some, Bytes,
  length, str_eq, is_empty, fit, find?, keep, drop_first, update_first, if◌then◌else◌, ltb, leb,
  ◌==◌,
}
use hwrun_os_linux.Errno.{Rc, ok, err, enoent, enomem, eexist, einval, enospc, eacces}
use Glob.{glob_match}

-- hw_permission_perm_t
pub record Perm : Type 0 where
  pub action : Bytes
  pub resource : Bytes

-- perm_role_node_t; `perm_count` is the length of `perms`
pub record Role : Type 0 where
  pub name : Bytes
  pub description : Bytes
  pub perms : List Perm

-- perm_binding_node_t
pub record Binding : Type 0 where
  pub subject : Bytes
  pub role : Bytes

-- g_ctx, without the path of the state file
pub record Policy : Type 0 where
  pub roles : List Role
  pub bindings : List Binding

abbrev pub name_max : ℕ
name_max = 64

abbrev pub desc_max : ℕ
desc_max = 256

abbrev pub subject_max : ℕ
subject_max = 128

abbrev pub action_max : ℕ
action_max = 64

abbrev pub resource_max : ℕ
resource_max = 256

abbrev pub role_max_perms : ℕ
role_max_perms = 64

-- blank, tab, carriage return, line feed or '#'
abbrev is_reserved : ℕ → Bool
is_reserved c = c == 32 || (c == 9 || (c == 13 || (c == 10 || c == b'#')))

unfoldable pub no_reserved : Bytes → Bool
no_reserved [] = true
no_reserved (c ∷ s) = if is_reserved c then false else no_reserved s

unfoldable pub no_newline : Bytes → Bool
no_newline [] = true
no_newline (c ∷ s) = if c == 10 || c == 13 then false else no_newline s

unfoldable pub token_ok : Option Bytes → ℕ → Bool
unfolding no_reserved
token_ok none max = false
token_ok (some []) max = false
token_ok (some (c ∷ s)) max = ltb (length (c ∷ s)) max && no_reserved (c ∷ s)

unfoldable pub free_text_ok : Bytes → ℕ → Bool
unfolding no_newline
free_text_ok s max = ltb (length s) max && no_newline s

-- `s ? s : ""`
abbrev pub or_empty : Option Bytes → Bytes
or_empty none = []
or_empty (some s) = s

abbrev pub named : Bytes → Role → Bool
named name r = str_eq r.name name

abbrev pub binds : Bytes → Bytes → Binding → Bool
binds subject role b = str_eq b.subject subject && str_eq b.role role

abbrev pub grants : Bytes → Bytes → Perm → Bool
grants action resource p = str_eq p.action action && str_eq p.resource resource

unfoldable pub find_role_locked : Policy → Bytes → Option Role
find_role_locked pol name = find? (named name) pol.roles

unfoldable pub find_binding_locked : Policy → Bytes → Bytes → Option Binding
find_binding_locked pol subject role = find? (binds subject role) pol.bindings

-- The new node goes to the end of the list.
unfoldable pub append_role_locked : Bool → Policy → Bytes → Option Bytes → Option Policy
append_role_locked alloc pol name description =
    if alloc
    then some (record pol {
      roles =
          pol.roles
          ++ record {
            name = fit name_max name;
            description = fit desc_max (or_empty description);
            perms = [];
          }
            ∷ [];
    })
    else none

unfoldable pub append_binding_locked : Bool → Policy → Bytes → Bytes → Option Policy
append_binding_locked alloc pol subject role =
    if alloc
    then some (record pol {
      bindings =
          pol.bindings
          ++ record { subject = fit subject_max subject; role = fit name_max role } ∷ [];
    })
    else none

abbrev finish : Policy → Option Policy → Policy × Rc
finish pol none = (pol, err enomem)
finish pol (some pol') = (pol', ok)

unfoldable pub role_add_locked : Bool → Policy → Option Bytes → Option Bytes → Policy × Rc
unfolding append_role_locked find_role_locked
role_add_locked alloc pol name description =
    if not (token_ok name name_max)
    then (pol, err einval)
    else if not (free_text_ok (or_empty description) desc_max)
    then (pol, err einval)
    else elim (find_role_locked pol (or_empty name)) [
      | some _ ↦ (pol, err eexist)
      | none ↦ finish pol (append_role_locked alloc pol (or_empty name) description)
    ]

-- The bindings of the role go with it.
unfoldable pub role_remove_locked : Policy → Bytes → Policy × Rc
role_remove_locked pol name = elim (find? (named name) pol.roles) [
  | none ↦ (pol, err enoent)
  | some _ ↦ (
    record {
      roles = drop_first (named name) pol.roles;
      bindings = keep (λ b. not (str_eq b.role name)) pol.bindings;
    },
    ok,
  )
]

abbrev add_perm : Bytes → Bytes → Role → Role
add_perm action res r = record r {
  perms =
      r.perms ++ record { action = fit action_max action; resource = fit resource_max res } ∷ [];
}

abbrev change_role : (Role → Role) → Bytes → Policy → Policy
change_role f name pol = record pol { roles = update_first (named name) f pol.roles }

unfoldable pub role_add_perm_locked : Policy → Bytes → Option Bytes → Option Bytes → Policy × Rc
unfolding find_role_locked
role_add_perm_locked pol role action resource = elim (find_role_locked pol role) [
  | none ↦ (pol, err enoent)
  | some r ↦
      if not (token_ok action action_max)
      then (pol, err einval)
      else if not (free_text_ok (or_empty resource) resource_max)
      then (pol, err einval)
      else elim (find? (grants (or_empty action) (or_empty resource)) r.perms) [
        | some _ ↦ (pol, err eexist)
        | none ↦
            if leb role_max_perms (length r.perms)
            then (pol, err enospc)
            else (change_role (add_perm (or_empty action) (or_empty resource)) role pol, ok)
      ]
]

abbrev remove_perm : Bytes → Bytes → Role → Role
remove_perm action res r = record r { perms = drop_first (grants action res) r.perms }

unfoldable pub role_remove_perm_locked : Policy → Bytes → Option Bytes → Option Bytes → Policy × Rc
unfolding find_role_locked
role_remove_perm_locked pol role action resource = elim (find_role_locked pol role) [
  | none ↦ (pol, err enoent)
  | some r ↦
      if not (token_ok action action_max)
      then (pol, err einval)
      else if not (free_text_ok (or_empty resource) resource_max)
      then (pol, err einval)
      else elim (find? (grants (or_empty action) (or_empty resource)) r.perms) [
        | none ↦ (pol, err enoent)
        | some _ ↦ (change_role (remove_perm (or_empty action) (or_empty resource)) role pol, ok)
      ]
]

unfoldable pub grant_locked : Bool → Policy → Option Bytes → Option Bytes → Policy × Rc
unfolding find_role_locked find_binding_locked append_binding_locked
grant_locked alloc pol subject role =
    if not (token_ok subject subject_max)
    then (pol, err einval)
    else if not (token_ok role name_max)
    then (pol, err einval)
    else elim (find_role_locked pol (or_empty role)) [
      | none ↦ (pol, err enoent)
      | some _ ↦ elim (find_binding_locked pol (or_empty subject) (or_empty role)) [
        | some _ ↦ (pol, err eexist)
        | none ↦ finish pol (append_binding_locked alloc pol (or_empty subject) (or_empty role))
      ]
    ]

unfoldable pub revoke_locked : Policy → Option Bytes → Option Bytes → Policy × Rc
revoke_locked pol subject role =
    if not (token_ok subject subject_max)
    then (pol, err einval)
    else if not (token_ok role name_max)
    then (pol, err einval)
    else elim (find? (binds (or_empty subject) (or_empty role)) pol.bindings) [
      | none ↦ (pol, err enoent)
      | some _ ↦ (
        record pol {
          bindings = drop_first (binds (or_empty subject) (or_empty role)) pol.bindings;
        },
        ok,
      )
    ]

-- One entry of a role permits the action on the resource; an empty pattern is any resource.
unfoldable pub permits : Bytes → Bytes → List Perm → Bool
permits action res [] = false
permits action res (p ∷ ps) =
    if glob_match p.action action && (is_empty p.resource || glob_match p.resource res)
    then true
    else permits action res ps

unfoldable pub role_permits : Bytes → Bytes → Option Role → Bool
unfolding permits
role_permits action res none = false
role_permits action res (some r) = permits action res r.perms

-- The loop over the bindings; one whose role is gone counts for nothing.
unfoldable pub is_allowed : List Role → Bytes → Bytes → Bytes → List Binding → Bool
unfolding role_permits
is_allowed roles subject action res [] = false
is_allowed roles subject action res (b ∷ bs) =
    if str_eq b.subject subject && role_permits action res (find? (named b.role) roles)
    then true
    else is_allowed roles subject action res bs

unfoldable pub ops_check : Policy → Option Bytes → Option Bytes → Option Bytes → Rc
unfolding is_allowed
ops_check pol subject action resource =
    if is_empty (or_empty subject) || is_empty (or_empty action)
    then err einval
    else if is_allowed pol.roles (or_empty subject) (or_empty action) (or_empty resource)
        pol.bindings
    then ok
    else err eacces
