-- ===== src/Permission/Text/Lines.antt =====
-- Single lines of the state file of permission/src/permission_impl.c, printed and read.
use hwrun_os_linux.Prelude.{
  ℕ, ◌<◌, ◌≡◌, refl, sym, ◌∙◌, ap, true, false, [], ◌∷◌, ◌++◌, append-nil, none, some, Bytes,
  Bytes-discrete, length, find?, fit, fit_all, leb, arith, All,
}
use hwrun_os_linux.Errno.{ok}
use hwrun_os_linux.Permission.{
  Perm, Role, Binding, Policy, named, binds, grants, role_max_perms, token_ok, free_text_ok,
  append_role_locked, append_binding_locked, role_add_perm_locked, change_role, add_perm,
}
use hwrun_os_linux.Permission.Words.{
  tail, word, take_tok, take_tok-token, IsTrimmed, trim_ws-trimmed, word-tail, token, token_OneLine,
}
use hwrun_os_linux.Permission.Text.{
  role_line, perm_line, grant_line, apply_role, apply_role_text, apply_perm, apply_perm_text,
  apply_grant, state_apply_line,
}

-- A perm that its line gives back.
abbrev pub PrintsPerm : Perm → Type 0
PrintsPerm p =
    (token_ok (some p.action) 64 ≡ true)
    × (free_text_ok p.resource 256 ≡ true)
    × IsTrimmed p.resource

abbrev pub PrintsRole : Role → Type 0
PrintsRole r =
    (token_ok (some r.name) 64 ≡ true)
    × (free_text_ok r.description 256 ≡ true)
    × IsTrimmed r.description
    × All PrintsPerm r.perms

abbrev pub PrintsBinding : Binding → Type 0
PrintsBinding b = (token_ok (some b.subject) 128 ≡ true) × (token_ok (some b.role) 64 ≡ true)

abbrev pub bare : Role → Role
bare r = record r { perms = [] }

fits : (s : Bytes) → free_text_ok s 256 ≡ true → fit 256 s ≡ s
unfolding free_text_ok
fits s h = fit_all 256 s (ground arith)

short_token : (cap : ℕ) (t : Bytes) → token_ok (some t) cap ≡ true → fit cap t ≡ t
short_token cap t h = let (_, short) = token_OneLine cap t h in fit_all cap t short

apply_role_text-new :
    (pol : Policy) (r : Role)
    → PrintsRole r
    → find? (named r.name) pol.roles ≡ none
    → apply_role_text true pol r.name r.description
      ≡ (record pol { roles = pol.roles ++ bare r ∷ [] }, ok)
unfolding apply_role_text
apply_role_text-new pol r h new =
    rw (h.0, h.1, new, append_role_locked, fits r.description h.1, short_token 64 r.name h.0) refl

apply_role-new :
    (pol : Policy) (r : Role)
    → PrintsRole r
    → find? (named r.name) pol.roles ≡ none
    → apply_role true pol r.name (tail r.description)
      ≡ (record pol { roles = pol.roles ++ bare r ∷ [] }, ok)
unfolding apply_role
apply_role-new pol r h new =
    ap (λ d. apply_role_text true pol r.name (fit 256 d)) (trim_ws-trimmed r.description h.2)
    ∙ ap (apply_role_text true pol r.name) (fits r.description h.1)
    ∙ apply_role_text-new pol r h new

-- The line of a role that is not there yet.
pub role_line-apply :
    (pol : Policy) (r : Role)
    → PrintsRole r
    → find? (named r.name) pol.roles ≡ none
    → state_apply_line true pol (role_line r)
      ≡ (record pol { roles = pol.roles ++ bare r ∷ [] }, ok)
unfolding state_apply_line Bytes-discrete
role_line-apply pol r h new =
    rw (take_tok-token 64 r.name (tail r.description) h.0 (word-tail r.description))
      (apply_role-new pol r h new)

apply_perm_text-new :
    (pol : Policy) (r : Role) (p : Perm)
    → PrintsPerm p
    → find? (named r.name) pol.roles ≡ some r
    → find? (grants p.action p.resource) r.perms ≡ none
    → length r.perms < role_max_perms
    → apply_perm_text pol r.name p.action p.resource
      ≡ (change_role (add_perm p.action p.resource) r.name pol, ok)
unfolding apply_perm_text
apply_perm_text-new pol r p h there new room =
    let short : leb role_max_perms (length r.perms) ≡ false = ground arith in
    rw (apply_perm_text, there, role_add_perm_locked, there, h.0, h.1, new, short) refl

apply_perm-new :
    (pol : Policy) (r : Role) (p : Perm)
    → PrintsPerm p
    → find? (named r.name) pol.roles ≡ some r
    → find? (grants p.action p.resource) r.perms ≡ none
    → length r.perms < role_max_perms
    → apply_perm pol r.name p.action (tail p.resource)
      ≡ (change_role (add_perm p.action p.resource) r.name pol, ok)
unfolding apply_perm
apply_perm-new pol r p h there new room =
    ap (λ d. apply_perm_text pol r.name p.action (fit 256 d)) (trim_ws-trimmed p.resource h.2)
    ∙ ap (apply_perm_text pol r.name p.action) (fits p.resource h.1)
    ∙ apply_perm_text-new pol r p h there new room

-- The line of an entry that its role has not yet.
pub perm_line-apply :
    (pol : Policy) (r : Role) (p : Perm)
    → token_ok (some r.name) 64 ≡ true
    → PrintsPerm p
    → find? (named r.name) pol.roles ≡ some r
    → find? (grants p.action p.resource) r.perms ≡ none
    → length r.perms < role_max_perms
    → state_apply_line true pol (perm_line r.name p)
      ≡ (change_role (add_perm p.action p.resource) r.name pol, ok)
unfolding state_apply_line Bytes-discrete
perm_line-apply pol r p name h there new room =
    rw
      (
        take_tok-token 64 r.name (32 ∷ (p.action ++ tail p.resource)) name refl,
        take_tok-token 64 p.action (tail p.resource) h.0 (word-tail p.resource),
      )
      (apply_perm-new pol r p h there new room)

apply_grant-new :
    (pol : Policy) (b : Binding) (r : Role)
    → PrintsBinding b
    → find? (named b.role) pol.roles ≡ some r
    → find? (binds b.subject b.role) pol.bindings ≡ none
    → apply_grant true pol b.subject b.role ≡ (record pol { bindings = pol.bindings ++ b ∷ [] }, ok)
unfolding apply_grant
apply_grant-new pol b r h there new =
    rw
      (
        apply_grant,
        there,
        new,
        append_binding_locked,
        short_token 128 b.subject h.0,
        short_token 64 b.role h.1,
      )
      refl

last_token :
    (cap : ℕ) (t : Bytes) → token_ok (some t) cap ≡ true → take_tok cap (32 ∷ t) ≡ (token t, [])
unfolding word
last_token cap t h =
    ap (λ x. take_tok cap (32 ∷ x)) (sym (append-nil t)) ∙ take_tok-token cap t [] h refl

-- The line of a binding that is not there yet.
pub grant_line-apply :
    (pol : Policy) (b : Binding) (r : Role)
    → PrintsBinding b
    → find? (named b.role) pol.roles ≡ some r
    → find? (binds b.subject b.role) pol.bindings ≡ none
    → state_apply_line true pol (grant_line b)
      ≡ (record pol { bindings = pol.bindings ++ b ∷ [] }, ok)
unfolding state_apply_line Bytes-discrete word
grant_line-apply pol b r h there new =
    rw (take_tok-token 128 b.subject (32 ∷ b.role) h.0 refl, last_token 64 b.role h.1)
      (apply_grant-new pol b r h there new)

pub add_perm-exact :
    (p : Perm) (r : Role)
    → PrintsPerm p
    → add_perm p.action p.resource r ≡ record r { perms = r.perms ++ p ∷ [] }
add_perm-exact p r h = rw (short_token 64 p.action h.0, fits p.resource h.1) refl
