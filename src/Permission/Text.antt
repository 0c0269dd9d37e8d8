-- ===== src/Permission/Text.antt =====
-- The state file of permission/src/permission_impl.c: its text, and the loops that read it.
-- `alloc` says of each line whether the `calloc` that it may ask for succeeds.
pub mod Lines
pub mod Passes
pub mod Others
pub mod RoundTrip
pub mod Blank
pub mod Widened
use hwrun_os_linux.Prelude.{
  ℕ, ◌+◌, Bool, true, false, not, ◌&&◌, ◌||◌, List, [], ◌∷◌, ◌++◌, Option, none, some, Bytes, codes,
  length, str_eq, is_empty, keep, map, fit, if◌then◌else◌, ltb, leb, ◌==◌, ◌⊎◌, inl, inr,
}
use hwrun_os_linux.Prelude.Lines.{fgets_lines, unlines}
use hwrun_os_linux.Errno.{Errno, Rc, ok, err, einval, enoent, enomem, eexist}
use hwrun_os_linux.Permission.{
  Perm, Role, Binding, Policy, name_max, desc_max, subject_max, action_max, resource_max, token_ok,
  free_text_ok, find_role_locked, find_binding_locked, append_role_locked, append_binding_locked,
  role_add_perm_locked,
}
use hwrun_os_linux.Permission.Words.{tail, trim_ws, take_tok, Taken, no_token, too_long, token}

abbrev pub first_comment : Bytes
first_comment =
    35 ∷ 32 ∷ 72 ∷ 87 ∷ 82 ∷ 117 ∷ 110 ∷ 32 ∷ 79 ∷ 83 ∷ 32 ∷ 80 ∷ 69 ∷ 82 ∷ 77 ∷ 73 ∷ 83 ∷ 83 ∷ 73
    ∷ 79 ∷ 78 ∷ 32 ∷ 231 ∷ 148 ∷ 168 ∷ 230 ∷ 136 ∷ 183 ∷ 230 ∷ 128 ∷ 129 ∷ 32 ∷ 82 ∷ 66 ∷ 65 ∷ 67
    ∷ 32 ∷ 231 ∷ 138 ∷ 182 ∷ 230 ∷ 128 ∷ 129 ∷ 230 ∷ 150 ∷ 135 ∷ 228 ∷ 187 ∷ 182 ∷ 32 ∷ 118 ∷ 49
    ∷ []

abbrev pub second_comment : Bytes
second_comment =
    35 ∷ 32 ∷ 232 ∷ 161 ∷ 140 ∷ 230 ∷ 160 ∷ 188 ∷ 229 ∷ 188 ∷ 143 ∷ 58 ∷ 32 ∷ 114 ∷ 111 ∷ 108 ∷ 101
    ∷ 32 ∷ 60 ∷ 232 ∷ 167 ∷ 146 ∷ 232 ∷ 137 ∷ 178 ∷ 62 ∷ 32 ∷ 91 ∷ 230 ∷ 143 ∷ 143 ∷ 232 ∷ 191 ∷ 176
    ∷ 93 ∷ 32 ∷ 124 ∷ 32 ∷ 112 ∷ 101 ∷ 114 ∷ 109 ∷ 32 ∷ 60 ∷ 232 ∷ 167 ∷ 146 ∷ 232 ∷ 137 ∷ 178 ∷ 62
    ∷ 32 ∷ 60 ∷ 229 ∷ 138 ∷ 168 ∷ 228 ∷ 189 ∷ 156 ∷ 230 ∷ 168 ∷ 161 ∷ 229 ∷ 188 ∷ 143 ∷ 62 ∷ 32 ∷ 91
    ∷ 232 ∷ 181 ∷ 132 ∷ 230 ∷ 186 ∷ 144 ∷ 230 ∷ 168 ∷ 161 ∷ 229 ∷ 188 ∷ 143 ∷ 93 ∷ 32 ∷ 124 ∷ 32
    ∷ 103 ∷ 114 ∷ 97 ∷ 110 ∷ 116 ∷ 32 ∷ 60 ∷ 228 ∷ 184 ∷ 187 ∷ 228 ∷ 189 ∷ 147 ∷ 62 ∷ 32 ∷ 60 ∷ 232
    ∷ 167 ∷ 146 ∷ 232 ∷ 137 ∷ 178 ∷ 62 ∷ []

abbrev pub role_line : Role → Bytes
role_line r = codes "role " ++ r.name ++ tail r.description

abbrev pub perm_line : Bytes → Perm → Bytes
perm_line name p = codes "perm " ++ name ++ 32 ∷ (p.action ++ tail p.resource)

abbrev pub grant_line : Binding → Bytes
grant_line b = codes "grant " ++ b.subject ++ 32 ∷ b.role

unfoldable pub perm_lines : Bytes → List Perm → List Bytes
perm_lines name [] = []
perm_lines name (p ∷ ps) = perm_line name p ∷ perm_lines name ps

unfoldable pub role_lines : List Role → List Bytes
unfolding perm_lines
role_lines [] = []
role_lines (r ∷ rs) = role_line r ∷ (perm_lines r.name r.perms ++ role_lines rs)

unfoldable pub grant_lines : List Binding → List Bytes
grant_lines [] = []
grant_lines (b ∷ bs) = grant_line b ∷ grant_lines bs

unfoldable pub policy_lines : Policy → List Bytes
unfolding role_lines grant_lines
policy_lines pol = role_lines pol.roles ++ grant_lines pol.bindings

-- What state_write_locked writes.
unfoldable pub policy_text : Policy → Bytes
unfolding policy_lines unlines
policy_text pol = unlines (first_comment ∷ second_comment ∷ policy_lines pol)

abbrev added : Policy → Option Policy → Policy × Rc
added pol none = (pol, err enomem)
added pol (some pol') = (pol', ok)

-- The next word, or EINVAL.
abbrev with_token : Policy → Taken × Bytes → (Bytes → Bytes → Policy × Rc) → Policy × Rc
with_token pol (no_token, rest) go = (pol, err einval)
with_token pol (too_long, rest) go = (pol, err einval)
with_token pol (token t, rest) go = go t rest

unfoldable pub apply_role_text : Bool → Policy → Bytes → Bytes → Policy × Rc
unfolding token_ok free_text_ok find_role_locked append_role_locked
apply_role_text alloc pol name desc =
    if not (token_ok (some name) name_max)
    then (pol, err einval)
    else if not (free_text_ok desc desc_max)
    then (pol, err einval)
    else elim (find_role_locked pol name) [
      | some _ ↦ (pol, ok)
      | none ↦ added pol (append_role_locked alloc pol name (some desc))
    ]

unfoldable pub apply_role : Bool → Policy → Bytes → Bytes → Policy × Rc
unfolding apply_role_text trim_ws
apply_role alloc pol name rest = apply_role_text alloc pol name (fit desc_max (trim_ws rest))

-- An entry that is there already is no failure.
abbrev tolerated : Policy × Rc → Policy × Rc
tolerated (pol, err eexist) = (pol, ok)
tolerated (pol, rc) = (pol, rc)

unfoldable pub apply_perm_text : Policy → Bytes → Bytes → Bytes → Policy × Rc
unfolding find_role_locked role_add_perm_locked
apply_perm_text pol role action resource = elim (find_role_locked pol role) [
  | none ↦ (pol, err enoent)
  | some _ ↦ tolerated (role_add_perm_locked pol role (some action) (some resource))
]

unfoldable pub apply_perm : Policy → Bytes → Bytes → Bytes → Policy × Rc
unfolding apply_perm_text trim_ws
apply_perm pol role action rest = apply_perm_text pol role action (fit resource_max (trim_ws rest))

unfoldable pub apply_grant : Bool → Policy → Bytes → Bytes → Policy × Rc
unfolding find_role_locked find_binding_locked append_binding_locked
apply_grant alloc pol subject role = elim (find_role_locked pol role) [
  | none ↦ (pol, err enoent)
  | some _ ↦ elim (find_binding_locked pol subject role) [
    | some _ ↦ (pol, ok)
    | none ↦ added pol (append_binding_locked alloc pol subject role)
  ]
]

-- By the first word of a line.
unfoldable pub apply_kind : Bool → Policy → Bytes → Bytes → Policy × Rc
unfolding apply_role apply_perm apply_grant take_tok
apply_kind alloc pol kind rest =
    if str_eq kind (codes "role")
    then with_token pol (take_tok name_max rest) (λ name p. apply_role alloc pol name p)
    else if str_eq kind (codes "perm")
    then with_token pol (take_tok name_max rest) (λ role p.
      with_token pol (take_tok action_max p) (λ action q. apply_perm pol role action q))
    else if str_eq kind (codes "grant")
    then with_token pol (take_tok subject_max rest) (λ subject p.
      with_token pol (take_tok name_max p) (λ role q. apply_grant alloc pol subject role))
    else (pol, err einval)

unfoldable pub state_apply_line : Bool → Policy → Bytes → Policy × Rc
unfolding apply_kind
state_apply_line alloc pol line =
    with_token pol (take_tok 16 line) (λ kind p. apply_kind alloc pol kind p)

-- strncmp (line, prefix, strlen (prefix)) == 0
unfoldable pub begins : Bytes → Bytes → Bool
begins [] line = true
begins (c ∷ s) [] = false
begins (c ∷ s) (d ∷ line) = c == d && begins s line

-- The first error but EINVAL is followed by a later one.
abbrev worse : Rc → Rc → Rc
worse rc ok = rc
worse rc (err einval) = rc
worse rc (err e) = err e

-- The loop over the lines that define roles; `i` numbers the lines.
unfoldable pub apply_roles : (ℕ → Bool) → ℕ → Policy → Rc → List Bytes → Policy × Rc
unfolding state_apply_line begins
apply_roles alloc i pol rc [] = (pol, rc)
apply_roles alloc i pol rc (l ∷ ls) = elim (begins (codes "role") l) [
  | true ↦
      (let out = state_apply_line (alloc i) pol l in
        apply_roles alloc (i + 1) out.0 (worse rc out.1) ls)
  | false ↦ apply_roles alloc (i + 1) pol rc ls
]

-- The loop over the others, which skips those that fail.
unfoldable pub apply_others : (ℕ → Bool) → ℕ → Policy → List Bytes → Policy
unfolding state_apply_line begins
apply_others alloc i pol [] = pol
apply_others alloc i pol (l ∷ ls) = elim (begins (codes "perm") l || begins (codes "grant") l) [
  | true ↦ apply_others alloc (i + 1) (state_apply_line (alloc i) pol l).0 ls
  | false ↦ apply_others alloc (i + 1) pol ls
]

abbrev pub is_directive : Bytes → Bool
is_directive [] = false
is_directive (c ∷ s) = not (c == b'#')

-- The lines of a file, trimmed, without the empty ones and the comments.
unfoldable pub directives : Bytes → List Bytes
unfolding trim_ws fgets_lines
directives text = keep is_directive (map trim_ws (fgets_lines 4096 [] text))

abbrev pub no_policy : Policy
no_policy = record { roles = []; bindings = [] }

-- The policy that the file gives; `held` says whether its lines could be kept in memory, and `file` is
-- what fopen and fgets give: an error, no file, or its text.
unfoldable pub state_read_locked :
    (ℕ → Bool) → Bool → Bool → Errno ⊎ Option Bytes → Policy → Policy × Rc
unfolding directives apply_roles apply_others
state_read_locked alloc held missing_ok (inl e) pol = (pol, err e)
state_read_locked alloc held missing_ok (inr none) pol =
    (pol, if missing_ok then ok else err enoent)
state_read_locked alloc held missing_ok (inr (some text)) pol =
    if held
    then (let lines = directives text in
        let with_roles = apply_roles alloc 0 no_policy ok lines in
        (apply_others alloc 0 with_roles.0 lines, with_roles.1))
    else (pol, err enomem)
