-- ===== src/Permission/Text/RoundTrip.antt =====
-- What state_read_locked of permission/src/permission_impl.c reads from the file that
-- state_write_locked wrote.
use hwrun_os_linux.Prelude.{
  ℕ, ◌+◌, ◌≤◌, ◌<◌, ◌≡◌, ◌≢◌, refl, subst, ◌∙◌, ap, Bool, true, List, [], ◌∷◌, ◌++◌, append-nil,
  append_assoc, map, keep, none, some, Bytes, codes, length, length-append, find?, arith, All,
  All-append, inr,
}
use hwrun_os_linux.Prelude.Lines.{fgets_lines-unlines, newline, OneLine, ends_solid}
use hwrun_os_linux.Errno.{ok}
use hwrun_os_linux.Permission.{Perm, Role, Binding, Policy, binds, token_ok}
use hwrun_os_linux.Permission.Valid.{IsValid}
use hwrun_os_linux.Permission.Words.{
  tail, trim_ws, trim_ws-line, tail-solid, token_OneLine, text_OneLine,
}
use hwrun_os_linux.Permission.Text.{
  first_comment, second_comment, role_line, perm_line, grant_line, perm_lines, role_lines,
  grant_lines, policy_lines, policy_text, is_directive, directives, apply_roles, apply_others,
  state_read_locked, no_policy,
}
use hwrun_os_linux.Permission.Text.Lines.{PrintsPerm, PrintsRole, PrintsBinding, bare}
use hwrun_os_linux.Permission.Text.Passes.{
  always, FreshIn, with_roles, roles_pass, roles_skip_grants,
}
use hwrun_os_linux.Permission.Text.Others.{others_roles, others_grants}

-- A line that the file gives back.
abbrev pub Line : Bytes → Type 0
Line l =
    (OneLine l × (length l + 1 < 4096))
    × (trim_ws (l ++ newline ∷ []) ≡ l)
    × (is_directive l ≡ true)

abbrev IsLower : ℕ → Type 0
IsLower c = (97 ≤ c) × (c ≤ 122)

-- A word of the file and a blank, a token, and a text behind it.
spelled :
    (c cap : ℕ) (a t d : Bytes)
    → IsLower c
    → OneLine a
    → length a < 200
    → cap ≤ 128
    → token_ok (some t) cap ≡ true
    → OneLine (tail d)
    → length (tail d) < 300
    → ends_solid ((c ∷ a) ++ (t ++ tail d)) ≡ true
    → Line ((c ∷ a) ++ (t ++ tail d))
spelled c cap a t d low one short le h rest room ends =
    let (token_one, token_short) = token_OneLine cap t h in
    let inner = All-append (λ x. x ≢ newline) t (tail d) token_one rest in
    (
      (
        (ground arith, All-append (λ x. x ≢ newline) a (t ++ tail d) one inner),
        omega (
          arith,
          short,
          token_short,
          room,
          length-append a (t ++ tail d),
          length-append t (tail d),
        ),
      ),
      trim_ws-line c (a ++ (t ++ tail d)) (ground arith) ends,
      ground arith,
    )

perm_line_parts :
    (name rest : Bytes)
    → (codes "perm " ++ name ++ 32 ∷ []) ++ rest ≡ codes "perm " ++ name ++ 32 ∷ rest
perm_line_parts name rest = ap (λ x. codes "perm " ++ x) (append_assoc name (32 ∷ []) rest)

grant_line_parts :
    (subject role : Bytes)
    → (codes "grant " ++ subject ++ 32 ∷ []) ++ (role ++ [])
      ≡ codes "grant " ++ subject ++ 32 ∷ role
grant_line_parts subject role =
    ap (λ x. codes "grant " ++ x)
      (append_assoc subject (32 ∷ []) (role ++ []) ∙ ap (λ x. subject ++ 32 ∷ x) (append-nil role))

pub role_line-Line : (r : Role) → PrintsRole r → Line (role_line r)
role_line-Line r h =
    let (one, short) = text_OneLine 256 r.description h.1 in
    spelled b'r' 64 (codes "ole ") r.name r.description (omega arith, omega arith) (ground arith)
      (omega arith) (omega arith) h.0 one (omega (arith, short))
      (tail-solid 64 (codes "role ") r.name r.description h.0 h.2)

pub perm_line-Line :
    (name : Bytes) (p : Perm)
    → token_ok (some name) 64 ≡ true
    → PrintsPerm p
    → Line (perm_line name p)
perm_line-Line name p h k =
    let (one, short) = text_OneLine 256 p.resource k.1 in
    let (name_one, name_short) = token_OneLine 64 name h in
    let a = codes "erm " ++ name ++ 32 ∷ [] in
    subst Line (perm_line_parts name (p.action ++ tail p.resource)) (
      spelled b'p' 64 a p.action p.resource (omega arith, omega arith)
        (ground (arith, All-append (λ x. x ≢ newline) name (32 ∷ []) name_one (ground arith, tt)))
        (omega (arith, name_short, length-append name (32 ∷ []))) (omega arith) k.0 one
        (omega (arith, short)) (tail-solid 64 (b'p' ∷ a) p.action p.resource k.0 k.2))

grant_line-Line : (b : Binding) → PrintsBinding b → Line (grant_line b)
grant_line-Line b h =
    let (one, short) = token_OneLine 128 b.subject h.0 in
    let a = codes "rant " ++ b.subject ++ 32 ∷ [] in
    subst Line (grant_line_parts b.subject b.role) (
      spelled b'g' 64 a b.role [] (omega arith, omega arith)
        (ground (arith, All-append (λ x. x ≢ newline) b.subject (32 ∷ []) one (ground arith, tt)))
        (omega (arith, short, length-append b.subject (32 ∷ []))) (omega arith) h.1 tt (omega arith)
        (tail-solid 64 (b'g' ∷ a) b.role [] h.1 tt))

perm_lines-Line :
    (name : Bytes) (ps : List Perm)
    → token_ok (some name) 64 ≡ true
    → All PrintsPerm ps
    → All Line (perm_lines name ps)
unfolding perm_lines
perm_lines-Line name [] h k = tt
perm_lines-Line name (p ∷ ps) h k = (perm_line-Line name p h k.0, perm_lines-Line name ps h k.1)

role_lines-Line : (rs : List Role) → All PrintsRole rs → All Line (role_lines rs)
unfolding role_lines
role_lines-Line [] h = tt
role_lines-Line (r ∷ rs) h = (
  role_line-Line r h.0,
  All-append Line (perm_lines r.name r.perms) (role_lines rs)
      (perm_lines-Line r.name r.perms h.0.0 h.0.3) (role_lines-Line rs h.1),
)

pub grant_lines-Line : (bs : List Binding) → All PrintsBinding bs → All Line (grant_lines bs)
unfolding grant_lines
grant_lines-Line [] h = tt
grant_lines-Line (b ∷ bs) h = (grant_line-Line b h.0, grant_lines-Line bs h.1)

fit_lines : (ls : List Bytes) → All Line ls → All (λ l. OneLine l × (length l + 1 < 4096)) ls
fit_lines [] h = tt
fit_lines (l ∷ ls) h = (h.0.0, fit_lines ls h.1)

kept_lines :
    (ls : List Bytes)
    → All Line ls
    → keep is_directive (map trim_ws (map (λ l. l ++ newline ∷ []) ls)) ≡ ls
unfolding keep
kept_lines [] h = refl
kept_lines (l ∷ ls) h =
    ap (λ x. keep is_directive (x ∷ map trim_ws (map (λ y. y ++ newline ∷ []) ls))) h.0.1
    ∙ rw (h.0.2, keep) (ap (λ x. l ∷ x) (kept_lines ls h.1))

directives-policy_text :
    (pol : Policy)
    → All PrintsRole pol.roles
    → All PrintsBinding pol.bindings
    → directives (policy_text pol) ≡ policy_lines pol
unfolding directives policy_text policy_lines keep trim_ws
directives-policy_text pol hr hb =
    let lines =
      All-append Line (role_lines pol.roles) (grant_lines pol.bindings)
        (role_lines-Line pol.roles hr) (grant_lines-Line pol.bindings hb) in
    ap (λ x. keep is_directive (map trim_ws x))
      (fgets_lines-unlines 4096 (first_comment ∷ second_comment ∷ policy_lines pol) (
        (ground arith, omega arith),
        ((ground arith, omega arith), fit_lines (policy_lines pol) lines),
      ))
    ∙ kept_lines (policy_lines pol) lines

none_fresh : (rs : List Role) → FreshIn [] rs
unfolding find?
none_fresh [] = tt
none_fresh (r ∷ rs) = (refl, none_fresh rs)

none_bound : (bs : List Binding) → All (λ b. find? (binds b.subject b.role) [] ≡ none) bs
unfolding find?
none_bound [] = tt
none_bound (b ∷ bs) = (refl, none_bound bs)

pub read_lines :
    (pol : Policy)
    → IsValid pol
    → All PrintsRole pol.roles
    → All PrintsBinding pol.bindings
    → (apply_roles always 0 no_policy ok (policy_lines pol)
        ≡ (with_roles [] (map bare pol.roles), ok))
      × (apply_others always 0 (with_roles [] (map bare pol.roles)) (policy_lines pol) ≡ pol)
unfolding policy_lines
read_lines pol v hr hb =
    let grants = grant_lines pol.bindings in
    (
      roles_pass pol.roles [] [] grants hr v.names (none_fresh pol.roles)
          ∙ roles_skip_grants (with_roles [] (map bare pol.roles)) ok pol.bindings,
      others_roles pol.roles [] [] grants hr v.roles v.names (none_fresh pol.roles)
          ∙ others_grants pol.bindings [] pol.roles hb v.defined v.bindings
              (none_bound pol.bindings),
    )

-- The policy that the state file holds is read back as it was written, roles, entries and bindings in
-- their order, with success and whatever the policy in memory was. It is a valid policy, whose names,
-- subjects and actions are tokens and whose descriptions and resources neither begin nor end with
-- a blank, and there is memory for the lines and the records.
pub state_read-policy_text :
    (pol old : Policy) (missing_ok : Bool)
    → IsValid pol
    → All PrintsRole pol.roles
    → All PrintsBinding pol.bindings
    → state_read_locked always true missing_ok (inr (some (policy_text pol))) old ≡ (pol, ok)
unfolding state_read_locked
state_read-policy_text pol old missing_ok v hr hb =
    let (first, second) = read_lines pol v hr hb in
    let lines = directives-policy_text pol hr hb in rw (lines, first, second) refl
