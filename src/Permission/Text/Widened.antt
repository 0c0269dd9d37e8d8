-- ===== src/Permission/Text/Widened.antt =====
-- What state_read_locked of permission/src/permission_impl.c reads back of entries whose resource is made
-- of blanks.
use hwrun_os_linux.Prelude.{
  ◌≡◌, refl, ◌∙◌, ap, Bool, true, List, [], ◌∷◌, map, keep, some, inr, Bytes, All, arith,
}
use hwrun_os_linux.Prelude.Lines.{fgets_lines-unlines}
use hwrun_os_linux.Errno.{ok}
use hwrun_os_linux.Permission.{Perm, Role, Policy, token_ok, free_text_ok, permits}
use hwrun_os_linux.Permission.Glob.{glob_match}
use hwrun_os_linux.Permission.Valid.{IsValid}
use hwrun_os_linux.Permission.Words.{trim_ws}
use hwrun_os_linux.Permission.Text.{
  perm_lines, role_lines, grant_lines, policy_lines, policy_text, is_directive, directives,
  state_read_locked, first_comment, second_comment,
}
use hwrun_os_linux.Permission.Text.Lines.{PrintsPerm, PrintsRole, PrintsBinding}
use hwrun_os_linux.Permission.Text.Passes.{always}
use hwrun_os_linux.Permission.Text.RoundTrip.{role_line-Line, grant_lines-Line, read_lines}
use hwrun_os_linux.Permission.Text.Blank.{
  IsGaps, IsGaps-all, widened, widened_role, widened_policy, AllGive, no_line, more, AllGive-append,
  same_lines, lines_fit, lines_kept, perm_line-Gives,
}

-- The resources fit their fields.
abbrev pub ShortResources : List Perm → Type 0
ShortResources ps = All (λ p. free_text_ok p.resource 256 ≡ true) ps

perm_lines-AllGive :
    (name : Bytes) (ps : List Perm)
    → token_ok (some name) 64 ≡ true
    → All PrintsPerm (map widened ps)
    → ShortResources ps
    → AllGive (perm_lines name ps) (perm_lines name (map widened ps))
unfolding perm_lines
perm_lines-AllGive name [] h k t = no_line
perm_lines-AllGive name (p ∷ ps) h k t =
    more (perm_line-Gives name p h k.0 t.0) (perm_lines-AllGive name ps h k.1 t.1)

role_lines-AllGive :
    (rs : List Role)
    → All PrintsRole (map widened_role rs)
    → All (λ r. ShortResources r.perms) rs
    → AllGive (role_lines rs) (role_lines (map widened_role rs))
unfolding role_lines widened_role
role_lines-AllGive [] h t = no_line
role_lines-AllGive (r ∷ rs) h t = more (role_line-Line (widened_role r) h.0) (
    AllGive-append (perm_lines-AllGive r.name r.perms h.0.0 h.0.3 t.0)
      (role_lines-AllGive rs h.1 t.1))

directives-widened :
    (pol : Policy)
    → All PrintsRole (widened_policy pol).roles
    → All PrintsBinding pol.bindings
    → All (λ r. ShortResources r.perms) pol.roles
    → directives (policy_text pol) ≡ policy_lines (widened_policy pol)
unfolding directives policy_text policy_lines widened_policy keep trim_ws
directives-widened pol hr hb t =
    let given =
      AllGive-append (role_lines-AllGive pol.roles hr t)
        (same_lines (grant_lines pol.bindings) (grant_lines-Line pol.bindings hb)) in
    ap (λ x. keep is_directive (map trim_ws x))
      (fgets_lines-unlines 4096 (first_comment ∷ second_comment ∷ policy_lines pol)
        ((ground arith, omega arith), ((ground arith, omega arith), lines_fit given)))
    ∙ lines_kept given

-- Reading back the file that was written for a policy gives, with success, the policy in which every
-- entry with a resource of blanks and tabs only has the empty resource instead, and which is
-- otherwise the same; and such an entry then permits its actions on every resource. The policy so changed
-- is valid, its texts are as the file keeps them, the resources that were written fit their
-- fields, and there is memory for the lines and the records.
pub state_read-widened :
    (pol old : Policy) (missing_ok : Bool) (p : Perm) (action res : Bytes)
    → IsValid (widened_policy pol)
    → All PrintsRole (widened_policy pol).roles
    → All PrintsBinding pol.bindings
    → All (λ r. ShortResources r.perms) pol.roles
    → IsGaps p.resource
    → (state_read_locked always true missing_ok (inr (some (policy_text pol))) old
        ≡ (widened_policy pol, ok))
      × (permits action res (widened p ∷ []) ≡ glob_match p.action action)
unfolding state_read_locked permits widened widened_policy
state_read-widened pol old missing_ok p action res v hr hb t g =
    let (first, second) = read_lines (widened_policy pol) v hr hb in
    let lines = directives-widened pol hr hb t in
    (rw (lines, first, second) refl, rw (IsGaps-all p.resource g) (ground arith))
