-- ===== src/Samples/Policies.antt =====
-- Runs of permission/src/permission_impl.c on a policy with one role.
use hwrun_os_linux.Prelude.{
  ◌≢◌, ◌≡◌, ◌↔◌, refl, true, List, [], ◌∷◌, none, some, codes, find?, arith, Bytes-discrete,
}
use hwrun_os_linux.Errno.{Rc, enoent, ok, err, eacces}
use hwrun_os_linux.Permission.{Policy, ops_check, grant_locked, token_ok, or_empty}
use hwrun_os_linux.Permission.Glob.{glob_match, Matches, glob_match_iff}
use hwrun_os_linux.Permission.Check.{Granted, ops_check_iff}
use hwrun_os_linux.Permission.Valid.{IsValid}
use hwrun_os_linux.Permission.Ops.{perform}
use hwrun_os_linux.Permission.Keeps.{
  Request, role_add, role_add_perm, grant, revoke, serve_all, serve_all-IsValid,
}

-- alice is bound to the role `reader`, which may do every "fs.*".
abbrev pub policy : Policy
policy = record {
  roles =
      record {
        name = codes "reader";
        description = [];
        perms = record { action = codes "fs.*"; resource = [] } ∷ [];
      }
      ∷ [];
  bindings = record { subject = codes "alice"; role = codes "reader" } ∷ [];
}

pub policy-IsValid : IsValid policy
unfolding find? Bytes-discrete
policy-IsValid = record {
  names = (tt, tt);
  roles = ((omega arith, (refl, tt)), tt);
  bindings = (refl, tt);
  defined = (λ e. cc, tt);
}

reads : ops_check policy (some (codes "alice")) (some (codes "fs.read")) none ≡ ok
unfolding ops_check glob_match find? Bytes-discrete
reads = refl

cannot_stop : ops_check policy (some (codes "alice")) (some (codes "bus.stop")) none ≡ err eacces
unfolding ops_check glob_match find? Bytes-discrete
cannot_stop = refl

ops_check_iff_example :
    ((ops_check policy (some (codes "alice")) (some (codes "fs.read")) none ≡ ok)
      ↔ Granted policy (codes "alice") (codes "fs.read") (or_empty none))
    × ((ops_check policy (some (codes "alice")) (some (codes "fs.read")) none ≡ err eacces)
        ↔ (¬ Granted policy (codes "alice") (codes "fs.read") (or_empty none)))
ops_check_iff_example =
    ops_check_iff policy (codes "alice") (codes "fs.read") none (tt, tt) (λ e. cc) (λ e. cc)

glob_match_iff_example :
    (glob_match (codes "fs.*") (codes "fs.read") ≡ true) ↔ Matches (codes "fs.*") (codes "fs.read")
glob_match_iff_example = glob_match_iff (codes "fs.*") (codes "fs.read")

abbrev requests : List Request
requests =
    role_add true (some (codes "writer")) none
    ∷ role_add_perm (codes "writer") (some (codes "fs.write")) none
    ∷ grant true (some (codes "bob")) (some (codes "writer"))
    ∷ revoke (some (codes "alice")) (some (codes "reader"))
    ∷ []

serve_all-IsValid_example : IsValid (serve_all policy requests)
serve_all-IsValid_example = serve_all-IsValid requests policy policy-IsValid

-- No role is called nobody.
abbrev refused : Request
refused = grant true (some (codes "bob")) (some (codes "nobody"))

refused_returns : (perform policy refused).0.1 ≡ err enoent
unfolding perform grant_locked token_ok find? Bytes-discrete
refused_returns = refl

not_ok : (rc : Rc) → rc ≡ err enoent → rc ≢ ok
not_ok rc e f = cc
