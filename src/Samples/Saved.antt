-- ===== src/Samples/Saved.antt =====
-- The state file of permission/src/permission_impl.c on a small file system, and the registry of
-- bus/src/metaproto.c against a table.
use hwrun_os_linux.Prelude.{
  ◌≡◌, refl, sym, subst, true, false, List, [], ◌∷◌, Option, none, some, Bytes, Bytes-discrete,
  codes, str_eq, fit, if◌then◌else◌, arith, All, inr,
}
use hwrun_os_linux.Errno.{Rc, ok, err, enoent}
use hwrun_os_linux.Permission.{Perm, Policy, token_ok, free_text_ok, permits}
use hwrun_os_linux.Permission.Glob.{glob_match}
use hwrun_os_linux.Permission.Text.{state_read_locked, policy_text}
use hwrun_os_linux.Permission.Text.Blank.{widened, widened_policy}
use hwrun_os_linux.Permission.Text.Widened.{ShortResources, state_read-widened}
use hwrun_os_linux.Permission.Valid.{IsValid}
use hwrun_os_linux.Permission.Text.Lines.{PrintsRole, PrintsBinding}
use hwrun_os_linux.Permission.Text.Passes.{always}
use hwrun_os_linux.Permission.State.{
  Files, written, Durable, Env, Ctx, ops_save, ops_load, save-load,
}
use hwrun_os_linux.Metaproto.Providers.{provider}
use hwrun_os_linux.Metaproto.Refine.{
  Call, provide, withdraw, table_run, registry_run, registry_run-table_run,
}
use hwrun_os_linux.Samples.Policies.{policy, policy-IsValid}
use hwrun_os_linux.Samples.Protocols.{fs, storage, fs_registry, fs_registry-IsValid}

abbrev Disk : Type 0
Disk = List (Bytes × Bytes)

stored : Disk → Bytes → Option Bytes
stored [] path = none
stored ((name, text) ∷ disk) path = if str_eq name path then some text else stored disk path

abbrev renamed : Disk → Bytes → Option Bytes → Disk × Rc
renamed disk to none = (disk, err enoent)
renamed disk to (some text) = ((to, text) ∷ disk, ok)

abbrev small_files : Files Disk
unfolding stored
small_files = record {
  write = λ disk path text. ((path, text) ∷ disk, written);
  rename = λ disk from to. renamed disk to (stored disk from);
  unlink = λ disk path. disk;
  read = λ disk path. inr (stored disk path);
}

small_files-Durable : Durable small_files
unfolding stored
small_files-Durable disk tmp file text h e =
    let first : str_eq tmp tmp ≡ true = ground arith in
    let second : str_eq file file ≡ true = ground arith in rw (first, second) refl

abbrev env : Env
env = record { permission_state = none; hwrun_state = none }

abbrev saved_ctx : Ctx Disk
saved_ctx = record { policy = policy; state_file = []; disk = [] }

abbrev place : Bytes
place = codes "/state/permission.state"

policy_prints : All PrintsRole policy.roles × All PrintsBinding policy.bindings
unfolding token_ok free_text_ok
policy_prints = (((refl, refl, tt, ((refl, refl, tt), tt)), tt), ((refl, refl), tt))

policy_saves : (ops_save small_files env saved_ctx (some place)).1 ≡ ok
unfolding ops_save small_files stored fit Bytes-discrete
policy_saves = refl

abbrev emptied : Ctx Disk
emptied = record {
  policy = record { roles = []; bindings = [] };
  state_file = [];
  disk = (ops_save small_files env saved_ctx (some place)).0.disk;
}

save-load_example :
    let out = ops_load small_files always true env emptied (some place) in
    (out.0.policy ≡ policy) × (out.1 ≡ ok)
save-load_example =
    save-load small_files small_files-Durable env env saved_ctx emptied place policy-IsValid
      policy_prints.0 policy_prints.1 policy_saves refl

-- An entry for the resource of two blanks, in a policy with nothing else.
abbrev blank_perm : Perm
blank_perm = record { action = codes "fs.*"; resource = codes "  " }

abbrev blank_policy : Policy
blank_policy = record {
  roles = record { name = codes "reader"; description = []; perms = blank_perm ∷ [] } ∷ [];
  bindings = record { subject = codes "alice"; role = codes "reader" } ∷ [];
}

widened_policy-policy : widened_policy blank_policy ≡ policy
unfolding widened_policy
widened_policy-policy = refl

short_resources : All (λ r. ShortResources r.perms) blank_policy.roles
unfolding free_text_ok
short_resources = ((refl, tt), tt)

state_read-widened_example :
    (state_read_locked always true false (inr (some (policy_text blank_policy))) policy
      ≡ (widened_policy blank_policy, ok))
    × (permits (codes "fs.read") (codes "/etc") (widened blank_perm ∷ [])
        ≡ glob_match (codes "fs.*") (codes "fs.read"))
state_read-widened_example =
    state_read-widened blank_policy policy false blank_perm (codes "fs.read") (codes "/etc")
      (subst IsValid (sym widened_policy-policy) policy-IsValid)
      (subst (λ x. All PrintsRole x.roles) (sym widened_policy-policy) policy_prints.0)
      policy_prints.1 short_resources (refl, (refl, tt))

abbrev calls : List Call
calls = provide fs (some (codes "2.0")) storage 9 ∷ withdraw fs storage ∷ withdraw fs storage ∷ []

registry_run-table_run_example :
    (provider (registry_run fs_registry calls).0.routes
      ≡ (table_run (provider fs_registry.routes) calls).0)
    × ((registry_run fs_registry calls).1 ≡ (table_run (provider fs_registry.routes) calls).1)
registry_run-table_run_example =
    registry_run-table_run calls fs_registry fs_registry-IsValid refl
      ((omega arith, omega arith), (tt, (tt, tt)))
