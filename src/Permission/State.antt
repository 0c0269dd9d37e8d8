-- ===== src/Permission/State.antt =====
-- The files of permission/src/permission_impl.c: where the policy is kept, its writing and its loading.
-- The calls of the system are a parameter, `Files`; `Env` has the two variables of the environment.
use hwrun_os_linux.Prelude.{
  ℕ, ◌≡◌, ◌∙◌, ap, Bool, true, false, [], ◌++◌, Option, none, some, Bytes, codes, length, is_empty,
  fit, if◌then◌else◌, leb, arith, All, ◌⊎◌, inr,
}
use hwrun_os_linux.Errno.{Errno, Rc, ok, err, eio, enametoolong}
use hwrun_os_linux.Permission.{Policy}
use hwrun_os_linux.Permission.Valid.{IsValid}
use hwrun_os_linux.Permission.Text.{policy_text, state_read_locked, no_policy}
use hwrun_os_linux.Permission.Text.Lines.{PrintsRole, PrintsBinding}
use hwrun_os_linux.Permission.Text.Passes.{always}
use hwrun_os_linux.Permission.Text.RoundTrip.{state_read-policy_text}

-- How the write of a file ends: without a descriptor, without a stream, with an error of fclose, or as
-- intended.
pub data Written : Type 0 where
  written not_closed : Written
  not_opened no_stream : Errno → Written

pub record Files (F : Type 0) : Type 0 where
  -- open, fdopen, fprintf and fclose
  pub write : F → Bytes → Bytes → F × Written
  pub rename : F → Bytes → Bytes → F × Rc
  pub unlink : F → Bytes → F
  -- fopen, and the text; none where the file is not there
  pub read : F → Bytes → Errno ⊎ Option Bytes

-- PERMISSION_STATE and HWRUN_STATE
pub record Env : Type 0 where
  pub permission_state : Option Bytes
  pub hwrun_state : Option Bytes

-- g_ctx, and the files
pub record Ctx (F : Type 0) : Type 0 where
  pub policy : Policy
  pub state_file : Bytes
  pub disk : F

abbrev from_dir : Option Bytes → Bytes
from_dir none = codes "/var/lib/hwrun/permission.state"
from_dir (some d) =
    if is_empty d then codes "/var/lib/hwrun/permission.state" else d ++ codes "/permission.state"

abbrev from_file : Option Bytes → Bytes → Bytes
from_file none other = other
from_file (some p) other = if is_empty p then other else p

unfoldable pub default_state_path : ℕ → Env → Bytes
default_state_path cap env = fit cap (from_file env.permission_state (from_dir env.hwrun_state))

abbrev tmp_of : Bytes → Bytes
tmp_of path = fit 600 (path ++ codes ".tmp")

-- The path of a call: its argument, or the present one, or else the default, which is kept then.
unfoldable pub chosen : Env → Bytes → Option Bytes → Bytes × Bytes
unfolding default_state_path
chosen env file (some path) = (file, fit 600 path)
chosen env file none =
    let file' = if is_empty file then default_state_path 512 env else file in (file', fit 600 file')

module _ {F : Type 0} (fs : Files F) where
  unfoldable pub state_write_locked : F → Bytes → Policy → F × Rc
  unfolding policy_text
  state_write_locked f path pol =
      (let out = fs.write f (tmp_of path) (policy_text pol) in
        elim out.1 [
          | not_opened e ↦ (out.0, err e)
          | no_stream e ↦ (fs.unlink out.0 (tmp_of path), err e)
          | not_closed ↦ (fs.unlink out.0 (tmp_of path), err eio)
          | written ↦
              (let moved = fs.rename out.0 (tmp_of path) path in
                elim moved.1 [
                  | ok ↦ (moved.0, ok)
                  | err e ↦ (fs.unlink moved.0 (tmp_of path), err e)
                ])
        ])

  -- A failure is logged only.
  unfoldable pub autosave_state : Ctx F → Ctx F
  unfolding state_write_locked
  autosave_state ctx =
      if is_empty ctx.state_file
      then ctx
      else record ctx { disk = (state_write_locked ctx.disk ctx.state_file ctx.policy).0 }

  unfoldable pub ops_set_state_file : Env → Ctx F → Option Bytes → Ctx F × Rc
  unfolding default_state_path
  ops_set_state_file env ctx none = (record ctx { state_file = default_state_path 512 env }, ok)
  ops_set_state_file env ctx (some path) =
      if leb 512 (length path)
      then (ctx, err enametoolong)
      else (record ctx { state_file = fit 512 path }, ok)

  unfoldable pub ops_save : Env → Ctx F → Option Bytes → Ctx F × Rc
  unfolding chosen state_write_locked
  ops_save env ctx path =
      (let place = chosen env ctx.state_file path in
        let out = state_write_locked ctx.disk place.1 ctx.policy in
        (record ctx { state_file = place.0; disk = out.0 }, out.1))

  unfoldable pub ops_load : (ℕ → Bool) → Bool → Env → Ctx F → Option Bytes → Ctx F × Rc
  unfolding chosen state_read_locked
  ops_load alloc held env ctx path =
      (let place = chosen env ctx.state_file path in
        let out = state_read_locked alloc held false (fs.read ctx.disk place.1) ctx.policy in
        (record ctx { state_file = place.0; policy = out.0 }, out.1))

  -- A start that could not load the policy is logged, and succeeds all the same.
  unfoldable pub hw_permission_state_open : (ℕ → Bool) → Bool → Env → Ctx F → Ctx F × Rc
  unfolding default_state_path state_read_locked
  hw_permission_state_open alloc held env ctx =
      (let file = default_state_path 512 env in
        (
          record ctx {
            state_file = file;
            policy = (state_read_locked alloc held true (fs.read ctx.disk file) ctx.policy).0;
          },
          ok,
        ))

  unfoldable pub hw_permission_state_close : Ctx F → Ctx F
  hw_permission_state_close ctx = record ctx { policy = no_policy; state_file = [] }

-- A file that was written to its end and closed, and then renamed, is there under its new name.
abbrev pub Durable : {F : Type 0} → Files F → Type 0
Durable {F} fs =
    (f : F) (tmp file text : Bytes)
    → (fs.write f tmp text).1 ≡ written
    → (fs.rename (fs.write f tmp text).0 tmp file).1 ≡ ok
    → fs.read (fs.rename (fs.write f tmp text).0 tmp file).0 file ≡ inr (some text)

module _ {F : Type 0} (fs : Files F) (durable : Durable fs) where
  write-read :
      (f : F) (path : Bytes) (pol : Policy)
      → (state_write_locked fs f path pol).1 ≡ ok
      → fs.read (state_write_locked fs f path pol).0 path ≡ inr (some (policy_text pol))
  unfolding state_write_locked
  write-read f path pol h = ground (arith, durable f (tmp_of path) path (policy_text pol))

  -- On files that can be read under the name that they were renamed to: when a policy has been saved
  -- with success under a path, loading that path in any later context with the same files succeeds and
  -- gives the policy. The policy is valid, its texts are as the file keeps them, and there is memory.
  pub save-load :
      (env env' : Env) (ctx later : Ctx F) (path : Bytes)
      → IsValid ctx.policy
      → All PrintsRole ctx.policy.roles
      → All PrintsBinding ctx.policy.bindings
      → (ops_save fs env ctx (some path)).1 ≡ ok
      → later.disk ≡ (ops_save fs env ctx (some path)).0.disk
      → let out = ops_load fs always true env' later (some path) in
        (out.0.policy ≡ ctx.policy) × (out.1 ≡ ok)
  unfolding ops_save ops_load chosen
  save-load env env' ctx later path v hr hb saved same =
      let file =
        ap (λ f. fs.read f (fit 600 path)) same
        ∙ write-read ctx.disk (fit 600 path) ctx.policy saved in
      let read =
        ap (λ x. state_read_locked always true false x later.policy) file
        ∙ state_read-policy_text ctx.policy later.policy false v hr hb in
      (ap (λ x. x.0) read, ap (λ x. x.1) read)
