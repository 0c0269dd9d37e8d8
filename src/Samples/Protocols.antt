-- ===== src/Samples/Protocols.antt =====
-- Runs of bus/src/metaproto.c on small registries.
use mathlib.Core.Option
use hwrun_os_linux.Prelude.{
  ℕ, pos, map, take, suc, ◌≡◌, ◌≢◌, ◌↔◌, refl, true, false, ◌&&◌, [], ◌∷◌, none, some, Bytes, codes,
  str_eq, length, find?, if◌then◌else◌, arith, All, strtol,
}
use hwrun_os_linux.Errno.{ok, err, enoent}
use hwrun_os_linux.Metaproto.{
  started, Registry, hw_metaproto_register, hw_metaproto_unregister, hw_metaproto_resolve,
  hw_metaproto_check_deps, new_route, replaced,
}
use hwrun_os_linux.Metaproto.Version.{
  hw_proto_version_compat, hw_proto_version_cmp, version_segments, Serves, opposite,
  version_compat_iff, version_cmp_antisym,
}
use hwrun_os_linux.Metaproto.Providers.{key, provider, provider-register}
use hwrun_os_linux.Metaproto.Unique.{IsValid, provider-unregister}
use hwrun_os_linux.Metaproto.Resolve.{FirstAnswer, resolve-FirstAnswer, check_deps_iff}
use hwrun_os_linux.Metaproto.LongNames.{register-long}

abbrev pub fs : Bytes
fs = codes "FS"

abbrev pub storage : Bytes
storage = codes "storage"

abbrev pub fs_registry : Registry
fs_registry = record {
  routes =
      record {
        protocol = fs;
        version = codes "1.2";
        plugin_id = storage;
        implementation = 7;
        provider_state = started;
        kernel_backed = false;
      }
      ∷ [];
  subscribers = [];
  state_file = [];
  initialized = true;
}

pub fs_registry-IsValid : IsValid fs_registry
unfolding find?
fs_registry-IsValid = record { unique = (refl, tt); fits = ((omega arith, omega arith), tt) }

-- A name of 64 bytes.
abbrev x8 : Bytes → Bytes
x8 s = 120 ∷ 120 ∷ 120 ∷ 120 ∷ 120 ∷ 120 ∷ 120 ∷ 120 ∷ s

abbrev long_name : Bytes
long_name = x8 (x8 (x8 (x8 (x8 (x8 (x8 (x8 [])))))))

provider-register_example :
    let out = hw_metaproto_register true fs_registry (some fs) none (some storage) 9 in
    (out.1 ≡ ok)
    × (map key out.0.routes ≡ (elim (provider fs_registry.routes fs storage) [
      | some r ↦ map key fs_registry.routes
      | none ↦ (fs, storage) ∷ map key fs_registry.routes
    ]))
    × (provider out.0.routes fs storage ≡ (
        if str_eq fs fs && str_eq storage storage
        then elim (provider fs_registry.routes fs storage) [
          | some r ↦ some (replaced none 9 r)
          | none ↦ some (new_route fs none storage 9)
        ]
        else provider fs_registry.routes fs storage))
provider-register_example =
    provider-register fs_registry fs storage fs storage none 9 refl (omega arith) (omega arith)

provider-unregister_example :
    let out = hw_metaproto_unregister fs_registry (some fs) (some storage) in
    (out.1 ≡ (elim (provider fs_registry.routes fs storage) [ none ↦ err enoent | some _ ↦ ok ]))
    × (provider out.0.routes fs storage ≡ (
        if str_eq fs fs && str_eq storage storage
        then none
        else provider fs_registry.routes fs storage))
provider-unregister_example =
    provider-unregister fs_registry fs storage fs storage fs_registry-IsValid

resolve-FirstAnswer_example :
    let out = hw_metaproto_resolve fs_registry (some fs) (some (codes "1.1")) in
    FirstAnswer fs (some (codes "1.1")) fs_registry.routes out.1
    × (out.0 ≡ (elim out.1 [ none ↦ err enoent | some _ ↦ ok ]))
resolve-FirstAnswer_example = resolve-FirstAnswer fs_registry fs (some (codes "1.1"))

check_deps_iff_example :
    ((hw_metaproto_check_deps fs_registry (some (fs ∷ [])) (pos 1) 64).0 ≡ ok) ↔ (
      (n : ℕ) × (pos 1 ≡ pos n)
      × All (λ p. (hw_metaproto_resolve fs_registry (some p) none).0 ≡ ok) (take n (fs ∷ [])))
check_deps_iff_example = check_deps_iff fs_registry (fs ∷ []) (pos 1) 64

version_compat_iff_example :
    (hw_proto_version_compat (codes "1.2") (codes "1.1") ≡ true)
    ↔ Serves (version_segments (codes "1.2")) (version_segments (codes "1.1"))
version_compat_iff_example = version_compat_iff (codes "1.2") (codes "1.1")

serves_1_2 : hw_proto_version_compat (codes "1.3") (codes "1.2") ≡ true
unfolding hw_proto_version_compat version_segments strtol
serves_1_2 = refl

serves_1_1 : hw_proto_version_compat (codes "1.2") (codes "1.1") ≡ true
unfolding hw_proto_version_compat version_segments strtol
serves_1_1 = refl

version_cmp_antisym_example :
    (hw_proto_version_cmp (codes "1.2") (codes "1.10") ≢ none)
    × (hw_proto_version_cmp (codes "1.10") (codes "1.2")
        ≡ Option.map opposite (hw_proto_version_cmp (codes "1.2") (codes "1.10")))
version_cmp_antisym_example = version_cmp_antisym (codes "1.2") (codes "1.10")

register-long_example :
    let out = hw_metaproto_register true fs_registry (some long_name) none (some storage) 9 in
    (out.1 ≡ ok)
    × (length out.0.routes ≡ suc (length fs_registry.routes))
    × ((hw_metaproto_resolve out.0 (some long_name) none).0 ≡ err enoent)
    × ((hw_metaproto_unregister out.0 (some long_name) (some storage)).1 ≡ err enoent)
register-long_example =
    register-long fs_registry long_name storage none 9 refl ((omega arith, omega arith), tt)
      (omega arith)
