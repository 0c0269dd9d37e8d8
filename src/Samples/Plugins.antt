-- ===== src/Samples/Plugins.antt =====
-- Runs of bus/src/loader.c and bus/src/bus.c with one plugin.
use hwrun_os_linux.Prelude.{
  ℕ, ◌*◌, pos, suc, ◌≡◌, ◌≢◌, refl, Bool, true, false, [], ◌∷◌, none, some, codes, find?,
  update_first, fit, arith, All, Bytes-discrete, inl, Option, Bytes,
}
use hwrun_os_linux.Errno.{Rc, ok, err, other, eilseq}
use hwrun_os_linux.Metaproto.{
  installed, started, failed, hw_metaproto_register, hw_metaproto_unregister, hw_metaproto_resolve,
  hw_metaproto_check_deps, default_version, new_route,
}
use hwrun_os_linux.Metaproto.Providers.{provider}
use hwrun_os_linux.Bus.Plugin.{Ops, Plugin}
use hwrun_os_linux.Bus.Loader.{Machine, has_conflict, hw_plugin_start}
use hwrun_os_linux.Bus.Loader.Provided.{AllProvided}
use hwrun_os_linux.Bus.Loader.Start.{start_undone}
use hwrun_os_linux.Bus.Loader.Started.{start_provides, start_unregistered}
use hwrun_os_linux.Bus.Loader.LoadSo.{hw_plugin_load_so}
use hwrun_os_linux.Bus.Kernel.{Desc}
use hwrun_os_linux.Bus.Chain.{Bus, Discovery, new_node, scan_dir_rec, hw_bus_load, hw_bus_find}
use hwrun_os_linux.Bus.Chain.Bare.{load-no_requires}
use hwrun_os_linux.Bus.Chain.Invariant.{Inv}
use hwrun_os_linux.Bus.Chain.Reach.{here, next, loads, resolve-started}
use hwrun_os_linux.Samples.Protocols.{fs, fs_registry, fs_registry-IsValid}

abbrev quiet : Ops ℕ
quiet = record {
  init = none;
  start = none;
  stop = none;
  destroy = none;
  configure = none;
  get_interface = none;
}

-- The plugin `git`, which needs FS and provides GIT.
abbrev git : Ops ℕ → Plugin ℕ
git ops = record {
  id = codes "git";
  state = installed;
  provides = codes "GIT" ∷ [];
  requires = some (fs ∷ []);
  conflicts = [];
  files = [];
  ops = ops;
  handle = 0;
  address = 5;
  runtime_bind = none;
}

abbrev machine : Plugin ℕ → Machine ℕ
machine p = record { meta = fs_registry; plugin = p; world = 0; notices = [] }

abbrev always : ℕ → Bool
always i = true

abbrev never : ℕ → Bool
never i = false

-- Its `start` fails.
abbrev broken : Machine ℕ
broken = machine (git (record quiet { start = some (λ w. (err other, suc w)) }))

abbrev working : Machine ℕ
working = machine (git quiet)

broken_returns : (hw_plugin_start always broken).1 ≡ err other
unfolding hw_plugin_start hw_metaproto_check_deps find? Bytes-discrete hw_metaproto_register
    hw_metaproto_unregister
broken_returns = refl

fails : (rc : Rc) → rc ≡ err other → rc ≢ ok
fails rc e f = cc

start_undone_example :
    ((hw_plugin_start always broken).0.meta.routes ≡ fs_registry.routes)
    × ((hw_plugin_start always broken).0.plugin.state ≡ failed)
start_undone_example =
    start_undone always broken fs_registry-IsValid (omega arith) (omega arith, tt) (λ e. cc, tt)
      (fails (hw_plugin_start always broken).1 broken_returns)

works : (hw_plugin_start always working).1 ≡ ok
unfolding hw_plugin_start hw_metaproto_check_deps find? Bytes-discrete hw_metaproto_register
works = refl

start_provides_example :
    All (λ p. (hw_metaproto_resolve fs_registry (some p) none).0 ≡ ok) (fs ∷ [])
    × All (λ c. (hw_metaproto_resolve fs_registry (some c) none).0 ≢ ok) []
    × ((hw_plugin_start always working).0.plugin.state ≡ started)
    × AllProvided (hw_plugin_start always working).0.meta.routes (codes "git") (codes "GIT" ∷ [])
start_provides_example =
    start_provides always working (fs ∷ []) refl refl refl (omega arith) (omega arith, tt) works

not_provided : provider fs_registry.routes (codes "GIT") (codes "git") ≡ none
unfolding find? Bytes-discrete
not_provided = refl

deps_met : (hw_metaproto_check_deps fs_registry (some (fs ∷ [])) (pos 1) 0).0 ≡ ok
unfolding hw_metaproto_check_deps find? Bytes-discrete
deps_met = refl

no_conflict_declared : has_conflict fs_registry [] ≡ false
unfolding has_conflict
no_conflict_declared = refl

start_unregistered_example :
    let out = hw_plugin_start never working in
    (out.1 ≡ ok) × (out.0.plugin.state ≡ started) × (out.0.meta.routes ≡ fs_registry.routes)
start_unregistered_example =
    start_unregistered never working (codes "GIT") [] refl refl refl not_provided deps_met
      no_conflict_declared refl refl refl

-- `storage` after its start.
abbrev running : Machine ℕ
running = machine (record (git quiet) { id = codes "storage"; provides = fs ∷ []; state = started })

-- Its `stop` adds one to the world, and fails, and its `destroy` doubles it.
abbrev counting : Machine ℕ
counting = machine (record (git quiet) {
  id = codes "storage";
  provides = fs ∷ [];
  state = started;
  ops = record quiet { stop = some (λ w. (err other, suc w)); destroy = some (λ w. (ok, w * 2)) };
})

-- The bus has discovered `git` and not loaded it.
abbrev bus : Bus ℕ
bus = record {
  plugins = git quiet ∷ [];
  meta = fs_registry;
  world = 0;
  notices = [];
  initialized = true;
}

bus-Inv : Inv bus
bus-Inv = record {
  valid = fs_registry-IsValid;
  distinct = (tt, tt);
  good = (
    record {
      id_fits = omega arith;
      names_fit = (omega arith, tt);
      owns = ((λ e. cc), tt);
      idle = λ _. (λ e. cc, tt);
    },
    tt,
  );
}

-- `git` as the load leaves it.
abbrev git_running : Plugin ℕ
git_running = record (git quiet) { state = started }

abbrev loaded_bus : Bus ℕ
loaded_bus = (hw_bus_load always bus (codes "git")).0

git_resolves :
    hw_metaproto_resolve loaded_bus.meta (some (codes "GIT")) none
    ≡ (ok, some (new_route (codes "GIT") (some default_version) (codes "git") 5))
unfolding hw_bus_load hw_metaproto_resolve find? Bytes-discrete hw_bus_find hw_plugin_start
    hw_metaproto_check_deps hw_metaproto_register fit
git_resolves = refl

git_kept : hw_bus_find loaded_bus (codes "git") ≡ some git_running
unfolding hw_bus_load hw_bus_find find? Bytes-discrete update_first hw_plugin_start
    hw_metaproto_check_deps hw_metaproto_register
git_kept = refl

resolve-started_example : git_running.state ≡ started
unfolding fit
resolve-started_example =
    resolve-started {b = bus} {bus = loaded_bus} (codes "GIT") none
      (new_route (codes "GIT") (some default_version) (codes "git") 5) git_running bus-Inv
      (next here (loads always bus (codes "git"))) git_resolves git_kept

-- The descriptor of a plugin that requires nothing.
abbrev bare_clock : Discovery
bare_clock = record {
  id = codes "clock";
  provides = codes "CLOCK" ∷ [];
  requires = [];
  conflicts = [];
  files = [];
  folder = codes "/p/clock";
}

clock_free : hw_bus_find bus (codes "clock") ≡ none
unfolding hw_bus_find find? Bytes-discrete
clock_free = refl

load-no_requires_example :
    let found = scan_dir_rec true true 7 bare_clock bus in
    (found.1 ≡ ok)
    × (hw_bus_load always found.0 (codes "clock") ≡ (
      record bus { plugins = record (new_node true 7 bare_clock) { state = failed } ∷ bus.plugins },
      err eilseq,
    ))
load-no_requires_example =
    load-no_requires always true 7 bare_clock bus (inl refl) refl (omega arith) clock_free

abbrev library : Plugin ℕ
library = record (git quiet) { files = some (codes "/p/git.so") ∷ [] }

-- Every path opens as handle 3, whose entry gives the descriptor of `git`.
abbrev dlopen : Bytes → Option ℕ
dlopen path = some 3

abbrev entry : ℕ → Option (Option (Plugin ℕ))
entry h = some (some (git quiet))

library_loads : (hw_plugin_load_so dlopen entry library).0.handle ≡ 3
unfolding hw_plugin_load_so
library_loads = refl

abbrev empty_kernel : Bytes → Option Desc
empty_kernel p = none

abbrev full_kernel : Bytes → Option Desc
full_kernel p = some (record { protocol = p; version = codes "1.0"; provider = [] })

fs_resolves : (hw_metaproto_resolve fs_registry (some fs) none).0 ≡ ok
unfolding hw_metaproto_resolve find? Bytes-discrete
fs_resolves = refl
