-- ===== src/Bus/Loader.antt =====
-- bus/src/loader.c: a plugin's life cycle. The log lines are left out. `alloc i` says whether the
-- registration of the i-th provided protocol finds memory.
pub mod Owned
pub mod Holds
pub mod Start
pub mod Provided
pub mod Started
pub mod Keeps
pub mod Outcome
pub mod Stop
pub mod LoadSo
use hwrun_os_linux.Prelude.{
  ℕ, zero, suc, ◌+◌, Bool, true, false, not, ◌&&◌, ◌||◌, List, [], ◌∷◌, ◌++◌, Option, none, some,
  Bytes, take, length, if◌then◌else◌, ◌==◌, codes, ℤ, pos, negsuc, sub_ℕ, neg_part,
}
use hwrun_os_linux.Errno.{Rc, ok, err, enoent, eilseq, econflict}
use hwrun_os_linux.Metaproto.{
  PluginState, loaded, started, stopped, failed, uninstalled, Route, Registry, Notice,
  hw_metaproto_register, hw_metaproto_unregister, hw_metaproto_resolve, hw_metaproto_check_deps,
  default_version,
}
use hwrun_os_linux.Bus.Plugin.{Ops, Plugin}

-- What a life cycle call reads and changes: the registry, the plugin's node, the world of the
-- callbacks, and the notices sent so far.
pub record Machine (W : Type 0) : Type 0 where
  pub meta : Registry
  pub plugin : Plugin W
  pub world : W
  pub notices : List Notice

-- Some declared conflict resolves.
unfoldable pub has_conflict : Registry → List Bytes → Bool
has_conflict reg [] = false
has_conflict reg (name ∷ names) = elim (hw_metaproto_resolve reg (some name) none).0 [
  | ok ↦ true
  | err _ ↦ has_conflict reg names
]

abbrev git_pointer : Option Route → ℕ
git_pointer none = 0
git_pointer (some r) = r.implementation

abbrev pub is_running : PluginState → Bool
is_running started = true
is_running loaded = true
is_running _ = false

-- The length that goes with the array; it plays no part where that is NULL.
abbrev pub requires_count : Option (List Bytes) → ℤ
requires_count none = pos 0
requires_count (some ps) = pos (length ps)

module _ {W : Type 0} where
  abbrev pub set_state : PluginState → Machine W → Machine W
  set_state s m = record m { plugin = record (m.plugin) { state = s } }

  -- A callback, which a NULL pointer skips.
  unfoldable pub invoke : Option (W → Rc × W) → Machine W → Machine W × Rc
  invoke none m = (m, ok)
  invoke (some f) m = let (rc, w) = f m.world in (record m { world = w }, rc)

  -- The implementation that is registered: the plugin's interface, or else its own node.
  unfoldable pub implementation_of : Plugin W → Bytes → ℕ
  implementation_of p name = elim p.ops.get_interface [
    | none ↦ p.address
    | some get ↦ if get name == 0 then p.address else get name
  ]

  unfoldable pub register_one : Bool → Bytes → Machine W → Machine W × Rc
  unfolding implementation_of
  register_one alloc name m =
      let (reg, rc, sent) =
        hw_metaproto_register alloc m.meta (some name) (some default_version) (some m.plugin.id)
          (implementation_of m.plugin name) in
      (record m { meta = reg; notices = m.notices ++ sent }, rc)

  -- The loop of `plugin_register_provides`, with the number registered so far.
  unfoldable pub register_from : (ℕ → Bool) → ℕ → List Bytes → Machine W → Machine W × ℤ
  unfolding register_one
  register_from alloc n [] m = (m, pos n)
  register_from alloc n (name ∷ names) m =
      let (m', rc) = register_one (alloc n) name m in
      let rest = register_from alloc (suc n) names m' in
      elim rc [ ok ↦ rest | err _ ↦ (m', sub_ℕ 0 n) ]

  unfoldable pub plugin_register_provides : (ℕ → Bool) → Machine W → Machine W × ℤ
  unfolding register_from
  plugin_register_provides alloc m = register_from alloc 0 m.plugin.provides m

  unfoldable pub unregister_one : Bytes → Machine W → Machine W
  unregister_one name m =
      let (reg, rc, sent) = hw_metaproto_unregister m.meta (some name) (some m.plugin.id) in
      record m { meta = reg; notices = m.notices ++ sent }

  unfoldable pub unregister_all : List Bytes → Machine W → Machine W
  unfolding unregister_one
  unregister_all [] m = m
  unregister_all (name ∷ names) m = unregister_all names (unregister_one name m)

  -- The first `n` of the plugin's protocols.
  unfoldable pub plugin_unregister_provides : ℕ → Machine W → Machine W
  unfolding unregister_all
  plugin_unregister_provides n m = unregister_all (take n m.plugin.provides) m

  bind_with : Option (ℕ → W → W) → ℕ → Machine W → Machine W
  bind_with none git m = m
  bind_with (some bind) git m = record m { world = bind git m.world }

  unfoldable pub hw_plugin_inject_runtime : Machine W → Machine W
  unfolding bind_with
  hw_plugin_inject_runtime m =
      if m.plugin.handle == 0
      then m
      else bind_with m.plugin.runtime_bind
          (git_pointer (hw_metaproto_resolve m.meta (some (codes "GIT")) none).1) m

  -- From the `start` callback on.
  unfoldable pub run_start : Machine W → Machine W × Rc
  unfolding invoke plugin_unregister_provides
  run_start m =
      let (m', rc) = invoke m.plugin.ops.start m in
      elim rc [
        | ok ↦ (set_state started m', ok)
        | err e ↦
            (set_state failed (plugin_unregister_provides (length m'.plugin.provides) m'), err e)
      ]

  -- From the registration of the protocols on.
  unfoldable pub run_provides : (ℕ → Bool) → Machine W → Machine W × Rc
  unfolding plugin_register_provides run_start
  run_provides alloc m =
      let (m', n) = plugin_register_provides alloc m in
      elim n [
        | pos _ ↦ run_start m'
        | negsuc k ↦ (set_state failed (plugin_unregister_provides (suc k) m'), err econflict)
      ]

  -- From the `init` callback on.
  unfoldable pub run_init : (ℕ → Bool) → Machine W → Machine W × Rc
  unfolding invoke run_provides
  run_init alloc m =
      let (m', rc) = invoke m.plugin.ops.init m in
      elim rc [
        | ok ↦ run_provides alloc (set_state loaded m')
        | err e ↦ (set_state failed m', err e)
      ]

  unfoldable pub hw_plugin_start : (ℕ → Bool) → Machine W → Machine W × Rc
  unfolding hw_plugin_inject_runtime run_init has_conflict
  hw_plugin_start alloc m =
      elim (hw_metaproto_check_deps m.meta m.plugin.requires (requires_count m.plugin.requires)
        0).0 [
          | err _ ↦ (set_state failed m, err eilseq)
          | ok ↦
              if has_conflict m.meta m.plugin.conflicts
              then (set_state failed m, err econflict)
              else run_init alloc (hw_plugin_inject_runtime m)
        ]

  unfoldable pub hw_plugin_stop : Machine W → Machine W × Rc
  unfolding invoke unregister_all
  hw_plugin_stop m =
      let m' = (invoke m.plugin.ops.stop m).0 in
      (set_state stopped (unregister_all m'.plugin.provides m'), ok)

  unfoldable pub hw_plugin_unload : Machine W → Machine W × Rc
  unfolding hw_plugin_stop invoke
  hw_plugin_unload m =
      let m1 = (if is_running m.plugin.state then (hw_plugin_stop m).0 else m) in
      let m2 = (invoke m1.plugin.ops.destroy m1).0 in
      (record m2 { plugin = record (m2.plugin) { handle = 0; state = uninstalled } }, ok)
