-- ===== src/Bus/Loader/Started.antt =====
-- A `hw_plugin_start` of bus/src/loader.c that succeeds, and starts without requirements or memory.
use hwrun_os_linux.Prelude.{
  ℕ, ◌<◌, ◌≡◌, ◌≢◌, refl, sym, ap, subst, ◌∙◌, Bool, true, false, List, [], ◌∷◌, Option, none, some,
  Bytes, length, arith, All, inl, inr, Bool-cases, codes, ◌==◌,
}
use hwrun_os_linux.Errno.{Rc, ok, err, enomem, Rc-cases}
use hwrun_os_linux.Metaproto.{
  started, loaded, default_version, Registry, hw_metaproto_register, hw_metaproto_check_deps,
  hw_metaproto_resolve,
}
use hwrun_os_linux.Metaproto.Providers.{provider}
use hwrun_os_linux.Metaproto.Resolve.{check_deps-All}
use hwrun_os_linux.Bus.Loader.{
  Machine, requires_count, implementation_of, set_state, invoke, bind_with, git_pointer,
  register_from, has_conflict, hw_plugin_inject_runtime, run_provides, run_init, hw_plugin_start,
}
use hwrun_os_linux.Bus.Loader.Holds.{NamesFit}
use hwrun_os_linux.Bus.Loader.Provided.{AllProvided, Provides, run_provides_ok}

no_conflict :
    (reg : Registry) (names : List Bytes)
    → has_conflict reg names ≡ false
    → All (λ c. (hw_metaproto_resolve reg (some c) none).0 ≢ ok) names
unfolding has_conflict
no_conflict reg [] h = tt
no_conflict reg (c ∷ names) h = ground (arith, no_conflict reg names)

module _ {W : Type 0} where
  invoke-world :
      (f : Option (W → Rc × W)) (m : Machine W)
      → (w : W) × ((invoke f m).0 ≡ record m { world = w })
  unfolding invoke
  invoke-world none m = (m.world, refl)
  invoke-world (some f) m = ((f m.world).1, refl)

  bind_with-world :
      (bind : Option (ℕ → W → W)) (git : ℕ) (m : Machine W)
      → (w : W) × (bind_with bind git m ≡ record m { world = w })
  unfolding bind_with
  bind_with-world none git m = (m.world, refl)
  bind_with-world (some bind) git m = (bind git m.world, refl)

  inject-world : (m : Machine W) → (w : W) × (hw_plugin_inject_runtime m ≡ record m { world = w })
  unfolding hw_plugin_inject_runtime
  inject-world m = elim (Bool-cases (m.plugin.handle == 0)) [
    | inl e ↦ (m.world, rw (e, hw_plugin_inject_runtime))
    | inr e ↦
        let (w, eq) =
          bind_with-world m.plugin.runtime_bind
            (git_pointer (hw_metaproto_resolve m.meta (some (codes "GIT")) none).1) m in
        (w, rw (e, hw_plugin_inject_runtime) eq)
  ]

  -- The protocols of the plugin are on the registry, and it counts as started.
  abbrev Up : Bytes → List Bytes → Machine W × Rc → Type 0
  Up q names out = AllProvided out.0.meta.routes q names × (out.0.plugin.state ≡ started)

  run_init_ok :
      (alloc : ℕ → Bool) (m : Machine W)
      → alloc 0 ≡ true
      → NamesFit m.plugin.provides
      → Provides [] m
      → (run_init alloc m).1 ≡ ok
      → Up m.plugin.id m.plugin.provides (run_init alloc m)
  unfolding run_init
  run_init_ok alloc m first fits h good = elim (Rc-cases (invoke m.plugin.ops.init m).1) [
    | inr (x, o) ↦ absurd (ground arith)
    | inl o ↦
        let (w, e) = invoke-world m.plugin.ops.init m in
        let m' = set_state loaded (record m { world = w }) in
        let shape : run_provides alloc m' ≡ run_init alloc m =
          ap (λ n. run_provides alloc (set_state loaded n)) (sym e) ∙ rw (o, run_init) in
        subst (Up m.plugin.id m.plugin.provides) shape (
          run_provides_ok alloc m' first fits (record { up = h.up; fits = h.fits; all = h.all })
            (ap (λ out. out.1) shape ∙ good))
  ]

-- A start that succeeds, where the first registration finds memory and the names fit their fields:
-- every required protocol resolved beforehand and no declared conflict did, the plugin counts as
-- started, and each protocol that it declares is on the registry under its id.
pub start_provides :
    {W : Type 0} (alloc : ℕ → Bool) (m : Machine W) (required : List Bytes)
    → m.plugin.requires ≡ some required
    → m.meta.initialized ≡ true
    → alloc 0 ≡ true
    → length m.plugin.id < 64
    → NamesFit m.plugin.provides
    → (hw_plugin_start alloc m).1 ≡ ok
    → All (λ p. (hw_metaproto_resolve m.meta (some p) none).0 ≡ ok) required
      × All (λ c. (hw_metaproto_resolve m.meta (some c) none).0 ≢ ok) m.plugin.conflicts
      × ((hw_plugin_start alloc m).0.plugin.state ≡ started)
      × AllProvided (hw_plugin_start alloc m).0.meta.routes m.plugin.id m.plugin.provides
unfolding hw_plugin_start
start_provides alloc m required req up first id_fits fits good =
    elim (Rc-cases
      (hw_metaproto_check_deps m.meta m.plugin.requires (requires_count m.plugin.requires) 0).0) [
        | inr (x, e) ↦ absurd (ground arith)
        | inl e ↦ elim (Bool-cases (has_conflict m.meta m.plugin.conflicts)) [
          | inl c ↦ absurd (ground arith)
          | inr c ↦
              let (w, i) = inject-world m in
              let m' : Machine _ = record m { world = w } in
              let shape : run_init alloc m' ≡ hw_plugin_start alloc m =
                ap (run_init alloc) (sym i) ∙ rw (e, hw_plugin_start, c) in
              let fine =
                run_init_ok alloc m' first fits (record { up = up; fits = id_fits; all = tt })
                  (ap (λ out. out.1) shape ∙ good) in
              let (provided, state) = subst (Up m.plugin.id m.plugin.provides) shape fine in
              (
                check_deps-All m.meta required 0 (
                    subst (λ r. (hw_metaproto_check_deps m.meta r (requires_count r) 0).0 ≡ ok) req
                      e),
                no_conflict m.meta m.plugin.conflicts c,
                state,
                provided,
              )
        ]
      ]

register_full :
    (reg : Registry) (p q : Bytes) (v : Option Bytes) (impl : ℕ)
    → reg.initialized ≡ true
    → provider reg.routes p q ≡ none
    → hw_metaproto_register false reg (some p) v (some q) impl ≡ (reg, err enomem, [])
unfolding hw_metaproto_register
register_full reg p q v impl up h = ground arith

-- The loop reports the first failure as 0 registered protocols, which is no negative number: a
-- plugin with no callbacks, whose first protocol finds no memory, is started all the same, and the
-- route table is as before, without any of its protocols.
pub start_unregistered :
    {W : Type 0} (alloc : ℕ → Bool) (m : Machine W) (p : Bytes) (names : List Bytes)
    → m.plugin.provides ≡ p ∷ names
    → m.meta.initialized ≡ true
    → alloc 0 ≡ false
    → provider m.meta.routes p m.plugin.id ≡ none
    → (hw_metaproto_check_deps m.meta m.plugin.requires (requires_count m.plugin.requires) 0).0 ≡ ok
    → has_conflict m.meta m.plugin.conflicts ≡ false
    → m.plugin.handle ≡ 0
    → m.plugin.ops.init ≡ none
    → m.plugin.ops.start ≡ none
    → let out = hw_plugin_start alloc m in
      (out.1 ≡ ok) × (out.0.plugin.state ≡ started) × (out.0.meta.routes ≡ m.meta.routes)
unfolding hw_plugin_start register_from
start_unregistered alloc m p names prov up full absent deps fine handle init start = ground (
  arith,
  register_full m.meta p m.plugin.id (some default_version) (implementation_of m.plugin p) up
      absent,
)
