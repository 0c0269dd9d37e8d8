-- ===== src/Bus/Loader/Start.antt =====
-- Starting a plugin, bus/src/loader.c: what the registry holds on each way out of `hw_plugin_start`.
use hwrun_os_linux.Prelude.{
  ℕ, zero, suc, ◌<◌, ◌≡◌, ◌≢◌, refl, Bool, List, [], Bytes, length, take, take_all, arith, inl, inr,
  Bool-cases, ℤ, pos, negsuc,
}
use hwrun_os_linux.Errno.{Rc, ok, err, econflict, Rc-cases}
use hwrun_os_linux.Metaproto.{failed, loaded, Route, hw_metaproto_check_deps}
use hwrun_os_linux.Metaproto.Unique.{IsValid}
use hwrun_os_linux.Bus.Loader.{
  Machine, requires_count, set_state, invoke, register_from, plugin_register_provides,
  plugin_unregister_provides, has_conflict, hw_plugin_inject_runtime, run_start, run_provides,
  run_init, hw_plugin_start,
}
use hwrun_os_linux.Bus.Loader.Holds.{
  Holds, Holds-nothing, inject-Holds, Holds-owned, NamesFit, Told, set_state-Holds, invoke-Holds,
  plugin_register_provides-Holds, rollback-rest, unregister_all-rest,
}
use hwrun_os_linux.Bus.Loader.Owned.{OwnsNone, OwnsNone-foreign, OwnsNone-only}

module _ {W : Type 0} (q : Bytes) (rest : List Route) (names : List Bytes) where
  run_start_failed :
      (m : Machine W)
      → Holds q rest names names m
      → (run_start m).1 ≢ ok
      → ((run_start m).0.meta.routes ≡ rest) × ((run_start m).0.plugin.state ≡ failed)
  unfolding run_start plugin_unregister_provides
  run_start_failed m h bad = elim (Rc-cases (invoke m.plugin.ops.start m).1) [
    | inl e ↦ absurd (bad (rw (e, run_start)))
    | inr (x, e) ↦
        let m' = (invoke m.plugin.ops.start m).0 in
        let h' = invoke-Holds q rest names m.plugin.ops.start names m h in
        (
          rw (e, run_start, h'.provides, take_all (length names) names (omega arith))
              (unregister_all-rest q rest names m' h'),
          rw (e, run_start),
        )
  ]

  abbrev Undone : Machine W × Rc → Type 0
  Undone out = (out.0.meta.routes ≡ rest) × (out.0.plugin.state ≡ failed)

  -- After the registration loop: its result decides between `start` and the roll back.
  after_loop :
      (k : ℕ) (m : Machine W) (z : ℤ)
      → Told 0 k names z
      → Holds q rest names (take k names) m
      → Machine W × Rc
  after_loop k m z t h = elim z [
    | pos _ ↦ run_start m
    | negsuc j ↦ (set_state failed (plugin_unregister_provides (suc j) m), err econflict)
  ]

  after_loop_failed :
      (k : ℕ) (m : Machine W) (z : ℤ)
      → (t : Told 0 k names z) → (h : Holds q rest names (take k names) m)
      → (after_loop k m z t h).1 ≢ ok
      → Undone (after_loop k m z t h)
  unfolding after_loop
  after_loop_failed k m (pos a) (inl (e, l)) h bad =
      run_start_failed m (rw (take_all k names (omega arith)) at h) bad
  after_loop_failed zero m (pos a) (inr e) h bad =
      run_start_failed m (Holds-owned q rest names names m h) bad
  after_loop_failed (suc k) m (pos a) (inr e) h bad = absurd (ground arith)
  after_loop_failed k m (negsuc j) (inl (e, l)) h bad = cc
  after_loop_failed k m (negsuc j) (inr e) h bad =
      let same : k ≡ suc j = ground arith in
      (rollback-rest q rest names (suc j) m (rw same at h), refl)

  run_provides_failed :
      (alloc : ℕ → Bool) (m : Machine W)
      → NamesFit names
      → Holds q rest names [] m
      → (run_provides alloc m).1 ≢ ok
      → Undone (run_provides alloc m)
  unfolding run_provides plugin_register_provides after_loop
  run_provides_failed alloc m fits h bad =
      let (k, told, held) = plugin_register_provides-Holds q rest names alloc m fits h in
      let out = register_from alloc 0 m.plugin.provides m in
      after_loop_failed k out.0 out.1 told held bad

  run_init_failed :
      (alloc : ℕ → Bool) (m : Machine W)
      → NamesFit names
      → Holds q rest names [] m
      → (run_init alloc m).1 ≢ ok
      → Undone (run_init alloc m)
  unfolding run_init
  run_init_failed alloc m fits h bad = elim (Rc-cases (invoke m.plugin.ops.init m).1) [
    | inl o ↦
        let m' = (invoke m.plugin.ops.init m).0 in
        rw (o, run_init)
          (run_provides_failed alloc (set_state loaded m') fits
            (set_state-Holds q rest names loaded [] m'
              (invoke-Holds q rest names m.plugin.ops.init [] m h))
            (λ good. bad (rw (o, run_init) good)))
    | inr (x, o) ↦ (
      rw (o, run_init)
          (Holds-nothing q rest names (invoke m.plugin.ops.init m).0
            (invoke-Holds q rest names m.plugin.ops.init [] m h)),
      rw (o, run_init),
    )
  ]

-- A start that fails undoes itself: where the registry is valid, the names fit their fields and the
-- plugin had no route, the route table is afterwards exactly what it was, and the plugin is marked
-- as failed, whichever step failed and whatever the callbacks return.
pub start_undone :
    {W : Type 0} (alloc : ℕ → Bool) (m : Machine W)
    → IsValid m.meta
    → length m.plugin.id < 64
    → NamesFit m.plugin.provides
    → OwnsNone m.plugin.id m.meta.routes
    → (hw_plugin_start alloc m).1 ≢ ok
    → ((hw_plugin_start alloc m).0.meta.routes ≡ m.meta.routes)
      × ((hw_plugin_start alloc m).0.plugin.state ≡ failed)
unfolding hw_plugin_start
start_undone alloc m v id_fits fits none_owned bad =
    elim (Rc-cases
      (hw_metaproto_check_deps m.meta m.plugin.requires (requires_count m.plugin.requires) 0).0) [
        | inr (x, e) ↦ (rw (e, hw_plugin_start), rw (e, hw_plugin_start))
        | inl e ↦ elim (Bool-cases (has_conflict m.meta m.plugin.conflicts)) [
          | inl c ↦ (rw (e, hw_plugin_start, c), rw (e, hw_plugin_start, c))
          | inr c ↦
              rw (e, hw_plugin_start, c)
                (run_init_failed m.plugin.id m.meta.routes m.plugin.provides alloc
                  (hw_plugin_inject_runtime m) fits
                  (inject-Holds m.plugin.id m.meta.routes m.plugin.provides [] m fresh)
                  (λ good. bad (rw (e, hw_plugin_start, c) good)))
        ]
      ]
  where
    fresh : Holds m.plugin.id m.meta.routes m.plugin.provides [] m
    fresh = record {
      valid = v;
      owns = OwnsNone-only m.plugin.id [] m.meta.routes none_owned;
      others = OwnsNone-foreign m.plugin.id m.meta.routes none_owned;
      id_fits = id_fits;
      provides = refl;
      is = refl;
    }
