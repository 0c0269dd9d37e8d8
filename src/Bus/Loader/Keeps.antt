-- ===== src/Bus/Loader/Keeps.antt =====
-- The registry under `hw_plugin_start` of bus/src/loader.c, whichever way it ends.
use hwrun_os_linux.Prelude.{
  ℕ, zero, suc, ◌≡◌, Bool, List, [], ◌∷◌, Bytes, length, take, Any, inl, inr, Bool-cases, ℤ, pos,
  negsuc,
}
use hwrun_os_linux.Errno.{Rc, err, econflict, Rc-cases}
use hwrun_os_linux.Metaproto.{started, failed, loaded, Route, hw_metaproto_check_deps}
use hwrun_os_linux.Bus.Loader.{
  Machine, requires_count, set_state, invoke, register_from, plugin_register_provides,
  unregister_all, unregister_one, plugin_unregister_provides, has_conflict,
  hw_plugin_inject_runtime, run_start, run_provides, run_init, hw_plugin_start,
}
use hwrun_os_linux.Bus.Loader.Owned.{OwnsOnly, OwnsOnly-weaken}
use hwrun_os_linux.Bus.Loader.Holds.{
  Holds, NamesFit, Holds-owned, set_state-Holds, invoke-Holds, inject-Holds, unregister_one-Holds,
  plugin_register_provides-Holds,
}

Any-take : (P : Bytes → Type 0) (k : ℕ) (xs : List Bytes) → Any P (take k xs) → Any P xs
Any-take P zero xs a = absurd a
Any-take P (suc k) [] a = a
Any-take P (suc k) (x ∷ xs) (inl h) = inl h
Any-take P (suc k) (x ∷ xs) (inr a) = inr (Any-take P k xs a)

OwnsOnly-take :
    (q : Bytes) (k : ℕ) (names : List Bytes) (rs : List Route)
    → OwnsOnly q (take k names) rs
    → OwnsOnly q names rs
OwnsOnly-take q k names [] h = tt
OwnsOnly-take q k names (r ∷ rs) h =
    (λ e. Any-take (λ p. r.protocol ≡ p) k names (h.0 e), OwnsOnly-take q k names rs h.1)

module _ {W : Type 0} (q : Bytes) (rest : List Route) (names : List Bytes) where
  Holds-take :
      (k : ℕ) (m : Machine W) → Holds q rest names (take k names) m → Holds q rest names names m
  Holds-take k m h = record {
    valid = h.valid;
    owns = OwnsOnly-take m.plugin.id k names m.meta.routes h.owns;
    others = h.others;
    id_fits = h.id_fits;
    provides = h.provides;
    is = h.is;
  }

  Holds-weaken :
      (p : Bytes) (m : Machine W) → Holds q rest names names m → Holds q rest names (p ∷ names) m
  Holds-weaken p m h = record {
    valid = h.valid;
    owns = OwnsOnly-weaken p m.plugin.id names m.meta.routes h.owns;
    others = h.others;
    id_fits = h.id_fits;
    provides = h.provides;
    is = h.is;
  }

  unregister_all-keeps :
      (ps : List Bytes) (m : Machine W)
      → Holds q rest names names m
      → Holds q rest names names (unregister_all ps m)
  unfolding unregister_all
  unregister_all-keeps [] m h = h
  unregister_all-keeps (p ∷ ps) m h =
      unregister_all-keeps ps (unregister_one p m)
        (unregister_one-Holds q rest names p names m (Holds-weaken p m h))

  run_start-keeps :
      (m : Machine W) → Holds q rest names names m → Holds q rest names names (run_start m).0
  unfolding run_start plugin_unregister_provides
  run_start-keeps m h =
      let m' = (invoke m.plugin.ops.start m).0 in
      let h' = invoke-Holds q rest names m.plugin.ops.start names m h in
      elim (Rc-cases (invoke m.plugin.ops.start m).1) [
        | inl o ↦ rw (o, run_start) (set_state-Holds q rest names started names m' h')
        | inr (x, o) ↦
            let ps = take (length m'.plugin.provides) m'.plugin.provides in
            rw (o, run_start)
              (set_state-Holds q rest names failed names (unregister_all ps m')
                (unregister_all-keeps ps m' h'))
      ]

  decide_loop : Machine W → ℤ → Machine W × Rc
  decide_loop m z = elim z [
    | pos _ ↦ run_start m
    | negsuc j ↦ (set_state failed (plugin_unregister_provides (suc j) m), err econflict)
  ]

  decide_loop-keeps :
      (m : Machine W) (z : ℤ)
      → Holds q rest names names m
      → Holds q rest names names (decide_loop m z).0
  unfolding decide_loop plugin_unregister_provides
  decide_loop-keeps m (pos a) h = run_start-keeps m h
  decide_loop-keeps m (negsuc j) h =
      let ps = take (suc j) m.plugin.provides in
      set_state-Holds q rest names failed names (unregister_all ps m) (unregister_all-keeps ps m h)

  run_provides-keeps :
      (alloc : ℕ → Bool) (m : Machine W)
      → NamesFit names
      → Holds q rest names [] m
      → Holds q rest names names (run_provides alloc m).0
  unfolding run_provides plugin_register_provides decide_loop
  run_provides-keeps alloc m fits h =
      let (k, told, held) = plugin_register_provides-Holds q rest names alloc m fits h in
      let out = register_from alloc 0 m.plugin.provides m in
      decide_loop-keeps out.0 out.1 (Holds-take k out.0 held)

  run_init-keeps :
      (alloc : ℕ → Bool) (m : Machine W)
      → NamesFit names
      → Holds q rest names [] m
      → Holds q rest names names (run_init alloc m).0
  unfolding run_init
  run_init-keeps alloc m fits h =
      let m' = (invoke m.plugin.ops.init m).0 in
      let h' = invoke-Holds q rest names m.plugin.ops.init [] m h in
      elim (Rc-cases (invoke m.plugin.ops.init m).1) [
        | inl o ↦
            rw (o, run_init)
              (run_provides-keeps alloc (set_state loaded m') fits
                (set_state-Holds q rest names loaded [] m' h'))
        | inr (x, o) ↦
            rw (o, run_init)
              (set_state-Holds q rest names failed names m' (Holds-owned q rest names names m' h'))
      ]

  -- On every path of `hw_plugin_start`.
  pub start-keeps :
      (alloc : ℕ → Bool) (m : Machine W)
      → NamesFit names
      → Holds q rest names [] m
      → Holds q rest names names (hw_plugin_start alloc m).0
  unfolding hw_plugin_start
  start-keeps alloc m fits h =
      let refused =
        set_state-Holds q rest names failed names m (Holds-owned q rest names names m h) in
      elim (Rc-cases
        (hw_metaproto_check_deps m.meta m.plugin.requires (requires_count m.plugin.requires) 0).0) [
          | inr (x, e) ↦ rw (e, hw_plugin_start) refused
          | inl e ↦ elim (Bool-cases (has_conflict m.meta m.plugin.conflicts)) [
            | inl c ↦ rw (e, hw_plugin_start, c) refused
            | inr c ↦
                rw (e, hw_plugin_start, c)
                  (run_init-keeps alloc (hw_plugin_inject_runtime m) fits
                    (inject-Holds q rest names [] m h))
          ]
        ]
