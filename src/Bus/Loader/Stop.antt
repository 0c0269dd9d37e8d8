-- ===== src/Bus/Loader/Stop.antt =====
-- Stopping and unloading a plugin, bus/src/loader.c.
use hwrun_os_linux.Prelude.{
  ◌≡◌, sym, subst, false, List, [], Option, none, some, Bytes, append-nil, inl, inr, Bool-cases,
  if◌then◌else◌,
}
use hwrun_os_linux.Errno.{Rc}
use hwrun_os_linux.Metaproto.{Route, stopped, uninstalled}
use hwrun_os_linux.Bus.Loader.{
  Machine, invoke, unregister_all, is_running, hw_plugin_stop, hw_plugin_unload,
}
use hwrun_os_linux.Bus.Loader.Owned.{OwnsNone, OwnsNone-only}
use hwrun_os_linux.Bus.Loader.Holds.{Holds, invoke-Holds, set_state-Holds, unregister_all-Holds}

module _ {W : Type 0} where
  pub stop-Holds :
      (q : Bytes) (rest : List Route) (names : List Bytes) (m : Machine W)
      → Holds q rest names names m
      → Holds q rest names [] (hw_plugin_stop m).0
  unfolding hw_plugin_stop
  stop-Holds q rest names m h =
      let m' = (invoke m.plugin.ops.stop m).0 in
      let h' = invoke-Holds q rest names m.plugin.ops.stop names m h in
      let done = unregister_all-Holds q rest names names [] m' (rw (append-nil names) h') in
      set_state-Holds q rest names stopped [] (unregister_all m'.plugin.provides m')
        (subst (λ ps. Holds q rest names [] (unregister_all ps m')) (sym h'.provides) done)

  destroy-Holds :
      (q : Bytes) (rest : List Route) (names : List Bytes) (m : Machine W)
      → Holds q rest names [] m
      → Holds q rest names []
          (record m { plugin = record (m.plugin) { handle = 0; state = uninstalled } })
  destroy-Holds q rest names m h = record {
    valid = h.valid;
    owns = h.owns;
    others = h.others;
    id_fits = h.id_fits;
    provides = h.provides;
    is = h.is;
  }

module _ {W : Type 0} (q : Bytes) (rest : List Route) (names : List Bytes) where
  stop_if_running :
      (m : Machine W)
      → Holds q rest names names m
      → (is_running m.plugin.state ≡ false → OwnsNone m.plugin.id m.meta.routes)
      → Holds q rest names [] (if is_running m.plugin.state then (hw_plugin_stop m).0 else m)
  stop_if_running m h idle = elim (Bool-cases (is_running m.plugin.state)) [
    | inl r ↦ rw r (stop-Holds q rest names m h)
    | inr r ↦ rw r (record {
      valid = h.valid;
      owns = OwnsNone-only m.plugin.id [] m.meta.routes (idle r);
      others = h.others;
      id_fits = h.id_fits;
      provides = h.provides;
      is = h.is;
    })
  ]

  pub unload-Holds :
      (m : Machine W)
      → Holds q rest names names m
      → (is_running m.plugin.state ≡ false → OwnsNone m.plugin.id m.meta.routes)
      → Holds q rest names [] (hw_plugin_unload m).0
  unfolding hw_plugin_unload
  unload-Holds m h idle =
      let m1 = (if is_running m.plugin.state then (hw_plugin_stop m).0 else m) in
      destroy-Holds q rest names (invoke m1.plugin.ops.destroy m1).0
        (invoke-Holds q rest names m1.plugin.ops.destroy [] m1 (stop_if_running m h idle))

-- What a callback makes of the world; a NULL pointer leaves it.
abbrev pub called : {W : Type 0} → Option (W → Rc × W) → W → W
called none w = w
called (some f) w = (f w).1

-- A call that concerns the registry only.
abbrev Unmoved : {W : Type 0} → Machine W → Machine W → Type 0
Unmoved a b = (a.world ≡ b.world) × (a.plugin ≡ b.plugin)
