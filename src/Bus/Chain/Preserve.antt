-- ===== src/Bus/Chain/Preserve.antt =====
-- Life cycle calls and the invariant of the bus, bus/src/bus.c.
use hwrun_os_linux.Prelude.{
  ℕ, ◌≡◌, refl, sym, subst, ◌∙◌, Bool, false, List, [], some, Bytes, arith, inl, inr, Bool-cases,
  Option-cases, All-find?,
}
use hwrun_os_linux.Errno.{Errno, Rc, ok, err, Rc-cases}
use hwrun_os_linux.Metaproto.{PluginState, started, Route}
use hwrun_os_linux.Bus.Plugin.{Plugin}
use hwrun_os_linux.Bus.Loader.{
  Machine, is_running, hw_plugin_start, hw_plugin_stop, hw_plugin_unload,
}
use hwrun_os_linux.Bus.Loader.Owned.{foreign, OwnsOnly, OwnsNone, OwnsOnly-none, OwnsNone-only}
use hwrun_os_linux.Bus.Loader.Holds.{Holds, Holds-owned, NamesFit}
use hwrun_os_linux.Bus.Chain.{
  Bus, has_id, is_started, drive, hw_bus_find, hw_bus_load, hw_bus_stop, hw_bus_unload,
}
use hwrun_os_linux.Bus.Chain.Invariant.{IsGood, Inv, replace-IsGood, replace-distinct}
use mathlib.Core.Path.{subst₂}
use hwrun_os_linux.Bus.Loader.Stop.{stop-Holds, unload-Holds}
use hwrun_os_linux.Bus.Loader.Start.{start_undone}
use hwrun_os_linux.Bus.Loader.Keeps.{start-keeps}
use hwrun_os_linux.Bus.Loader.Outcome.{start-started}

no_start : {s : PluginState} → s ≡ started → is_started s ≡ false → ⊥
no_start e h = ground arith

differ : {e : Errno} → err e ≡ ok → ⊥
differ h = cc

running_started : (s : PluginState) → is_running s ≡ false → is_started s ≡ false
running_started s h = ground arith

module _ {W : Type 0} where
  -- What a life cycle call has to do for the invariant of the bus.
  record Behaves (p : Plugin W) (rs : List Route) (m : Machine W) : Type 0 where
    held : Holds p.id (foreign p.id rs) p.provides p.provides m
    idle : is_started m.plugin.state ≡ false → OwnsNone m.plugin.id m.meta.routes

  abbrev machine : Bus W → Plugin W → Machine W
  machine bus p = record { meta = bus.meta; plugin = p; world = bus.world; notices = bus.notices }

  Behaves-IsGood :
      (p : Plugin W) (rs : List Route) (m : Machine W)
      → NamesFit p.provides
      → Behaves p rs m
      → IsGood m.meta.routes m.plugin
  Behaves-IsGood p rs m fits b = record {
    id_fits = b.held.id_fits;
    names_fit = subst NamesFit (sym b.held.provides) fits;
    owns = subst (λ ps. OwnsOnly m.plugin.id ps m.meta.routes) (sym b.held.provides) b.held.owns;
    idle = b.idle;
  }

  drive-Inv :
      (call : Machine W → Machine W × Rc) (p : Plugin W) (bus : Bus W)
      → Inv bus
      → NamesFit p.provides
      → Behaves p bus.meta.routes (call (machine bus p)).0
      → Inv (drive call p bus).0
  unfolding drive
  drive-Inv call p bus v fits b =
      let m = (call (machine bus p)).0 in
      record {
        valid = b.held.valid;
        distinct = replace-distinct p.id m.plugin bus.plugins b.held.is v.distinct;
        good =
            replace-IsGood p m.plugin bus.meta.routes m.meta.routes bus.plugins b.held.is
              (subst (λ i. foreign i m.meta.routes ≡ foreign p.id bus.meta.routes) b.held.is
                b.held.others)
              (Behaves-IsGood p bus.meta.routes m fits b) v.distinct v.good;
      }

  start-idle :
      (alloc : ℕ → Bool) (p : Plugin W) (bus : Bus W)
      → Inv bus
      → IsGood bus.meta.routes p
      → is_started p.state ≡ false
      → (hw_plugin_start alloc (machine bus p)).0.plugin.id ≡ p.id
      → is_started (hw_plugin_start alloc (machine bus p)).0.plugin.state ≡ false
      → let m = (hw_plugin_start alloc (machine bus p)).0 in OwnsNone m.plugin.id m.meta.routes
  start-idle alloc p bus v g idle same quiet =
      let m = machine bus p in
      elim (Rc-cases (hw_plugin_start alloc m).1) [
        | inl o ↦ absurd (no_start (start-started alloc m o) quiet)
        | inr (x, o) ↦
            let undone =
              start_undone alloc m v.valid g.id_fits g.names_fit (g.idle idle)
                (λ good. absurd (differ (sym o ∙ good))) in
            subst₂ OwnsNone (sym same) (sym undone.0) (g.idle idle)
      ]

  start-Behaves :
      (alloc : ℕ → Bool) (p : Plugin W) (bus : Bus W)
      → Inv bus
      → IsGood bus.meta.routes p
      → is_started p.state ≡ false
      → Behaves p bus.meta.routes (hw_plugin_start alloc (machine bus p)).0
  start-Behaves alloc p bus v g idle =
      let held =
        start-keeps p.id (foreign p.id bus.meta.routes) p.provides alloc (machine bus p) g.names_fit
          (record {
            valid = v.valid;
            owns = OwnsNone-only p.id [] bus.meta.routes (g.idle idle);
            others = refl;
            id_fits = g.id_fits;
            provides = refl;
            is = refl;
          }) in
      record { held = held; idle = start-idle alloc p bus v g idle held.is }

  owner :
      (p : Plugin W) (bus : Bus W)
      → Inv bus
      → IsGood bus.meta.routes p
      → Holds p.id (foreign p.id bus.meta.routes) p.provides p.provides (machine bus p)
  owner p bus v g = record {
    valid = v.valid;
    owns = g.owns;
    others = refl;
    id_fits = g.id_fits;
    provides = refl;
    is = refl;
  }

  gone-Behaves :
      (p : Plugin W) (rs : List Route) (m : Machine W)
      → Holds p.id (foreign p.id rs) p.provides [] m
      → Behaves p rs m
  gone-Behaves p rs m h = record {
    held = Holds-owned p.id (foreign p.id rs) p.provides p.provides m h;
    idle = λ _. OwnsOnly-none m.plugin.id m.meta.routes h.owns;
  }

  pub IsGood-node :
      (bus : Bus W) (q : Bytes) (p : Plugin W)
      → Inv bus
      → hw_bus_find bus q ≡ some p
      → IsGood bus.meta.routes p
  unfolding hw_bus_find
  IsGood-node bus q p v e = All-find? (IsGood bus.meta.routes) (has_id q) bus.plugins p v.good e

  pub load-Inv :
      (alloc : ℕ → Bool) (bus : Bus W) (q : Bytes) → Inv bus → Inv (hw_bus_load alloc bus q).0
  unfolding hw_bus_load
  load-Inv alloc bus q v = elim (Option-cases (hw_bus_find bus q)) [
    | inl e ↦ rw (e, hw_bus_load) v
    | inr (p, e) ↦
        let g = IsGood-node bus q p v e in
        elim (Bool-cases (is_started p.state)) [
          | inl s ↦ rw (e, hw_bus_load, s) v
          | inr s ↦
              rw (e, hw_bus_load, s)
                (drive-Inv (hw_plugin_start alloc) p bus v g.names_fit
                  (start-Behaves alloc p bus v g s))
        ]
  ]

  pub stop-Inv : (bus : Bus W) (q : Bytes) → Inv bus → Inv (hw_bus_stop bus q).0
  unfolding hw_bus_stop
  stop-Inv bus q v = elim (Option-cases (hw_bus_find bus q)) [
    | inl e ↦ rw (e, hw_bus_stop) v
    | inr (p, e) ↦
        let g = IsGood-node bus q p v e in
        rw (e, hw_bus_stop)
          (drive-Inv hw_plugin_stop p bus v g.names_fit (
            gone-Behaves p bus.meta.routes (hw_plugin_stop (machine bus p)).0 (
              stop-Holds p.id (foreign p.id bus.meta.routes) p.provides (machine bus p)
                (owner p bus v g))))
  ]

  pub unload-Inv : (bus : Bus W) (q : Bytes) → Inv bus → Inv (hw_bus_unload bus q).0
  unfolding hw_bus_unload
  unload-Inv bus q v = elim (Option-cases (hw_bus_find bus q)) [
    | inl e ↦ rw (e, hw_bus_unload) v
    | inr (p, e) ↦
        let g = IsGood-node bus q p v e in
        rw (e, hw_bus_unload)
          (drive-Inv hw_plugin_unload p bus v g.names_fit (
            gone-Behaves p bus.meta.routes (hw_plugin_unload (machine bus p)).0 (
              unload-Holds p.id (foreign p.id bus.meta.routes) p.provides (machine bus p)
                (owner p bus v g) (λ r. g.idle (running_started p.state r)))))
  ]
