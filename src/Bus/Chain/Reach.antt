-- ===== src/Bus/Chain/Reach.antt =====
-- The states that the bus of bus/src/bus.c reaches by discovering, loading, stopping and unloading
-- plugins in any order, the boot chain among them.
use hwrun_os_linux.Prelude.{
  ℕ, ◌<◌, ◌≡◌, ◌≢◌, sym, subst, Bool, true, false, List, [], ◌∷◌, Option, none, some, Bytes, length,
  find?, find?-passes, fit_all, if◌then◌else◌, arith, All, All-find?, inl, inr, Bool-cases,
  Option-cases, is_empty, codes, fit,
}
use hwrun_os_linux.Errno.{Rc, ok, err, enomem}
use hwrun_os_linux.Metaproto.{
  Registry, hw_metaproto_register, hw_metaproto_init, started, Route, hw_metaproto_resolve,
  acceptable,
}
use hwrun_os_linux.Bus.Plugin.{Plugin}
use hwrun_os_linux.Bus.Loader.Holds.{NamesFit}
use hwrun_os_linux.Bus.Loader.Owned.{OwnsNone, OwnsOnly, OwnsNone-only}
use hwrun_os_linux.Metaproto.Unique.{register-IsValid, IsValid}
use hwrun_os_linux.Bus.Chain.{
  hw_bus_init, register_own, own_protocols, Bus, Discovery, has_id, is_started, new_node,
  scan_dir_rec, hw_bus_find, hw_bus_load, hw_bus_stop, hw_bus_unload, boot,
}
use hwrun_os_linux.Bus.Chain.Invariant.{Inv, IsGood}
use hwrun_os_linux.Bus.Chain.Preserve.{load-Inv, stop-Inv, unload-Inv, IsGood-node}

-- A descriptor whose names fit their fields, found while no route carries its id.
abbrev pub Sound : {W : Type 0} → Discovery → Bus W → Type 0
Sound d bus = (length d.id < 64) × NamesFit d.provides × OwnsNone d.id bus.meta.routes

new_node-id :
    (W : Type 0) (copied : Bool) (address : ℕ) (d : Discovery)
    → length d.id < 64
    → d.id ≡ (new_node {W = W} copied address d).id
unfolding new_node
new_node-id W copied address d i = sym (fit_all 64 d.id i)

module _ {W : Type 0} where
  -- One call on the bus, or the discovery of one plugin.
  pub data Step : Bus W → Bus W → Type 0 where
    finds :
        (alloc copied : Bool) (address : ℕ) (d : Discovery) (bus : Bus W)
        → Sound d bus
        → Step bus (scan_dir_rec alloc copied address d bus).0
    loads : (alloc : ℕ → Bool) (bus : Bus W) (q : Bytes) → Step bus (hw_bus_load alloc bus q).0
    stops : (bus : Bus W) (q : Bytes) → Step bus (hw_bus_stop bus q).0
    unloads : (bus : Bus W) (q : Bytes) → Step bus (hw_bus_unload bus q).0

  pub data Reach (bus : Bus W) : Bus W → Type 0 where
    here : Reach bus bus
    next : {b c : Bus W} → Reach bus b → Step b c → Reach bus c

  ids_differ :
      (q : Bytes) (ps : List (Plugin W)) → find? (has_id q) ps ≡ none → All (λ x. x.id ≢ q) ps
  unfolding find?
  ids_differ q [] h = tt
  ids_differ q (x ∷ ps) h = ground (arith, ids_differ q ps)

  new_node-IsGood :
      (copied : Bool) (address : ℕ) (d : Discovery) (bus : Bus W)
      → Sound d bus
      → IsGood {W = W} bus.meta.routes (new_node copied address d)
  unfolding new_node
  new_node-IsGood copied address d bus (i, n, o) =
      let same = sym (fit_all 64 d.id i) in
      record {
        id_fits = subst (λ q. length q < 64) same i;
        names_fit = n;
        owns =
            subst (λ q. OwnsOnly q d.provides bus.meta.routes) same
              (OwnsNone-only d.id d.provides bus.meta.routes o);
        idle = λ _. subst (λ q. OwnsNone q bus.meta.routes) same o;
      }

  scan-Inv :
      (alloc copied : Bool) (address : ℕ) (d : Discovery) (bus : Bus W)
      → Sound d bus
      → Inv bus
      → Inv (scan_dir_rec alloc copied address d bus).0
  unfolding scan_dir_rec hw_bus_find
  scan-Inv alloc copied address d bus s v = elim (Bool-cases (is_empty d.id)) [
    | inl e ↦ rw (e, scan_dir_rec) v
    | inr e ↦ elim (Option-cases (find? (has_id d.id) bus.plugins)) [
      | inr (x, f) ↦ rw (e, scan_dir_rec, f) v
      | inl f ↦ rw (e, scan_dir_rec, f) (insert alloc f)
    ]
  ]
    where
      insert :
          (a : Bool)
          → find? (has_id d.id) bus.plugins ≡ none
          → let out : Bus W × Rc =
              (if a
                then (record bus { plugins = new_node copied address d ∷ bus.plugins }, ok)
                else (bus, err enomem)) in
            Inv out.0
      insert true f = record {
        valid = v.valid;
        distinct = (
          subst (λ q. All (λ x. x.id ≢ q) bus.plugins) (new_node-id W copied address d s.0)
              (ids_differ d.id bus.plugins f),
          v.distinct,
        );
        good = (new_node-IsGood copied address d bus s, v.good);
      }
      insert false f = v

  pub Step-Inv : {b c : Bus W} → Step b c → Inv b → Inv c
  Step-Inv (finds alloc copied address d bus s) v = scan-Inv alloc copied address d bus s v
  Step-Inv (loads alloc bus q) v = load-Inv alloc bus q v
  Step-Inv (stops bus q) v = stop-Inv bus q v
  Step-Inv (unloads bus q) v = unload-Inv bus q v

  pub Reach-Inv : {b c : Bus W} → Reach b c → Inv b → Inv c
  Reach-Inv here v = v
  Reach-Inv (next r s) v = Step-Inv s (Reach-Inv r v)

  -- The boot loop is a sequence of loads.
  pub boot-Reach :
      (alloc : Bytes → ℕ → Bool) (order : List Bytes) (b bus : Bus W)
      → Reach b bus
      → Reach b (boot alloc order bus)
  unfolding boot
  boot-Reach alloc [] b bus r = r
  boot-Reach alloc (q ∷ order) b bus r =
      boot-Reach alloc order b (hw_bus_load (alloc q) bus q).0 (next r (loads (alloc q) bus q))

register_own-IsValid :
    (ps : List Bytes) (reg : Registry) → NamesFit ps → IsValid reg → IsValid (register_own ps reg)
unfolding register_own
register_own-IsValid [] reg f v = v
register_own-IsValid (p ∷ ps) reg f v =
    register_own-IsValid ps
      (hw_metaproto_register true reg (some p) (some (codes "1.0")) (some (codes "bus")) 0).0 f.1
      (register-IsValid true reg p (codes "bus") (some (codes "1.0")) 0 f.0 (omega arith) v)

-- Initialization, with any state directory and any world, establishes the invariant of the bus: a
-- valid route table, and only started nodes with routes.
pub init-Inv : {W : Type 0} (dir : Bytes) (w : W) → Inv (hw_bus_init dir w)
unfolding hw_bus_init hw_metaproto_init
init-Inv dir w = record {
  valid =
      register_own-IsValid own_protocols (hw_metaproto_init (some (fit 256 dir)))
        (omega arith, (omega arith, (omega arith, (omega arith, (omega arith, tt)))))
        (record { unique = tt; fits = tt });
  distinct = tt;
  good = tt;
}

-- After any sequence of discoveries, loads, stops and unloads from a state with the invariant, where
-- each discovery is of a descriptor whose names fit while no route carries its id, and
-- so whatever callbacks failed on the way, every route that a protocol resolves to belongs to a
-- plugin that is started, or to none that the bus keeps: no answer points into a plugin that is
-- stopped, failed or unloaded.
pub resolve-started :
    {W : Type 0} {b bus : Bus W} (p : Bytes) (req : Option Bytes) (r : Route) (x : Plugin W)
    → Inv b
    → Reach b bus
    → hw_metaproto_resolve bus.meta (some p) req ≡ (ok, some r)
    → hw_bus_find bus r.plugin_id ≡ some x
    → x.state ≡ started
unfolding hw_metaproto_resolve hw_bus_find
resolve-started {b} {bus} p req r x v reach found kept = elim (Bool-cases (is_started x.state)) [
  | inl s ↦ ground arith
  | inr s ↦
      let v' = Reach-Inv reach v in
      let g = IsGood-node bus r.plugin_id x v' kept in
      let e : find? (acceptable p req) bus.meta.routes ≡ some r = ground arith in
      let ne =
        All-find? (λ (y : Route). y.plugin_id ≢ x.id) (acceptable p req) bus.meta.routes r
          (g.idle s) e in
      let same : x.id ≡ r.plugin_id =
        ground (arith, find?-passes (has_id r.plugin_id) bus.plugins x kept) in
      absurd (ne (sym same))
]
