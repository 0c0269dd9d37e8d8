-- ===== src/Bus/Chain/Bare.antt =====
-- The discovery and the load of a plugin without requirements, in bus/src/bus.c.
use hwrun_os_linux.Prelude.{
  ℕ, ◌<◌, ◌≡◌, refl, ap, ◌∙◌, Bool, true, false, List, [], ◌∷◌, none, Bytes, length, find?,
  update_first, fit_all, arith, ◌⊎◌, inl, inr, is_empty, str_eq,
}
use hwrun_os_linux.Errno.{ok, err, eilseq}
use hwrun_os_linux.Metaproto.{failed, hw_metaproto_check_deps}
use hwrun_os_linux.Bus.Plugin.{Plugin}
use hwrun_os_linux.Bus.Loader.{Machine, set_state, hw_plugin_start}
use hwrun_os_linux.Bus.Chain.{
  Bus, Discovery, new_node, scan_dir_rec, hw_bus_find, hw_bus_load, drive, is_started, copy_str_arr,
}

start_refused :
    {W : Type 0} (alloc : ℕ → Bool) (m : Machine W)
    → m.plugin.requires ≡ none
    → hw_plugin_start alloc m ≡ (set_state failed m, err eilseq)
unfolding hw_plugin_start hw_metaproto_check_deps
start_refused alloc m h = ground arith

refused_head :
    {W : Type 0} (alloc : ℕ → Bool) (bus : Bus W) (p : Plugin W) (q : Bytes)
    → p.id ≡ q
    → is_started p.state ≡ false
    → p.requires ≡ none
    → hw_bus_load alloc (record bus { plugins = p ∷ bus.plugins }) q
      ≡ (record bus { plugins = record p { state = failed } ∷ bus.plugins }, err eilseq)
unfolding hw_bus_load hw_bus_find find? drive update_first
refused_head alloc bus p q same idle null =
    let m : Machine _ = record {
      meta = bus.meta;
      plugin = p;
      world = bus.world;
      notices = bus.notices;
    } in
    let hit : str_eq p.id q ≡ true = ground arith in
    let own : str_eq p.id p.id ≡ true = ground arith in
    rw (hit, hw_bus_load, idle, start_refused alloc m null, own) refl

null_copy :
    (copied : Bool) (xs : List Bytes) → (xs ≡ []) ⊎ (copied ≡ false) → copy_str_arr copied xs ≡ none
null_copy copied [] h = refl
null_copy copied (x ∷ xs) (inl e) = absurd (ground arith)
null_copy copied (x ∷ xs) (inr e) = ground arith

-- A plugin whose descriptor requires nothing, or whose list of requirements finds no memory for its
-- copy, is discovered with success, where its id is not empty, fits its field and is on no node, and
-- cannot be loaded then: the load returns EILSEQ, and all that it changes of the bus is the state of
-- the new node, which is marked as failed.
pub load-no_requires :
    {W : Type 0} (alloc : ℕ → Bool) (copied : Bool) (address : ℕ) (d : Discovery) (bus : Bus W)
    → (d.requires ≡ []) ⊎ (copied ≡ false)
    → is_empty d.id ≡ false
    → length d.id < 64
    → hw_bus_find bus d.id ≡ none
    → let found = scan_dir_rec true copied address d bus in
      (found.1 ≡ ok)
      × (hw_bus_load alloc found.0 d.id ≡ (
        record bus {
          plugins = record (new_node copied address d) { state = failed } ∷ bus.plugins;
        },
        err eilseq,
      ))
unfolding scan_dir_rec new_node
load-no_requires {W = W} alloc copied address d bus null named fits free =
    let node : Plugin W = new_node copied address d in
    let found : scan_dir_rec true copied address d bus
        ≡ (record bus { plugins = node ∷ bus.plugins }, ok) =
      rw (named, scan_dir_rec, free) refl in
    let refused =
      refused_head alloc bus node d.id (fit_all 64 d.id fits) refl
        (null_copy copied d.requires null) in
    (ap (λ x. x.1) found, ap (λ x. hw_bus_load alloc x.0 d.id) found ∙ refused)
