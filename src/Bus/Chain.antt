-- ===== src/Bus/Chain.antt =====
-- bus/src/bus.c: the bus. It keeps the plugins that it discovered and drives their life cycles.
-- Reading the plugin directories is a parameter: the list of descriptors that were parsed.
pub mod Invariant
pub mod Preserve
pub mod Reach
pub mod Bare
use hwrun_os_linux.Prelude.{
  ℕ, Bool, true, false, not, ◌&&◌, ◌||◌, List, [], ◌∷◌, ◌++◌, Option, none, some, map, Bytes,
  length, str_eq, is_empty, fit, find?, update_first, if◌then◌else◌, ◌==◌, ltb, codes,
}
use hwrun_os_linux.Errno.{Rc, ok, err, enoent, enomem, eexist, einval, eilseq}
use hwrun_os_linux.Metaproto.{
  PluginState, installed, started, loaded, failed, stopped, uninstalled, Registry, Notice,
  hw_metaproto_init, hw_metaproto_register, hw_metaproto_shutdown,
}
use hwrun_os_linux.Bus.Plugin.{Ops, Plugin}
use hwrun_os_linux.Bus.Loader.{
  Machine, is_running, hw_plugin_start, hw_plugin_stop, hw_plugin_unload,
}

-- The parts of hw_bus_t that the life cycles read and change.
pub record Bus (W : Type 0) : Type 0 where
  pub plugins : List (Plugin W)
  pub meta : Registry
  pub world : W
  pub notices : List Notice
  pub initialized : Bool

-- The parts of hw_plugin_discovery_t that the bus keeps for a life cycle, and the plugin's folder.
pub record Discovery : Type 0 where
  pub id : Bytes
  pub provides : List Bytes
  pub requires : List Bytes
  pub conflicts : List Bytes
  pub files : List Bytes
  pub folder : Bytes

-- The protocols that the bus registers for itself, without an implementation.
abbrev pub own_protocols : List Bytes
own_protocols = codes "METAPROTO" ∷ codes "BUS" ∷ codes "PARAM" ∷ codes "LOG" ∷ codes "GIT" ∷ []

unfoldable pub register_own : List Bytes → Registry → Registry
register_own [] reg = reg
register_own (p ∷ ps) reg =
    register_own ps
      (hw_metaproto_register true reg (some p) (some (codes "1.0")) (some (codes "bus")) 0).0

unfoldable pub hw_bus_init : {W : Type 0} → Bytes → W → Bus W
unfolding register_own
hw_bus_init state_dir w = record {
  plugins = [];
  meta = register_own own_protocols (hw_metaproto_init (some (fit 256 state_dir)));
  world = w;
  notices = [];
  initialized = true;
}

-- An empty array, or one without memory for its copy, is copied to a NULL pointer.
abbrev pub copy_str_arr : Bool → List Bytes → Option (List Bytes)
copy_str_arr alloc [] = none
copy_str_arr alloc (x ∷ xs) = if alloc then some (x ∷ xs) else none

ends_in_slash : Bytes → Bool
ends_in_slash [] = false
ends_in_slash (c ∷ []) = c == b'/'
ends_in_slash (_ ∷ s) = ends_in_slash s

-- hw_fmt_path of bus/src/hwrun.c, for a folder that is not empty: the text, if it fits in `cap`.
unfoldable pub hw_fmt_path : ℕ → Bytes → Bytes → Option Bytes
unfolding ends_in_slash
hw_fmt_path cap dir name =
    let path = (if ends_in_slash dir then dir ++ name else dir ++ b'/' ∷ name) in
    if ltb (length path) cap then some path else none

-- A file is kept by its absolute path; one whose path is too long is dropped.
absolute_file : Bytes → Bytes → Option Bytes
unfolding hw_fmt_path
absolute_file folder [] = hw_fmt_path 512 folder []
absolute_file folder (c ∷ s) = if c == b'/' then some (c ∷ s) else hw_fmt_path 512 folder (c ∷ s)

abbrev no_ops : {W : Type 0} → Ops W
no_ops = record {
  init = none;
  start = none;
  stop = none;
  destroy = none;
  configure = none;
  get_interface = none;
}

-- The node that `scan_dir_rec` makes; it knows the plugin's files, and none of its callbacks. `copied`
-- says whether the copy of its requirements finds memory. The copies of the other arrays do: their counts
-- are kept with a NULL array, which the loops over them would read.
unfoldable pub new_node : {W : Type 0} → Bool → ℕ → Discovery → Plugin W
unfolding absolute_file
new_node copied address d = record {
  id = fit 64 d.id;
  state = installed;
  provides = d.provides;
  requires = copy_str_arr copied d.requires;
  conflicts = d.conflicts;
  files = map (absolute_file d.folder) d.files;
  ops = no_ops;
  handle = 0;
  address = address;
  runtime_bind = none;
}

abbrev pub is_started : PluginState → Bool
is_started started = true
is_started _ = false

-- The standard order of start.
boot_order : List Bytes
boot_order = map codes (
    "metaproto" ∷ "bus" ∷ "param" ∷ "log" ∷ "git" ∷ "hap" ∷ "pmp" ∷ "fsp" ∷ "np" ∷ "sp" ∷ "crypto"
    ∷ "loader" ∷ "compress" ∷ "cluster" ∷ "instance" ∷ "sandbox" ∷ "input" ∷ "display" ∷ "audio"
    ∷ "power" ∷ "storage" ∷ "permission" ∷ "consensus" ∷ "fs_transfer" ∷ "node_discovery" ∷ "driver"
    ∷ "hotplug" ∷ "terminal" ∷ "audit" ∷ "packages" ∷ "monitor" ∷ "ui" ∷ "console" ∷ "desktop"
    ∷ "shell" ∷ [])

module _ {W : Type 0} where
  abbrev pub has_id : Bytes → Plugin W → Bool
  has_id q p = str_eq p.id q

  unfoldable pub hw_bus_find : Bus W → Bytes → Option (Plugin W)
  hw_bus_find bus q = find? (has_id q) bus.plugins

  -- scan_dir_rec, from the parsed descriptor on. `alloc` says whether the node finds memory.
  unfoldable pub scan_dir_rec : Bool → Bool → ℕ → Discovery → Bus W → Bus W × Rc
  unfolding new_node
  scan_dir_rec alloc copied address d bus =
      if is_empty d.id then (bus, err eilseq) else elim (hw_bus_find bus d.id) [
        | some _ ↦ (bus, err eexist)
        | none ↦
            if alloc
            then (record bus { plugins = new_node copied address d ∷ bus.plugins }, ok)
            else (bus, err enomem)
      ]

  -- A life cycle call on a node of the bus.
  unfoldable pub drive : (Machine W → Machine W × Rc) → Plugin W → Bus W → Bus W × Rc
  drive call p bus =
      let (m, rc) =
        call (record { meta = bus.meta; plugin = p; world = bus.world; notices = bus.notices }) in
      (
        record bus {
          plugins = update_first (has_id p.id) (λ _. m.plugin) bus.plugins;
          meta = m.meta;
          world = m.world;
          notices = m.notices;
        },
        rc,
      )

  unfoldable pub hw_bus_load : (ℕ → Bool) → Bus W → Bytes → Bus W × Rc
  unfolding drive
  hw_bus_load alloc bus q = elim (hw_bus_find bus q) [
    | none ↦ (bus, err enoent)
    | some p ↦ if is_started p.state then (bus, ok) else drive (hw_plugin_start alloc) p bus
  ]

  unfoldable pub hw_bus_stop : Bus W → Bytes → Bus W × Rc
  unfolding drive
  hw_bus_stop bus q = elim (hw_bus_find bus q) [
    | none ↦ (bus, err enoent)
    | some p ↦ drive hw_plugin_stop p bus
  ]

  unfoldable pub hw_bus_unload : Bus W → Bytes → Bus W × Rc
  unfolding drive
  hw_bus_unload bus q = elim (hw_bus_find bus q) [
    | none ↦ (bus, err enoent)
    | some p ↦ drive hw_plugin_unload p bus
  ]

  -- The start loop of `hw_bus_boot_chain`, over the names of the boot order. A node that is missing
  -- is skipped, and a failure is only logged, so each round is a load whose result is dropped.
  unfoldable pub boot : (Bytes → ℕ → Bool) → List Bytes → Bus W → Bus W
  unfolding hw_bus_load
  boot alloc [] bus = bus
  boot alloc (q ∷ order) bus = boot alloc order (hw_bus_load (alloc q) bus q).0

  -- The parsed descriptors, in the order in which the directories give them, each with whether its
  -- node and the copy of its requirements find memory, and where.
  unfoldable pub hw_bus_scan : List (Bool × Bool × ℕ × Discovery) → Bus W → Bus W
  unfolding scan_dir_rec
  hw_bus_scan [] bus = bus
  hw_bus_scan ((alloc, copied, address, d) ∷ found) bus =
      hw_bus_scan found (scan_dir_rec alloc copied address d bus).0

  unfoldable pub hw_bus_boot_chain :
      (Bytes → ℕ → Bool) → List (Bool × Bool × ℕ × Discovery) → Bus W → Bus W × Rc
  unfolding hw_bus_scan boot boot_order
  hw_bus_boot_chain alloc found bus =
      if bus.initialized
      then (boot alloc boot_order (hw_bus_scan found bus), ok)
      else (bus, err einval)

  -- The running ones of these nodes are unloaded, in this order.
  unfoldable pub unload_each : List (Plugin W) → Bus W → Bus W
  unfolding drive
  unload_each [] bus = bus
  unload_each (p ∷ ps) bus =
      unload_each ps (if is_running p.state then (drive hw_plugin_unload p bus).0 else bus)

  closed : Bus W → Bus W
  closed bus = record bus { meta = hw_metaproto_shutdown bus.meta; initialized = false }

  -- The nodes are taken off the list before they are unloaded.
  unfoldable pub hw_bus_shutdown : Bus W → Bus W
  unfolding unload_each closed
  hw_bus_shutdown bus =
      if bus.initialized
      then closed (unload_each bus.plugins (record bus { plugins = [] }))
      else bus
