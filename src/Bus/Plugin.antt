-- ===== src/Bus/Plugin.antt =====
-- include/hwrun.h: the plugin descriptor. The callbacks are code of a plugin: functions on a world
-- `W` that is a parameter of the model, with the code that they return.
use hwrun_os_linux.Prelude.{ℕ, Option, List, Bytes}
use hwrun_os_linux.Errno.{Rc}
use hwrun_os_linux.Metaproto.{PluginState}

-- hw_plugin_ops_t: `none` is a NULL pointer, and `get_interface` returns 0 for NULL.
pub record Ops (W : Type 0) : Type 0 where
  pub init : Option (W → Rc × W)
  pub start : Option (W → Rc × W)
  pub stop : Option (W → Rc × W)
  pub destroy : Option (W → Rc × W)
  pub configure : Option (Bytes → Bytes → W → Rc × W)
  pub get_interface : Option (Bytes → ℕ)

-- The fields of hw_plugin_t that the bus reads or writes. `address` is the node's own address;
-- `requires` is `none` for a NULL array; a file is `none` for a NULL entry.
pub record Plugin (W : Type 0) : Type 0 where
  pub id : Bytes
  pub state : PluginState
  pub provides : List Bytes
  pub requires : Option (List Bytes)
  pub conflicts : List Bytes
  pub files : List (Option Bytes)
  pub ops : Ops W
  pub handle : ℕ
  pub address : ℕ
  -- called with the implementation that the GIT protocol resolves to, 0 for none
  pub runtime_bind : Option (ℕ → W → W)
