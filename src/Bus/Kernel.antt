-- ===== src/Bus/Kernel.antt =====
-- bus/src/bus.c: the resolution that falls back to the kernel's table. `kernel` is the query of the
-- kernel device, opened and closed around it: the descriptor of a protocol, or none where the device
-- or the protocol is missing.
use hwrun_os_linux.Prelude.{
  ◌≡◌, true, Option, none, some, Bytes, codes, is_empty, fit, if◌then◌else◌, arith,
}
use hwrun_os_linux.Errno.{Rc, ok, err, enoent, einval}
use hwrun_os_linux.Metaproto.{started, Route, Registry, hw_metaproto_resolve}

-- hwrun_kctl_desc_t, without the implementation
pub record Desc : Type 0 where
  pub protocol : Bytes
  pub version : Bytes
  pub provider : Bytes

-- The route that is made up for a descriptor: without an implementation.
abbrev pub kernel_route : Desc → Route
kernel_route d = record {
  protocol = fit 64 d.protocol;
  version = fit 16 d.version;
  plugin_id = fit 64 (if is_empty d.provider then codes "kernel" else d.provider);
  implementation = 0;
  provider_state = started;
  kernel_backed = true;
}

module _ (kernel : Bytes → Option Desc) where
  from_kernel : Bytes → Rc × Option Route
  from_kernel p = elim (kernel p) [
    | none ↦ (err enoent, none)
    | some d ↦ (ok, some (kernel_route d))
  ]

  unfoldable pub hw_bus_resolve_ex : Registry → Option Bytes → Rc × Option Route
  unfolding from_kernel
  hw_bus_resolve_ex reg none = (err einval, none)
  hw_bus_resolve_ex reg (some p) = elim (hw_metaproto_resolve reg (some p) none).0 [
    | ok ↦ hw_metaproto_resolve reg (some p) none
    | err _ ↦ from_kernel p
  ]

-- A protocol that resolves in user space never reaches the kernel: the answer is the same for every
-- kernel, and it is the registry's.
pub resolve_ex_local :
    (kernel other : Bytes → Option Desc) (reg : Registry) (p : Bytes)
    → (hw_metaproto_resolve reg (some p) none).0 ≡ ok
    → (hw_bus_resolve_ex kernel reg (some p) ≡ hw_bus_resolve_ex other reg (some p))
      × (hw_bus_resolve_ex kernel reg (some p) ≡ hw_metaproto_resolve reg (some p) none)
unfolding hw_bus_resolve_ex
resolve_ex_local kernel other reg p found = ground arith
