-- ===== src/Bus/Loader/Outcome.antt =====
-- The state that a start of bus/src/loader.c sets.
use hwrun_os_linux.Prelude.{ℕ, ◌≡◌, Bool, arith}
use hwrun_os_linux.Errno.{ok}
use hwrun_os_linux.Metaproto.{started, loaded}
use hwrun_os_linux.Bus.Loader.{
  Machine, set_state, invoke, plugin_register_provides, hw_plugin_inject_runtime, run_start,
  run_provides, run_init, hw_plugin_start,
}

module _ {W : Type 0} where
  run_start-started :
      (m : Machine W) → (run_start m).1 ≡ ok → (run_start m).0.plugin.state ≡ started
  unfolding run_start
  run_start-started m h = ground arith

  run_provides-started :
      (alloc : ℕ → Bool) (m : Machine W)
      → (run_provides alloc m).1 ≡ ok
      → (run_provides alloc m).0.plugin.state ≡ started
  unfolding run_provides
  run_provides-started alloc m h =
      ground (arith, run_start-started (plugin_register_provides alloc m).0)

  run_init-started :
      (alloc : ℕ → Bool) (m : Machine W)
      → (run_init alloc m).1 ≡ ok
      → (run_init alloc m).0.plugin.state ≡ started
  unfolding run_init
  run_init-started alloc m h =
      ground (arith, run_provides-started alloc (set_state loaded (invoke m.plugin.ops.init m).0))

  pub start-started :
      (alloc : ℕ → Bool) (m : Machine W)
      → (hw_plugin_start alloc m).1 ≡ ok
      → (hw_plugin_start alloc m).0.plugin.state ≡ started
  unfolding hw_plugin_start
  start-started alloc m h = ground (arith, run_init-started alloc (hw_plugin_inject_runtime m))
