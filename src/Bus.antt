-- ===== src/Bus.antt =====
-- bus/src: plugins, their life cycle in the loader, and the bus that drives them.
pub mod Plugin
pub mod Loader
pub mod Chain
pub mod Kernel
